-- ===== src/Store/Pages/Sessions.antt =====
-- src/code_forge/persistence/sqlite_store.py: reading workspaces and lists of sessions.
use Prim.Native.String.{len, slice, find as find_text, ◌++◌ as ◌<>◌}
use code_forge.Prelude.{
  ℕ, zero, suc, String, Bool, true, not, ◌&&◌, ◌||◌, Option, none, some, List, [], ◌∷◌, nonempty,
  ltb, leb, ◌+◌, text_lt, if◌then◌else◌, ◌==◌,
}
use code_forge.Prelude.Tables.{find, length, take, select_where}
use code_forge.Prelude.Order.{last, get_elem?}
use code_forge.Contracts.Result.{Result, ok, err, value_error}
use code_forge.Store.Schema.{Db, Workspace, Session}
use code_forge.Store.Monad.{Tx, pure, lift, select, ◌>>=◌}
use code_forge.Store.Keys.{workspace_at}
use code_forge.Store.Sessions.{SessionView, with_workspace}

abbrev with_view : Option SessionView → List SessionView → List SessionView
with_view none rest = rest
with_view (some v) rest = v ∷ rest

-- The JOIN with the workspaces.
unfoldable pub session_views : Db → List Session → List SessionView
unfolding find
session_views db [] = []
session_views db (s ∷ ss) =
    let rest = session_views db ss in
    with_view (with_workspace s (find (workspace_at s.scope_id s.workspace_id) db.workspaces)) rest

abbrev created : SessionView → String
created v = v.session.audit.date_created

-- ORDER BY s.date_created, s.id
abbrev is_before : SessionView → SessionView → Bool
is_before u v =
    text_lt (created u) (created v) || created u == created v && text_lt u.session.id v.session.id

unfoldable insert_session_view : SessionView → List SessionView → List SessionView
insert_session_view v [] = v ∷ []
insert_session_view v (u ∷ us) =
    let rest = insert_session_view v us in if is_before u v then u ∷ rest else v ∷ u ∷ us

unfoldable pub by_creation : List SessionView → List SessionView
unfolding insert_session_view
by_creation [] = []
by_creation (v ∷ vs) = insert_session_view v (by_creation vs)

-- `cursor.split("|", 1)` into two parts
abbrev split_cursor : String → Result (String × String)
split_cursor c =
    if leb (find_text c "|") (len c)
    then ok (slice c 0 (find_text c "|"), slice c (find_text c "|" + 1) (len c))
    else err value_error

abbrev after_split : Result (String × String) → Result (SessionView → Bool)
after_split (err e) = err e
after_split (ok (time, ident)) =
    ok (λ v. text_lt time (created v) || created v == time && text_lt ident v.session.id)

-- What the cursor adds to the WHERE clause.
abbrev pub session_cursor_test : Option String → Result (SessionView → Bool)
session_cursor_test none = ok (λ v. true)
session_cursor_test (some c) = if nonempty c then after_split (split_cursor c) else ok (λ v. true)

-- `rows[limit - 1]`
abbrev session_before : ℕ → List SessionView → Option SessionView
session_before zero rows = last rows
session_before (suc k) rows = get_elem? rows k

abbrev cursor_of : Option SessionView → Option String
cursor_of none = none
cursor_of (some v) = some (created v <> "|" <> v.session.id)

unfoldable pub session_page :
    (SessionView → Bool) → Option String → ℕ → Tx (List SessionView × Option String)
unfolding select_where by_creation session_views
session_page fits cursor limit = do
  after ← lift (session_cursor_test cursor)
  rows ← select λ db.
      take (suc limit)
        (by_creation (select_where (λ v. fits v && after v) (session_views db db.sessions)))
  pure (
    take limit rows,
    if ltb limit (length rows) then cursor_of (session_before limit rows) else none,
  )

-- `list_sessions`
unfoldable pub list_sessions : String → Option String → ℕ → Tx (List SessionView × Option String)
list_sessions scope cursor limit = session_page (λ v. v.session.scope_id == scope) cursor limit

-- A filter of a request, where it is given and not empty.
abbrev fits_filter : Option String → String → Bool
fits_filter none value = true
fits_filter (some wanted) value = if nonempty wanted then value == wanted else true

-- `list_sessions_public`
unfoldable pub list_sessions_public :
    Option String → Option String → Option String → ℕ → Tx (List SessionView × Option String)
list_sessions_public user_rel_path project_ref cursor limit =
    session_page
      (λ v.
        fits_filter user_rel_path v.workspace.user_rel_path
        && fits_filter project_ref v.workspace.project_ref)
      cursor limit

-- `list_bound_sessions`
unfoldable pub list_bound_sessions : Tx (List SessionView)
unfolding select_where by_creation session_views
list_bound_sessions = select λ db. by_creation (
    select_where (λ v. not (v.workspace.user_path == "") && not (v.workspace.project_path == ""))
      (session_views db db.sessions))

-- `get_workspace`
unfoldable pub get_workspace : String → String → Tx (Option Workspace)
unfolding find
get_workspace scope workspace_id =
    select (λ db. find (workspace_at scope workspace_id) db.workspaces)

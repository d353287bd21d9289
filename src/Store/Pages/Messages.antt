-- ===== src/Store/Pages/Messages.antt =====
-- src/code_forge/persistence/sqlite_store.py: reading runs as messages of a session.
use mathlib.Core.List.{reverse}
use code_forge.Prelude.{
  ℕ, zero, suc, ℤ, pos, negsuc, String, Bool, true, not, ◌&&◌, ◌||◌, Option, none, some, List, [],
  ◌∷◌, nonempty, ltb, nat_eq, text_lt, is_some, if◌then◌else◌, ◌==◌,
}
use code_forge.Prelude.Tables.{find, length, take, select_where}
use code_forge.Prelude.Order.{order_by, last, get_elem?}
use code_forge.Json.{Json, obj, str, get_field}
use code_forge.Contracts.{RunStatus}
use code_forge.Contracts.Result.{Result, ok, err, value_error, overflow_error, attribute_error}
use code_forge.Store.Schema.{Db, Run, PendingResponse}
use code_forge.Store.Monad.{Env, Tx, pure, lift, select, ◌>>=◌}
use code_forge.Store.Content.{read_message, read_object_json}
use code_forge.Store.Keys.{run_at}
use code_forge.Store.Events.{base_for_session}
use code_forge.Store.Runs.{RunView, decode_run, decode_option, get_run, ref_of}
use code_forge.Store.Pages.{each}
use code_forge.Store.Pages.Events.{is_truthy, event_cursor}

-- `run_seq > ?`, for an integer
abbrev pub is_after : ℤ → ℕ → Bool
is_after (pos m) n = ltb m n
is_after (negsuc m) n = true

-- An integer that SQLite takes as a parameter has 64 bits.
abbrev pub int64_end : ℕ
int64_end = 9223372036854775808

abbrev pub fits_int64 : ℤ → Bool
fits_int64 (pos n) = ltb n int64_end
fits_int64 (negsuc n) = ltb n int64_end

abbrev pub int_or_error : Option ℤ → Result (Run → Bool)
int_or_error none = err value_error
int_or_error (some z) = if fits_int64 z then ok (λ r. is_after z r.run_seq) else err overflow_error

-- `rows[limit - 1]`
abbrev pub row_before : ℕ → List Run → Option Run
row_before zero rows = last rows
row_before (suc k) rows = get_elem? rows k

module _ (env : Env) where
  -- What the cursor of a request adds to the WHERE clause: nothing where it is missing or empty.
  abbrev pub cursor_test : Option String → Result (Run → Bool)
  cursor_test none = ok (λ r. true)
  cursor_test (some c) = if nonempty c then int_or_error (env.int c) else ok (λ r. true)

  abbrev pub show_seq : Option Run → Option String
  show_seq none = none
  show_seq (some r) = some (env.show r.run_seq)

  -- A page of rows that were read with one row more than the page holds.
  unfoldable pub run_page : ℕ → List Run → Tx (List RunView × Option String)
  unfolding each
  run_page limit rows = do
    items ← each (decode_run env) (take limit rows)
    pure (items, if ltb limit (length rows) then show_seq (row_before limit rows) else none)

  abbrev pub rows_for : (Run → Bool) → (Run → Bool) → ℕ → Db → List Run
  rows_for mine after limit db =
      take (suc limit)
        (order_by (λ (r : Run). r.run_seq) (select_where (λ r. mine r && after r) db.runs))

  -- The page after a cursor of the runs that fit.
  unfoldable pub list_page : (Run → Bool) → Option String → ℕ → Tx (List RunView × Option String)
  unfolding select_where order_by
  list_page mine cursor limit = do
    after ← lift (cursor_test cursor)
    rows ← select (rows_for mine after limit)
    run_page limit rows

  -- `list_runs`
  unfoldable pub list_runs : String → String → Option String → ℕ → Tx (List RunView × Option String)
  list_runs scope session_id cursor limit =
      list_page (λ r. r.scope_id == scope && r.session_id == session_id) cursor limit

  -- `list_messages_public`
  unfoldable pub list_messages_public :
      String → Option String → ℕ → Tx (List RunView × Option String)
  list_messages_public session_id cursor limit =
      list_page (λ r. r.session_id == session_id) cursor limit

  -- `get_run_unscoped`
  unfoldable pub get_run_unscoped : String → Tx (Option RunView)
  unfolding find
  get_run_unscoped run_id = do
    found ← select (λ db. find (λ r. r.id == run_id) db.runs)
    decode_option env found

  -- `get_current_message`
  unfoldable pub get_current_message : String → Tx (Option RunView)
  unfolding select_where order_by
  get_current_message session_id = do
    found ← select λ db. last (
        order_by (λ (r : Run). r.run_seq)
          (select_where (λ (r : Run). r.session_id == session_id) db.runs))
    decode_option env found

-- A pending response with the number of its run.
pub record OpenQuestion : Type 0 where
  pub pending : PendingResponse
  pub run_seq : ℕ

abbrev is_later : OpenQuestion → OpenQuestion → Bool
is_later p q =
    ltb q.run_seq p.run_seq
    || nat_eq p.run_seq q.run_seq
      && text_lt q.pending.audit.date_created p.pending.audit.date_created

abbrev later_of : Option OpenQuestion → Option OpenQuestion → Option OpenQuestion
later_of p none = p
later_of none q = q
later_of (some p) (some q) = if is_later q p then some q else some p

abbrev question_of : String → PendingResponse → Option Run → Option OpenQuestion
question_of session_id p none = none
question_of session_id p (some r) =
    if r.session_id == session_id && not (is_some p.resolved_at)
    then some (record { pending = p; run_seq = r.run_seq })
    else none

-- The JOIN's first row in the order of `run_seq DESC, date_created DESC`.
unfoldable pub open_question : String → Db → List PendingResponse → Option OpenQuestion
unfolding find
open_question session_id db [] = none
open_question session_id db (p ∷ ps) =
    later_of (question_of session_id p (find (run_at p.scope_id p.run_id) db.runs))
      (open_question session_id db ps)

-- `payload.get("prompt", "")` of `payload or {}`
abbrev pub prompt_of : Option Json → Result Json
prompt_of none = ok (str "")
prompt_of (some j) = if is_truthy j then prompt_field j else ok (str "")
  where
    or_blank : Option Json → Json
    or_blank none = str ""
    or_blank (some p) = p

    prompt_field : Json → Result Json
    prompt_field (obj fs) = ok (or_blank (get_field "prompt" fs))
    prompt_field _ = err attribute_error

pub record PendingReply : Type 0 where
  pub pending_id : String
  pub message_id : String
  pub kind : String
  pub prompt : Json

pub record HistoryItem : Type 0 where
  pub id : String
  pub run_seq : ℕ
  pub status : RunStatus
  pub input : Option Json
  pub output : Option Json

-- A pending response as `get_snapshot` shows it.
pub record PendingView : Type 0 where
  pub id : String
  pub kind : String
  pub response_key : Option String
  pub response_digest : Option String
  pub resolved_at : Option String
  pub prompt : Json
  pub resolved : Bool

pub record Snapshot : Type 0 where
  pub run : RunView
  pub event_cursor : String
  pub pending_responses : List PendingView

-- ORDER BY date_created
unfoldable insert_by_date : PendingResponse → List PendingResponse → List PendingResponse
insert_by_date p [] = p ∷ []
insert_by_date p (q ∷ qs) =
    let rest = insert_by_date p qs in
    if text_lt q.audit.date_created p.audit.date_created then q ∷ rest else p ∷ q ∷ qs

unfoldable pub by_date : List PendingResponse → List PendingResponse
unfolding insert_by_date
by_date [] = []
by_date (p ∷ ps) = insert_by_date p (by_date ps)

module _ (env : Env) where
  unfoldable pub reply_of : String → Option OpenQuestion → Tx (Option PendingReply)
  reply_of session_id none = pure none
  reply_of session_id (some q) = do
    base ← base_for_session env session_id
    payload ← read_object_json env base (some q.pending.payload.ref)
    prompt ← lift (prompt_of payload)
    pure (
        some (record {
          pending_id = q.pending.id;
          message_id = q.pending.run_id;
          kind = q.pending.kind;
          prompt = prompt;
        }))

  -- `get_pending_reply`
  unfoldable pub get_pending_reply : String → Tx (Option PendingReply)
  unfolding open_question
  get_pending_reply session_id = do
    found ← select (λ db. open_question session_id db db.pendings)
    reply_of session_id found

  unfoldable pub history_item : String → Run → Tx HistoryItem
  history_item base r = do
    input ← read_message env base (some r.input.ref)
    output ← read_message env base (ref_of r.output)
    pure (record {
      id = r.id;
      run_seq = r.run_seq;
      status = r.status;
      input = input;
      output = output;
    })

  -- The runs before one, the last `limit` of them, the latest first.
  abbrev pub runs_before : String → String → ℕ → ℕ → Db → List Run
  runs_before scope session_id seq limit db = take limit (
      reverse (
        order_by (λ (r : Run). r.run_seq)
          (select_where
            (λ (r : Run). r.scope_id == scope && (r.session_id == session_id) && ltb r.run_seq seq)
            db.runs)))

  unfoldable pub history_before : String → String → ℕ → Option Run → Tx (List HistoryItem)
  unfolding each select_where order_by
  history_before scope session_id limit none = pure []
  history_before scope session_id limit (some current) = do
    rows ← select (runs_before scope session_id current.run_seq limit)
    base ← base_for_session env session_id
    history ← each (history_item base) rows
    pure (reverse history)

  -- `conversation_history`
  unfoldable pub conversation_history : String → String → String → ℕ → Tx (List HistoryItem)
  unfolding find
  conversation_history scope session_id before_run_id limit = do
    current ← select λ db.
        find
          (λ (r : Run).
            r.scope_id == scope && (r.session_id == session_id) && (r.id == before_run_id))
          db.runs
    history_before scope session_id limit current

  unfoldable pub pending_view : String → PendingResponse → Tx PendingView
  pending_view base p = do
    payload ← read_object_json env base (some p.payload.ref)
    prompt ← lift (prompt_of payload)
    pure (record {
      id = p.id;
      kind = p.kind;
      response_key = p.response_key;
      response_digest = p.response_digest;
      resolved_at = p.resolved_at;
      prompt = prompt;
      resolved = is_some p.resolved_at;
    })

  unfoldable pub snapshot_of : String → String → Option RunView → Tx (Option Snapshot)
  unfolding each select_where by_date
  snapshot_of scope run_id none = pure none
  snapshot_of scope run_id (some run) = do
    rows ← select λ db. by_date (
        select_where (λ (p : PendingResponse). p.scope_id == scope && p.run_id == run_id)
          db.pendings)
    base ← base_for_session env run.row.session_id
    pending ← each (pending_view base) rows
    cursor ← event_cursor env scope run_id
    pure (some (record { run = run; event_cursor = cursor; pending_responses = pending }))

  -- `get_snapshot`
  unfoldable pub get_snapshot : String → String → Tx (Option Snapshot)
  get_snapshot scope run_id = do run ← get_run env scope run_id; snapshot_of scope run_id run

-- ===== src/Store/Keys.antt =====
-- src/code_forge/persistence/sqlite_store.py, `_schema_v4`: the WHERE clauses by key, and the
-- UNIQUE and FOREIGN KEY constraints that an INSERT is held to.
use code_forge.Prelude.{
  String, Bool, true, not, ◌&&◌, ◌||◌, Option, none, some, [], ◌∷◌, ◌++◌, nat_eq, sql_eq, ◌==◌,
}
use code_forge.Prelude.Tables.{exists}
use code_forge.Contracts.Result.{integrity_error}
use code_forge.Store.Schema.{
  Db, Workspace, Revision, Session, SessionRequest, Run, Attempt, ToolExecution, PendingResponse,
  RunEvent,
}
use code_forge.Store.Monad.{Tx, select, update, check, ◌>>=◌, ◌>>◌}

-- WHERE scope_id = ? AND id = ?
abbrev pub workspace_at : String → String → Workspace → Bool
workspace_at scope id w = w.scope_id == scope && w.id == id

abbrev pub session_at : String → String → Session → Bool
session_at scope id s = s.scope_id == scope && s.id == id

abbrev pub run_at : String → String → Run → Bool
run_at scope id r = r.scope_id == scope && r.id == id

abbrev pub tool_at : String → String → ToolExecution → Bool
tool_at scope id t = t.scope_id == scope && t.id == id

abbrev pub attempt_at : String → Option String → Attempt → Bool
attempt_at scope id a = a.scope_id == scope && sql_eq (some a.id) id

abbrev pub pending_at : String → String → String → PendingResponse → Bool
pending_at scope run_id id p = p.scope_id == scope && (p.run_id == run_id) && (p.id == id)

-- WHERE scope_id = ? AND session_id = ? AND idempotency_key = ?
abbrev pub request_at : String → String → String → Run → Bool
request_at scope session_id key r =
    r.scope_id == scope && (r.session_id == session_id) && (r.idempotency_key == key)

abbrev pub has_session : Db → String → String → Bool
has_session db scope id = exists (session_at scope id) db.sessions

abbrev pub has_workspace : Db → String → String → Bool
has_workspace db scope id = exists (workspace_at scope id) db.workspaces

abbrev pub has_run : Db → String → String → Bool
has_run db scope id = exists (run_at scope id) db.runs

abbrev pub has_revision : Db → String → String → Option String → Bool
has_revision db scope workspace_id none = true
has_revision db scope workspace_id (some id) =
    exists (λ v. v.scope_id == scope && (v.workspace_id == workspace_id) && (v.id == id))
      db.revisions

unfoldable pub workspace_fits : Db → Workspace → Bool
unfolding exists
workspace_fits db x =
    not (exists (λ w. w.id == x.id) db.workspaces)
    && not
        (exists (λ w. w.scope_id == x.scope_id && (w.project_ref == x.project_ref)) db.workspaces)

unfoldable pub revision_fits : Db → Revision → Bool
unfolding exists
revision_fits db x =
    not (exists (λ v. v.id == x.id) db.revisions)
    && has_workspace db x.scope_id x.workspace_id
    && has_revision db x.scope_id x.workspace_id x.parent_id

unfoldable pub session_fits : Db → Session → Bool
unfolding exists
session_fits db x =
    not (exists (λ s. s.id == x.id || s.thread_id == x.thread_id) db.sessions)
    && has_workspace db x.scope_id x.workspace_id

unfoldable pub session_request_fits : Db → SessionRequest → Bool
unfolding exists
session_request_fits db x =
    not (
      exists (λ r. r.scope_id == x.scope_id && (r.idempotency_key == x.idempotency_key))
        db.session_requests)
    && has_session db x.scope_id x.session_id

unfoldable pub run_fits : Db → Run → Bool
unfolding exists
run_fits db x =
    not (exists (λ r. r.id == x.id) db.runs)
    && not (
        exists
          (λ r.
            r.scope_id == x.scope_id
            && (r.session_id == x.session_id)
            && nat_eq r.run_seq x.run_seq)
          db.runs)
    && not (exists (request_at x.scope_id x.session_id x.idempotency_key) db.runs)
    && has_session db x.scope_id x.session_id
    && has_workspace db x.scope_id x.workspace_id

unfoldable pub attempt_fits : Db → Attempt → Bool
unfolding exists
attempt_fits db x =
    not (exists (λ a. a.id == x.id) db.attempts)
    && not (
        exists
          (λ a.
            a.scope_id == x.scope_id && (a.session_id == x.session_id) && nat_eq a.epoch x.epoch)
          db.attempts)
    && not (
        exists
          (λ a.
            a.scope_id == x.scope_id
            && (a.workspace_id == x.workspace_id)
            && nat_eq a.workspace_epoch x.workspace_epoch)
          db.attempts)
    && exists
        (λ r. r.scope_id == x.scope_id && (r.session_id == x.session_id) && (r.id == x.run_id))
        db.runs
    && has_workspace db x.scope_id x.workspace_id

unfoldable pub tool_fits : Db → ToolExecution → Bool
unfolding exists
tool_fits db x =
    not (exists (λ t. t.id == x.id) db.tools)
    && not (
        exists
          (λ t.
            t.scope_id == x.scope_id
            && (t.run_id == x.run_id)
            && (t.logical_call_key == x.logical_call_key))
          db.tools)
    && has_run db x.scope_id x.run_id
    && has_workspace db x.scope_id x.workspace_id
    && has_revision db x.scope_id x.workspace_id x.input_revision_id

unfoldable pub event_fits : Db → RunEvent → Bool
unfolding exists
event_fits db x =
    not (exists (λ e. e.event_id == x.event_id) db.events)
    && not (
        exists (λ e. e.scope_id == x.scope_id && (e.run_id == x.run_id) && nat_eq e.seq x.seq)
          db.events)
    && not (
        exists
          (λ e.
            e.scope_id == x.scope_id
            && (e.session_id == x.session_id)
            && nat_eq e.session_seq x.session_seq)
          db.events)
    && exists
        (λ r. r.scope_id == x.scope_id && (r.session_id == x.session_id) && (r.id == x.run_id))
        db.runs

-- INSERT INTO, refused where the row does not fit
unfoldable pub insert_workspace : Workspace → Tx (Unit {0})
insert_workspace x = do
  fits ← select (λ db. workspace_fits db x)
  check fits integrity_error
  update (λ db. record db { workspaces = db.workspaces ++ x ∷ [] })

unfoldable pub insert_revision : Revision → Tx (Unit {0})
insert_revision x = do
  fits ← select (λ db. revision_fits db x)
  check fits integrity_error
  update (λ db. record db { revisions = db.revisions ++ x ∷ [] })

unfoldable pub insert_session : Session → Tx (Unit {0})
insert_session x = do
  fits ← select (λ db. session_fits db x)
  check fits integrity_error
  update (λ db. record db { sessions = db.sessions ++ x ∷ [] })

unfoldable pub insert_session_request : SessionRequest → Tx (Unit {0})
insert_session_request x = do
  fits ← select (λ db. session_request_fits db x)
  check fits integrity_error
  update (λ db. record db { session_requests = db.session_requests ++ x ∷ [] })

unfoldable pub insert_run : Run → Tx (Unit {0})
insert_run x = do
  fits ← select (λ db. run_fits db x)
  check fits integrity_error
  update (λ db. record db { runs = db.runs ++ x ∷ [] })

unfoldable pub insert_attempt : Attempt → Tx (Unit {0})
insert_attempt x = do
  fits ← select (λ db. attempt_fits db x)
  check fits integrity_error
  update (λ db. record db { attempts = db.attempts ++ x ∷ [] })

unfoldable pub insert_tool : ToolExecution → Tx (Unit {0})
insert_tool x = do
  fits ← select (λ db. tool_fits db x)
  check fits integrity_error
  update (λ db. record db { tools = db.tools ++ x ∷ [] })

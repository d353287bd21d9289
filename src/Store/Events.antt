-- ===== src/Store/Events.antt =====
-- src/code_forge/persistence/sqlite_store.py: the event log of runs and sessions.
pub mod Rule
use Prim.Native.String.{◌++◌ as ◌<>◌}
use code_forge.Prelude.{
  ℕ, ◌+◌, String, Option, none, some, List, [], ◌∷◌, ◌++◌, ◌==◌, nonempty, if◌then◌else◌,
}
use code_forge.Prelude.Tables.{find, update_where}
use code_forge.Json.{Json, obj, str, num, Fields, end, field}
use code_forge.Contracts.{EventType, event_value, AuditFields}
use code_forge.Contracts.Result.{run_not_found, integrity_error}
use code_forge.Store.Schema.{Db, Workspace, Session, Run, RunEvent}
use code_forge.Store.Monad.{
  Tx, World, Env, pure, select, or_raise, check, update, transaction, now, uuid4, ◌>>=◌, ◌>>◌,
}
use code_forge.Store.Content.{ContentRef, append_record}
use code_forge.Store.Keys.{run_at, session_at, workspace_at, event_fits}

-- `date_updated` and `updated_by` of an UPDATE
abbrev pub touch : AuditFields → String → String → AuditFields
touch a time actor = record a { date_updated = time; updated_by = actor }

abbrev pub fresh_audit : String → String → AuditFields
fresh_audit time actor = record {
  date_created = time;
  created_by = actor;
  date_updated = time;
  updated_by = actor;
}

abbrev workspace_path : Db → Option Session → Option Workspace
workspace_path db none = none
workspace_path db (some s) = find (workspace_at s.scope_id s.workspace_id) db.workspaces

abbrev path_or : String → Option Workspace → String
path_or legacy none = legacy
path_or legacy (some w) = if nonempty w.user_path then w.user_path else legacy

-- `_base_for_session`: the directory of a session's content files
unfoldable pub base_for_session : Env → String → Tx String
unfolding find
base_for_session env session_id =
    select
      λ db. path_or env.legacy_root (workspace_path db (find (λ s. s.id == session_id) db.sessions))

-- What `_insert_event_locked` returns.
pub record EventView : Type 0 where
  pub event_id : String
  pub run_id : String
  pub session_id : String
  pub seq : ℕ
  pub session_seq : ℕ
  pub schema_version : String
  pub event_type : EventType
  pub occurred_at : String
  pub data_fields : Fields

-- The record that goes to the session's log file.
unfoldable pub event_record : Run → Session → String → EventType → Fields → String → String → Json
event_record run session event_id event_type fields actor occurred_at = obj (
    field "schema_version" (str "1") (
      field "record_id" (str event_id) (
        field "session_id" (str run.session_id) (
          field "run_id" (str run.id) (
            field "run_seq" (num run.run_seq) (
              field "session_seq" (num session.next_event_seq) (
                field "kind" (str "event") (
                  field "type" (str (event_value event_type)) (
                    field "occurred_at" (str occurred_at)
                      (field "actor_ref" (str actor) (field "data" (obj fields) end)))))))))))

-- The row of `run_events`.
unfoldable pub event_row :
    String → Run → Session → String → EventType → ContentRef → String → String → String → RunEvent
event_row scope run session event_id event_type content actor occurred_at time = record {
  event_id = event_id;
  scope_id = scope;
  run_id = run.id;
  session_id = run.session_id;
  seq = run.next_event_seq;
  session_seq = session.next_event_seq;
  schema_version = "1";
  event_type = event_type;
  data_ref = content.ref;
  data_offset = content.offset;
  data_bytes = content.bytes;
  data_digest = content.digest;
  occurred_at = occurred_at;
  audit = fresh_audit time actor;
}

-- UPDATE runs SET next_event_seq = seq + 1
unfoldable pub count_run_event : String → String → ℕ → String → String → Db → Db
count_run_event scope run_id seq time actor db = record db {
  runs =
      update_where (run_at scope run_id)
        (λ r. record r { next_event_seq = seq + 1; audit = touch r.audit time actor }) db.runs;
}

-- UPDATE sessions SET next_event_seq = session_seq + 1
unfoldable pub count_session_event : String → String → ℕ → String → String → Db → Db
count_session_event scope session_id seq time actor db = record db {
  sessions =
      update_where (session_at scope session_id)
        (λ s. record s { next_event_seq = seq + 1; audit = touch s.audit time actor }) db.sessions;
}

-- The INSERT and the two UPDATEs, on the rows that were read.
unfoldable pub event_stored : String → Run → Session → RunEvent → String → String → Db → Db
unfolding count_run_event count_session_event update_where
event_stored scope run session row time actor db =
    count_session_event scope run.session_id session.next_event_seq time actor (
      count_run_event scope run.id run.next_event_seq time actor
        (record db { events = db.events ++ row ∷ [] }))

unfoldable pub store_event : String → Run → Session → RunEvent → String → String → Tx (Unit {0})
unfolding event_stored event_fits
store_event scope run session row time actor = do
  fits ← select (λ db. event_fits db row)
  check fits integrity_error
  update (event_stored scope run session row time actor)

module _ (env : Env) where
  -- `_insert_event_locked`: `run.id` is the argument `run_id`, by the WHERE clause
  unfoldable pub insert_event_locked :
      String → String → EventType → Fields → String → String → Tx EventView
  insert_event_locked scope run_id event_type fields actor occurred_at = do
    found ← select (λ db. find (run_at scope run_id) db.runs)
    run ← or_raise found run_not_found
    joined ← select (λ db. find (session_at run.scope_id run.session_id) db.sessions)
    session ← or_raise joined run_not_found
    event_id ← uuid4 env
    time ← now env
    base ← base_for_session env run.session_id
    content ←
        append_record env base ("sessions/" <> run.session_id)
          (event_record run session event_id event_type fields actor occurred_at)
    store_event scope run session
        (event_row scope run session event_id event_type content actor occurred_at time) time actor
    pure (record {
      event_id = event_id;
      run_id = run.id;
      session_id = run.session_id;
      seq = run.next_event_seq;
      session_seq = session.next_event_seq;
      schema_version = "1";
      event_type = event_type;
      occurred_at = occurred_at;
      data_fields = fields;
    })

  -- `append_event`
  unfoldable pub append_event : String → String → EventType → Fields → String → Tx EventView
  append_event scope run_id event_type fields actor = transaction do
    found ← select (λ db. find (run_at scope run_id) db.runs)
    run ← or_raise found run_not_found
    occurred_at ← now env
    insert_event_locked scope run_id event_type fields actor occurred_at

-- ===== src/Store/Growing/Writers.antt =====
-- src/code_forge/persistence/sqlite_store.py: the parts of methods that write, as to content files.
use code_forge.Prelude.{String, Option, none, some}
use code_forge.Json.{Fields}
use code_forge.Contracts.{EventType}
use code_forge.Store.Schema.{
  Workspace, Revision, Session, SessionRequest, Run, Attempt, ToolExecution, RunEvent,
}
use code_forge.Store.Monad.{Env}
use code_forge.Store.Keys.{
  insert_workspace, insert_revision, insert_session, insert_session_request, insert_run,
  insert_attempt, insert_tool,
}
use code_forge.Store.Events.{base_for_session, store_event, insert_event_locked, append_event}
use code_forge.Store.Runs.{decode_run, decode_option, get_run, run_state}
use code_forge.Store.Growing.{Grows, grows_rules}

pub Grows-insert_workspace : (x : Workspace) → Grows (insert_workspace x)
unfolding insert_workspace
Grows-insert_workspace x = search grows_rules

pub Grows-insert_revision : (x : Revision) → Grows (insert_revision x)
unfolding insert_revision
Grows-insert_revision x = search grows_rules

pub Grows-insert_session : (x : Session) → Grows (insert_session x)
unfolding insert_session
Grows-insert_session x = search grows_rules

pub Grows-insert_session_request : (x : SessionRequest) → Grows (insert_session_request x)
unfolding insert_session_request
Grows-insert_session_request x = search grows_rules

pub Grows-insert_run : (x : Run) → Grows (insert_run x)
unfolding insert_run
Grows-insert_run x = search grows_rules

pub Grows-insert_attempt : (x : Attempt) → Grows (insert_attempt x)
unfolding insert_attempt
Grows-insert_attempt x = search grows_rules

pub Grows-insert_tool : (x : ToolExecution) → Grows (insert_tool x)
unfolding insert_tool
Grows-insert_tool x = search grows_rules

Grows-store_event :
    (scope : String) (run : Run) (session : Session) (row : RunEvent) (time actor : String)
    → Grows (store_event scope run session row time actor)
unfolding store_event
Grows-store_event scope run session row time actor = search grows_rules

module _ (env : Env) where
  pub Grows-base : (session_id : String) → Grows (base_for_session env session_id)
  unfolding base_for_session
  Grows-base session_id = search grows_rules

  pub Grows-insert_event_locked :
      (scope run_id : String) (event_type : EventType) (fields : Fields)
      (actor occurred_at : String)
      → Grows (insert_event_locked env scope run_id event_type fields actor occurred_at)
  unfolding insert_event_locked
  Grows-insert_event_locked scope run_id event_type fields actor occurred_at =
      search (grows_rules, Grows-base, Grows-store_event) depth 30

  pub Grows-append_event :
      (scope run_id : String) (event_type : EventType) (fields : Fields) (actor : String)
      → Grows (append_event env scope run_id event_type fields actor)
  unfolding append_event
  Grows-append_event scope run_id event_type fields actor =
      search (grows_rules, Grows-insert_event_locked)

  pub Grows-decode_run : (r : Run) → Grows (decode_run env r)
  unfolding decode_run
  Grows-decode_run r = search (grows_rules, Grows-base) depth 20

  Grows-decode_option : (o : Option Run) → Grows (decode_option env o)
  unfolding decode_option
  Grows-decode_option none = search grows_rules
  Grows-decode_option (some r) = search (grows_rules, Grows-decode_run)

  pub Grows-get_run : (scope run_id : String) → Grows (get_run env scope run_id)
  unfolding get_run
  Grows-get_run scope run_id = search (grows_rules, Grows-decode_option)

  pub Grows-run_state : (scope run_id : String) → Grows (run_state env scope run_id)
  unfolding run_state
  Grows-run_state scope run_id = search (grows_rules, Grows-get_run)

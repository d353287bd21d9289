-- ===== src/Store/Transitions.antt =====
-- src/code_forge/persistence/sqlite_store.py: `transition_run`, `cancel_run`.
pub mod Changes
unfoldable pub use Changes.*
use Prim.Native.String.{count, ◌++◌ as ◌<>◌}
use code_forge.Prelude.{
  ℕ, String, Bool, true, false, not, ◌&&◌, ◌||◌, Option, none, some, ◌==◌, nat_eq, sql_eq, sql_is,
  coalesce, or_text, if◌then◌else◌,
}
use code_forge.Prelude.Tables.{find, exists, update_where}
use code_forge.Json.{Json, null, str, obj, Fields, end, field, merge, or_null}
use code_forge.Contracts.{RunStatus, TaskOutcome, is_terminal, status_value, outcome_value}
use code_forge.Contracts.Result.{domain, run_not_found, state_conflict, integrity_error}
use code_forge.StateMachine.{RunState, Transition, transition, status_eq, is_waiting}
use code_forge.Store.Schema.{Db, Run, PendingResponse, TextRef}
use code_forge.Store.Monad.{
  Tx, Env, pure, fail, lift, select, or_raise, check, update, transaction, now, ◌>>=◌, ◌>>◌,
}
use code_forge.Store.Content.{ObjectRef, write_message, write_object, text_ref}
use code_forge.Store.Keys.{run_at, workspace_at, attempt_at, pending_at}
use code_forge.Store.Events.{touch, base_for_session, insert_event_locked}
use code_forge.Store.Runs.{RunView, state_of, get_run, run_state}

module _ (env : Env) where
  -- the output's message file, where there is an output
  unfoldable pub write_output : Run → Option String → Tx (Option TextRef)
  write_output run none = pure none
  write_output run (some output) = do
    base ← base_for_session env run.session_id
    file ← write_message env base run.session_id run.id "assistant" output run.run_seq
    pure (some (text_ref file (count output)))

  unfoldable pub transition_locked :
      String
      → Run
      → Transition
      → ℕ
      → Option String
      → Option String
      → Option Fields
      → Fields
      → String
      → Tx (Unit {0})
  transition_locked scope run x expected_version reason output error extra actor = do
    time ← now env
    file ← write_output run output
    update (set_state scope expected_version x.after file (dumped env error) time actor)
    insert_event_locked env scope run.id x.event_type
        (transition_data x.after reason file error extra) actor time
    if is_terminal x.after.status then release scope run time actor else pure tt

  -- `transition_run`. `transition` always reports a change, so the early return is dead.
  unfoldable pub transition_run :
      String
      → String
      → ℕ
      → RunStatus
      → Option TaskOutcome
      → Option String
      → Option String
      → Option Fields
      → Fields
      → Option String
      → Tx (Option RunView)
  transition_run scope run_id expected_version target outcome reason output error extra actor_ref =
      do
        transaction do
          found ← select (λ db. find (run_at scope run_id) db.runs)
          run ← or_raise found run_not_found
          x ← lift (transition (state_of run) target expected_version outcome reason)
          transition_locked scope run x expected_version reason output error extra
              (or_text actor_ref "system:runtime/worker")
        get_run env scope run_id

  -- `cancel_run`: a run that is queued is cancelled at once, any other by its worker
  unfoldable pub cancel_queued :
      String → String → Bool → Option RunView → String → Tx (Option RunView)
  cancel_queued scope run_id was_queued none actor = fail (domain run_not_found)
  cancel_queued scope run_id false (some current) actor = pure (some current)
  cancel_queued scope run_id true (some current) actor =
      transition_run scope run_id current.row.state_version RunStatus.cancelled none none none none
        end (some actor)

  unfoldable pub cancel_run : String → String → Option String → Tx (Option RunView)
  cancel_run scope run_id actor_ref = do
    state ← run_state env scope run_id
    if is_terminal state.status || status_eq state.status RunStatus.cancelling
        then get_run env scope run_id
        else do
          current ←
              transition_run scope run_id state.state_version RunStatus.cancelling none none none
                none end (some (or_text actor_ref "system:runtime/api"))
          cancel_queued scope run_id (status_eq state.status RunStatus.queued) current
              (or_text actor_ref "system:runtime/api")

  abbrev pub queued_data : RunState → Fields
  queued_data after = if status_eq after.status RunStatus.queued then status_field after else end

  -- `_transition_run_locked`, within the transaction of `respond_to_run`
  unfoldable pub transition_run_locked :
      String
      → String
      → RunStatus
      → ℕ
      → Option TaskOutcome
      → Option String
      → Option String
      → Option Fields
      → String
      → Tx (Unit {0})
  transition_run_locked scope run_id target expected_version outcome reason output error actor = do
    found ← select (λ db. find (run_at scope run_id) db.runs)
    run ← or_raise found run_not_found
    x ← lift (transition (state_of run) target expected_version outcome reason)
    file ← write_output run output
    time ← now env
    update (set_state scope expected_version x.after file (dumped env error) time actor)
    occurred_at ← now env
    insert_event_locked env scope run.id x.event_type (queued_data x.after) actor occurred_at
    pure tt

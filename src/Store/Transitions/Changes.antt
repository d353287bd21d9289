-- ===== src/Store/Transitions/Changes.antt =====
-- The UPDATEs of a transition, and the data of its event.
use code_forge.Prelude.{
  ℕ, String, ◌&&◌, Option, none, some, ◌==◌, nat_eq, sql_eq, coalesce, or_text, if◌then◌else◌,
}
use code_forge.Prelude.Tables.{update_where}
use code_forge.Json.{Json, null, str, obj, Fields, end, field, merge, or_null}
use code_forge.Contracts.{RunStatus, TaskOutcome, is_terminal, status_value, outcome_value}
use code_forge.StateMachine.{RunState, status_eq, is_waiting}
use code_forge.Store.Schema.{Db, Run, TextRef}
use code_forge.Store.Monad.{Tx, Env, update, ◌>>◌}
use code_forge.Store.Keys.{run_at, workspace_at, attempt_at}
use code_forge.Store.Events.{touch}

abbrev pub nonempty_fields : Option Fields → Option Fields
nonempty_fields none = none
nonempty_fields (some end) = none
nonempty_fields (some (field k v fs)) = some (field k v fs)

-- `json.dumps(error) if error else None`
abbrev pub dumped : Env → Option Fields → Option String
dumped env error = elim (nonempty_fields error) [
  | none ↦ none
  | some fs ↦ some (env.dumps (obj fs))
]

-- UPDATE runs SET status, state_version, task_outcome, wait_reason and the COALESCEd columns
-- WHERE scope_id = ? AND id = ? AND state_version = ?
unfoldable pub set_state :
    String → ℕ → RunState → Option TextRef → Option String → String → String → Db → Db
set_state scope expected_version after output error time actor db = record db {
  runs =
      update_where (λ r. run_at scope after.run_id r && nat_eq r.state_version expected_version)
        (λ r. record r {
          status = after.status;
          state_version = after.state_version;
          task_outcome = after.task_outcome;
          wait_reason = after.wait_reason;
          output = coalesce output r.output;
          error = coalesce error r.error;
          audit = touch r.audit time actor;
        })
        db.runs;
}

abbrev pub outcome_json : Option TaskOutcome → Json
outcome_json none = null
outcome_json (some o) = str (outcome_value o)

abbrev pub error_json : Option Fields → Json
error_json none = null
error_json (some fs) = obj fs

abbrev pub output_json : Option TextRef → Json
output_json none = null
output_json (some t) = str t.ref

abbrev pub status_field : RunState → Fields
status_field after = field "status" (str (status_value after.status)) end

-- The data of the event that records a transition.
unfoldable pub transition_data :
    RunState → Option String → Option TextRef → Option Fields → Fields → Fields
transition_data after reason output error extra =
    if is_terminal after.status
    then field "status" (str (status_value after.status)) (
        field "task_outcome" (outcome_json after.task_outcome)
          (field "output_ref" (output_json output) (field "error" (error_json error) end)))
    else if is_waiting after.status
    then merge
        (field "status" (str (status_value after.status))
          (field "reason" (or_null after.wait_reason) end))
        extra
    else if status_eq after.status RunStatus.queued
    then merge (status_field after) extra
    else if status_eq after.status RunStatus.recovering
    then merge (field "reason" (str (or_text reason "")) end) extra
    else if status_eq after.status RunStatus.cancelling
    then merge (status_field after) extra
    else extra

-- The four UPDATEs that end a run: its attempt, its session, its workspace, and itself.
unfoldable pub end_attempt : String → Option String → String → String → Db → Db
end_attempt scope attempt_id time actor db = record db {
  attempts =
      update_where (attempt_at scope attempt_id)
        (λ a. record a { ended_at = some time; audit = touch a.audit time actor }) db.attempts;
}

unfoldable pub free_session : String → String → String → String → Db → Db
free_session scope run_id time actor db = record db {
  sessions =
      update_where (λ s. s.scope_id == scope && sql_eq s.active_run_id (some run_id))
        (λ s. record s { active_run_id = none; audit = touch s.audit time actor }) db.sessions;
}

unfoldable pub free_workspace : String → String → Option String → String → String → Db → Db
free_workspace scope workspace_id attempt_id time actor db = record db {
  workspaces =
      update_where (λ w. workspace_at scope workspace_id w && sql_eq w.active_attempt_id attempt_id)
        (λ w. record w {
          active_attempt_id = none;
          lease_until = none;
          heartbeat_at = none;
          audit = touch w.audit time actor;
        })
        db.workspaces;
}

unfoldable pub drop_attempt : String → String → String → String → Db → Db
drop_attempt scope run_id time actor db = record db {
  runs =
      update_where (run_at scope run_id)
        (λ r. record r { active_attempt_id = none; audit = touch r.audit time actor }) db.runs;
}

unfoldable pub release : String → Run → String → String → Tx (Unit {0})
release scope run time actor = do
  update (end_attempt scope run.active_attempt_id time actor)
  update (free_session scope run.id time actor)
  update (free_workspace scope run.workspace_id run.active_attempt_id time actor)
  update (drop_attempt scope run.id time actor)

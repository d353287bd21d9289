-- ===== src/Store/Growing/Methods.antt =====
-- src/code_forge/persistence/sqlite_store.py: the methods, as to content files.
use code_forge.Prelude.{ℕ, String, Bool, true, false, Option, none, some}
use code_forge.Json.{Fields}
use code_forge.Contracts.{RunStatus, TaskOutcome, ToolStatus, WorkspaceCommit}
use code_forge.Contracts.Binding.{UserBinding, ExecutionContext}
use code_forge.Contracts.Requests.{RunRequest, RunSnapshot}
use code_forge.StateMachine.{Transition}
use code_forge.Store.Schema.{Run, Workspace, SessionRequest, ToolExecution}
use code_forge.Store.Monad.{Env}
use code_forge.Store.Runs.{RunView}
use code_forge.Store.Transitions.{
  release, write_output, transition_locked, transition_run, cancel_queued, cancel_run,
  transition_run_locked,
}
use code_forge.Store.Responses.{PendingRow, answer_pending, answer_again, respond_to_run}
use code_forge.Store.Tools.{
  ToolCall, prepare_new, prepare_again, prepare_found, prepare_tool, start_tool, append_tool_output,
  finish_tool,
}
use code_forge.Store.Revisions.{record_workspace_revision}
use code_forge.Store.Sessions.{
  project_workspace, workspace_for, session_of_request, create_session, update_session_title,
  get_session, get_session_unscoped,
}
use code_forge.Store.Accept.{
  log_run, store_run, accept_new, accept_again, accept_found, accept_once,
}
use code_forge.Store.Claim.{
  Claimable, Lease, take_lease, lease_found, claim_of, claim_next_run, lease_as, record_start,
  enter_lease,
}
use code_forge.Store.Growing.{Grows, grows_rules}
use code_forge.Store.Growing.Writers.{
  Grows-insert_workspace, Grows-insert_revision, Grows-insert_session, Grows-insert_session_request,
  Grows-insert_run, Grows-insert_attempt, Grows-insert_tool, Grows-base, Grows-insert_event_locked,
  Grows-get_run, Grows-run_state,
}

ruleset writer_rules = (
  grows_rules, Grows-insert_workspace, Grows-insert_revision, Grows-insert_session,
  Grows-insert_session_request, Grows-insert_run, Grows-insert_attempt, Grows-insert_tool,
  Grows-base, Grows-insert_event_locked, Grows-get_run, Grows-run_state,
)

module _ (env : Env) where
  Grows-release :
      (scope : String) (run : Run) (time actor : String) → Grows (release scope run time actor)
  unfolding release
  Grows-release scope run time actor = search writer_rules depth 10

  Grows-write_output : (run : Run) (output : Option String) → Grows (write_output env run output)
  unfolding write_output
  Grows-write_output run none = search writer_rules
  Grows-write_output run (some output) = search writer_rules depth 10

  Grows-transition_locked :
      (scope : String) (run : Run) (x : Transition) (version : ℕ) (reason output : Option String)
      (error : Option Fields) (extra : Fields) (actor : String)
      → Grows (transition_locked env scope run x version reason output error extra actor)
  unfolding transition_locked
  Grows-transition_locked scope run x version reason output error extra actor =
      search (writer_rules, Grows-write_output, Grows-release) depth 20

  pub Grows-transition_run :
      (scope run_id : String) (version : ℕ) (target : RunStatus) (outcome : Option TaskOutcome)
      (reason output : Option String) (error : Option Fields) (extra : Fields)
      (actor_ref : Option String)
      → Grows (
          transition_run env scope run_id version target outcome reason output error extra
            actor_ref)
  unfolding transition_run
  Grows-transition_run scope run_id version target outcome reason output error extra actor_ref =
      search (writer_rules, Grows-transition_locked) depth 20

  Grows-cancel_queued :
      (scope run_id : String) (was_queued : Bool) (current : Option RunView) (actor : String)
      → Grows (cancel_queued env scope run_id was_queued current actor)
  unfolding cancel_queued
  Grows-cancel_queued scope run_id was_queued none actor = search writer_rules
  Grows-cancel_queued scope run_id false (some v) actor = search writer_rules
  Grows-cancel_queued scope run_id true (some v) actor = search (writer_rules, Grows-transition_run)

  pub Grows-cancel_run :
      (scope run_id : String) (actor_ref : Option String)
      → Grows (cancel_run env scope run_id actor_ref)
  unfolding cancel_run
  Grows-cancel_run scope run_id actor_ref =
      search (writer_rules, Grows-transition_run, Grows-cancel_queued) depth 20

  Grows-transition_run_locked :
      (scope run_id : String) (target : RunStatus) (version : ℕ) (outcome : Option TaskOutcome)
      (reason output : Option String) (error : Option Fields) (actor : String)
      → Grows
          (transition_run_locked env scope run_id target version outcome reason output error actor)
  unfolding transition_run_locked
  Grows-transition_run_locked scope run_id target version outcome reason output error actor =
      search (writer_rules, Grows-write_output) depth 30

  Grows-answer_pending :
      (scope run_id pending_id response_key : String) (version : ℕ) (answer actor : String)
      (row : PendingRow)
      → Grows (answer_pending env scope run_id pending_id response_key version answer actor row)
  unfolding answer_pending
  Grows-answer_pending scope run_id pending_id response_key version answer actor row =
      search (writer_rules, Grows-transition_run_locked) depth 30

  Grows-answer_again :
      (response_key answer : String) (row : PendingRow)
      → Grows (answer_again env response_key answer row)
  unfolding answer_again
  Grows-answer_again response_key answer row = search writer_rules

  pub Grows-respond_to_run :
      (scope run_id pending_id response_key : String) (version : ℕ) (answer actor : String)
      → Grows (respond_to_run env scope run_id pending_id response_key version answer actor)
  unfolding respond_to_run
  Grows-respond_to_run scope run_id pending_id response_key version answer actor =
      search (writer_rules, Grows-answer_pending, Grows-answer_again) depth 20

  Grows-prepare_found :
      (scope run_id : String) (call : ToolCall) (time actor : String) (o : Option ToolExecution)
      → Grows (prepare_found env scope run_id call time actor o)
  unfolding prepare_found prepare_again prepare_new
  Grows-prepare_found scope run_id call time actor none = search writer_rules depth 30
  Grows-prepare_found scope run_id call time actor (some t) = search writer_rules

  pub Grows-prepare_tool :
      (scope run_id : String) (call : ToolCall) (actor : String)
      → Grows (prepare_tool env scope run_id call actor)
  unfolding prepare_tool
  Grows-prepare_tool scope run_id call actor = search (writer_rules, Grows-prepare_found)

  pub Grows-start_tool :
      (scope operation_id actor : String) → Grows (start_tool env scope operation_id actor)
  unfolding start_tool
  Grows-start_tool scope operation_id actor = search writer_rules depth 20

  pub Grows-append_tool_output :
      (scope operation_id stream text : String) (truncated : Bool) (actor : String)
      → Grows (append_tool_output env scope operation_id stream text truncated actor)
  unfolding append_tool_output
  Grows-append_tool_output scope operation_id stream text truncated actor =
      search writer_rules depth 20

  pub Grows-finish_tool :
      (scope operation_id : String) (status : ToolStatus) (result_ref : Option String)
      (error : Option Fields) (actor : String) (revision : Option String)
      → Grows (finish_tool env scope operation_id status result_ref error actor revision)
  unfolding finish_tool
  Grows-finish_tool scope operation_id status result_ref error actor revision =
      search writer_rules depth 30

  pub Grows-record_workspace_revision :
      (scope workspace_id attempt_id : String) (epoch : ℕ) (c : WorkspaceCommit) (actor : String)
      → Grows (record_workspace_revision env scope workspace_id attempt_id epoch c actor)
  unfolding record_workspace_revision
  Grows-record_workspace_revision scope workspace_id attempt_id epoch c actor =
      search writer_rules depth 30

  Grows-project_workspace :
      (scope : String) (b : UserBinding) (time actor : String) (o : Option Workspace)
      → Grows (project_workspace env scope b time actor o)
  unfolding project_workspace
  Grows-project_workspace scope b time actor none = search writer_rules
  Grows-project_workspace scope b time actor (some w) = search writer_rules depth 10

  Grows-workspace_for :
      (scope : String) (o : Option UserBinding) (time actor : String)
      → Grows (workspace_for env scope o time actor)
  unfolding workspace_for
  Grows-workspace_for scope none time actor = search writer_rules
  Grows-workspace_for scope (some b) time actor = search (writer_rules, Grows-project_workspace)

  Grows-session_of_request :
      (scope key title : String) (external_ref : Option String) (context : ExecutionContext)
      (time : String) (o : Option SessionRequest)
      → Grows (session_of_request env scope key title external_ref context time o)
  unfolding session_of_request
  Grows-session_of_request scope key title external_ref context time none =
      search (writer_rules, Grows-workspace_for) depth 20
  Grows-session_of_request scope key title external_ref context time (some r) = search writer_rules

  pub Grows-create_session :
      (scope key title : String) (external_ref : Option String) (context : ExecutionContext)
      → Grows (create_session env scope key title external_ref context)
  unfolding create_session get_session
  Grows-create_session scope key title external_ref context =
      search (writer_rules, Grows-session_of_request) depth 10

  pub Grows-update_session_title :
      (session_id title actor : String) → Grows (update_session_title env session_id title actor)
  unfolding update_session_title get_session_unscoped
  Grows-update_session_title session_id title actor = search writer_rules depth 10

  Grows-accept_found :
      (request : RunRequest) (key fingerprint : String) (snapshot : RunSnapshot) (only : Bool)
      (time : String) (o : Option Run)
      → Grows (accept_found env request key fingerprint snapshot only time o)
  unfolding accept_found accept_new accept_again store_run log_run
  Grows-accept_found request key fingerprint snapshot only time none = search writer_rules depth 40
  Grows-accept_found request key fingerprint snapshot only time (some r) = search writer_rules

  pub Grows-accept_once :
      (request : RunRequest) (key fingerprint : String) (snapshot : RunSnapshot) (only : Bool)
      → Grows (accept_once env request key fingerprint snapshot only)
  unfolding accept_once
  Grows-accept_once request key fingerprint snapshot only =
      search (writer_rules, Grows-accept_found) depth 10

  Grows-claim_of : (l : Option Lease) → Grows (claim_of env l)
  unfolding claim_of
  Grows-claim_of none = search writer_rules
  Grows-claim_of (some l) = search writer_rules

  Grows-lease_found :
      (worker_id time lease_until actor : String) (o : Option Claimable)
      → Grows (lease_found env worker_id time lease_until actor o)
  unfolding lease_found take_lease lease_as enter_lease record_start
  Grows-lease_found worker_id time lease_until actor none = search writer_rules
  Grows-lease_found worker_id time lease_until actor (some c) = search writer_rules depth 40

  pub Grows-claim_next_run :
      (only : Option String) (worker_id now_iso lease_until : String)
      → Grows (claim_next_run env only worker_id now_iso lease_until)
  unfolding claim_next_run
  Grows-claim_next_run only worker_id now_iso lease_until =
      search (writer_rules, Grows-lease_found, Grows-claim_of) depth 10

-- ===== src/Store/Methods/Tools.antt =====
-- Tool executions and workspace revisions.
use code_forge.Prelude.{ℕ, String, Bool, Option, none, some}
use code_forge.Json.{Fields}
use code_forge.Contracts.{ToolStatus, WorkspaceCommit}
use code_forge.Store.Schema.{Db, ToolExecution, Revision}
use code_forge.Store.Monad.{Env}
use code_forge.Store.Keys.{insert_tool, insert_revision}
use code_forge.Store.Tools.{
  ToolCall, prepare_new, prepare_again, prepare_found, prepare_tool, start_tool, append_tool_output,
  finish_tool,
}
use code_forge.Store.Revisions.{record_workspace_revision}
use code_forge.Store.Preserves.{Closed, Preserves, Preserves-update, preserves_rules}
use code_forge.Store.Events.Rule.{Stores, Preserves-insert_event_locked}
use code_forge.Store.Respects.{Respects}

module _ {R : Db → Db → Type 0} (L : Respects R) (env : Env) where
  instance closed : Closed R
  closed = L.closed

  instance stored : Stores R
  stored = L.events

  Preserves-insert_tool : (x : ToolExecution) → Preserves R (insert_tool x)
  unfolding insert_tool
  Preserves-insert_tool x = search (preserves_rules, Preserves-update, L.rest.insert_tool)

  Preserves-insert_revision : (x : Revision) → Preserves R (insert_revision x)
  unfolding insert_revision
  Preserves-insert_revision x = search (preserves_rules, Preserves-update, L.rest.insert_revision)

  Preserves-prepare_found :
      (scope run_id : String) (call : ToolCall) (time actor : String) (o : Option ToolExecution)
      → Preserves R (prepare_found env scope run_id call time actor o)
  unfolding prepare_found prepare_again prepare_new
  Preserves-prepare_found scope run_id call time actor none =
      search (preserves_rules, Preserves-insert_tool, Preserves-insert_event_locked) depth 20
  Preserves-prepare_found scope run_id call time actor (some t) = search preserves_rules

  pub Preserves-prepare_tool :
      (scope run_id : String) (call : ToolCall) (actor : String)
      → Preserves R (prepare_tool env scope run_id call actor)
  unfolding prepare_tool
  Preserves-prepare_tool scope run_id call actor = search (preserves_rules, Preserves-prepare_found)

  pub Preserves-start_tool :
      (scope operation_id actor : String) → Preserves R (start_tool env scope operation_id actor)
  unfolding start_tool
  Preserves-start_tool scope operation_id actor =
      search (preserves_rules, Preserves-update, L.rest.set_tool, Preserves-insert_event_locked)
        depth 20

  pub Preserves-append_tool_output :
      (scope operation_id stream text : String) (truncated : Bool) (actor : String)
      → Preserves R (append_tool_output env scope operation_id stream text truncated actor)
  unfolding append_tool_output
  Preserves-append_tool_output scope operation_id stream text truncated actor =
      search (preserves_rules, Preserves-insert_event_locked) depth 20

  pub Preserves-finish_tool :
      (scope operation_id : String) (status : ToolStatus) (result_ref : Option String)
      (error : Option Fields) (actor : String) (revision : Option String)
      → Preserves R (finish_tool env scope operation_id status result_ref error actor revision)
  unfolding finish_tool
  Preserves-finish_tool scope operation_id status result_ref error actor revision =
      search (preserves_rules, Preserves-update, L.rest.set_tool, Preserves-insert_event_locked)
        depth 20

  pub Preserves-record_workspace_revision :
      (scope workspace_id attempt_id : String) (epoch : ℕ) (commit : WorkspaceCommit)
      (actor : String)
      → Preserves R (record_workspace_revision env scope workspace_id attempt_id epoch commit actor)
  unfolding record_workspace_revision
  Preserves-record_workspace_revision scope workspace_id attempt_id epoch commit actor =
      search
        (preserves_rules, Preserves-update, L.workspaces.set_revision, Preserves-insert_revision)
        depth 20

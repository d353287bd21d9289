-- ===== src/Store/Tools.antt =====
-- src/code_forge/persistence/sqlite_store.py: tool executions.
use Prim.Native.String.{len}
use code_forge.Prelude.{
  String, Bool, ◌&&◌, Option, none, some, ◌==◌, nonempty, or_text, if◌then◌else◌,
}
use code_forge.Prelude.Tables.{find, update_where}
use code_forge.Json.{Json, null, bool, str, obj, Fields, end, field, get_field}
use code_forge.Contracts.{ToolStatus, tool_status_value, EventType}
use code_forge.Contracts.Result.{
  domain, run_not_found, state_conflict, idempotency_conflict, integrity_error,
}
use code_forge.Store.Schema.{Db, ToolExecution}
use code_forge.Store.Monad.{
  Tx, Env, pure, select, or_raise, check, update, transaction, now, uuid4, ◌>>=◌, ◌>>◌,
}
use code_forge.Store.Keys.{run_at, workspace_at, tool_at, has_revision, insert_tool}
use code_forge.Store.Events.{touch, fresh_audit, insert_event_locked}
use code_forge.Store.Transitions.{dumped}

-- WHERE scope_id = ? AND run_id = ? AND logical_call_key = ?
abbrev pub call_at : String → String → String → ToolExecution → Bool
call_at scope run_id key t =
    t.scope_id == scope && (t.run_id == run_id) && (t.logical_call_key == key)

abbrev tool_eq : ToolStatus → ToolStatus → Bool
tool_eq s t = tool_status_value s == tool_status_value t

-- The arguments of `prepare_tool` that go to the row as they are.
pub record ToolCall : Type 0 where
  pub logical_call_key : String
  pub tool_ref : String
  pub params_digest : String
  pub input_ref : String
  pub execution_profile_ref : String
  pub input_summary : String
  pub workspace_id : Option String
  pub input_revision_id : Option String
  pub input_text : String

abbrev or_revision : Option String → Option String → Option String
or_revision none r = r
or_revision (some a) r = if nonempty a then some a else r

-- The row that `prepare_tool` inserts.
unfoldable pub tool_row :
    Env
    → String
    → String
    → ToolCall
    → Option String
    → String
    → String
    → String
    → String
    → ToolExecution
tool_row env scope run_id call current_revision workspace_id operation_id time actor = record {
  id = operation_id;
  scope_id = scope;
  run_id = run_id;
  workspace_id = workspace_id;
  logical_call_key = call.logical_call_key;
  tool_ref = call.tool_ref;
  params_digest = call.params_digest;
  input_ref = call.input_ref;
  input_digest = if nonempty call.input_text then some (env.sha256 call.input_text) else none;
  input_bytes = if nonempty call.input_text then some (len call.input_text) else none;
  status = ToolStatus.prepared;
  execution_profile_ref = call.execution_profile_ref;
  external_operation_ref = none;
  process_ref = none;
  result_ref = none;
  input_revision_id = or_revision call.input_revision_id current_revision;
  result_revision_id = none;
  error = none;
  audit = fresh_audit time actor;
}

-- UPDATE tool_executions SET status
unfoldable pub set_tool : String → String → (ToolExecution → ToolExecution) → Db → Db
set_tool scope operation_id f db = record db {
  tools = update_where (tool_at scope operation_id) f db.tools;
}

-- The data of the event that records an end: the reason where the outcome is not known.
unfoldable pub finish_data : String → ToolStatus → Option Fields → Fields
finish_data operation_id status error =
    if tool_eq status ToolStatus.unknown
    then field "operation_id" (str operation_id) (field "reason" (reason_of error) end)
    else field "operation_id" (str operation_id)
        (field "status" (str (tool_status_value status)) (field "error" (error_of error) end))
  where
    or_unknown : Option Json → Json
    or_unknown none = str "unknown"
    or_unknown (some j) = j

    reason_of : Option Fields → Json
    reason_of none = str "unknown"
    reason_of (some fs) = or_unknown (get_field "message" fs)

    error_of : Option Fields → Json
    error_of none = null
    error_of (some fs) = obj fs

module _ (env : Env) where
  -- A new tool execution; the SELECT joins the run's workspace.
  unfoldable pub prepare_new :
      String → String → ToolCall → String → String → Tx (String × ToolStatus)
  prepare_new scope run_id call time actor = do
    found ← select (λ db. find (run_at scope run_id) db.runs)
    run ← or_raise found run_not_found
    joined ← select (λ db. find (workspace_at run.scope_id run.workspace_id) db.workspaces)
    workspace ← or_raise joined run_not_found
    check (or_text call.workspace_id run.workspace_id == run.workspace_id) (domain state_conflict)
    operation_id ← uuid4 env
    insert_tool (
        tool_row env scope run_id call workspace.current_revision
          (or_text call.workspace_id run.workspace_id) operation_id time actor)
    insert_event_locked env scope run_id EventType.tool_prepared
        (field "operation_id" (str operation_id) (
          field "tool_ref" (str call.tool_ref) (
            field "input_summary" (str call.input_summary)
              (field "input" (str call.input_text) end))))
        actor time
    pure (operation_id, ToolStatus.prepared)

  unfoldable pub prepare_again : ToolCall → ToolExecution → Tx (String × ToolStatus)
  prepare_again call t = do
    check (t.params_digest == call.params_digest) (domain idempotency_conflict)
    pure (t.id, t.status)

  unfoldable pub prepare_found :
      String → String → ToolCall → String → String → Option ToolExecution → Tx (String × ToolStatus)
  prepare_found scope run_id call time actor none = prepare_new scope run_id call time actor
  prepare_found scope run_id call time actor (some t) = prepare_again call t

  -- `prepare_tool`
  unfoldable pub prepare_tool : String → String → ToolCall → String → Tx (String × ToolStatus)
  prepare_tool scope run_id call actor = do
    time ← now env
    transaction do
      existing ← select (λ db. find (call_at scope run_id call.logical_call_key) db.tools)
      prepare_found scope run_id call time actor existing

  -- `start_tool`
  unfoldable pub start_tool : String → String → String → Tx (Unit {0})
  start_tool scope operation_id actor = do
    time ← now env
    transaction do
      found ← select (λ db. find (tool_at scope operation_id) db.tools)
      tool ← or_raise found run_not_found
      update (
          set_tool scope operation_id
            (λ t. record t { status = ToolStatus.running; audit = touch t.audit time actor }))
      insert_event_locked env scope tool.run_id EventType.tool_started
          (field "operation_id" (str operation_id) (field "tool_ref" (str tool.tool_ref) end)) actor
          time
      pure tt

  -- `append_tool_output`
  unfoldable pub append_tool_output :
      String → String → String → String → Bool → String → Tx (Unit {0})
  append_tool_output scope operation_id stream text truncated actor = transaction do
    found ← select (λ db. find (tool_at scope operation_id) db.tools)
    tool ← or_raise found run_not_found
    occurred_at ← now env
    insert_event_locked env scope tool.run_id EventType.tool_output
        (field "operation_id" (str operation_id) (
          field "stream" (str stream)
            (field "text" (str text) (field "truncated" (bool truncated) end))))
        actor occurred_at
    pure tt

  -- `finish_tool`
  unfoldable pub finish_tool :
      String
      → String
      → ToolStatus
      → Option String
      → Option Fields
      → String
      → Option String
      → Tx (Unit {0})
  finish_tool scope operation_id status result_ref error actor result_revision_id = do
    time ← now env
    transaction do
      found ← select (λ db. find (tool_at scope operation_id) db.tools)
      tool ← or_raise found run_not_found
      fits ← select (λ db. has_revision db tool.scope_id tool.workspace_id result_revision_id)
      check fits integrity_error
      update (
          set_tool scope operation_id (λ t. record t {
            status = status;
            result_ref = result_ref;
            result_revision_id = result_revision_id;
            error = dumped env error;
            audit = touch t.audit time actor;
          }))
      insert_event_locked env scope tool.run_id
          (if tool_eq status ToolStatus.unknown
            then EventType.tool_unknown
            else EventType.tool_finished)
          (finish_data operation_id status error) actor time
      pure tt

-- ===== src/Store/Schema.antt =====
-- src/code_forge/persistence/sqlite_store.py, `_schema_v4` with the column changes of `_schema_v5`:
-- one record for each table, `Option` for a column that may be NULL. Statuses, outcomes and event
-- types are stored by their enumerations.
use code_forge.Prelude.{ℕ, String, Option, List, []}
use code_forge.Contracts.{RunStatus, TaskOutcome, ToolStatus, EventType, AuditFields}

pub record Workspace : Type 0 where
  pub id : String
  pub scope_id : String
  pub storage_ref : String
  pub storage_root : String
  pub tenant_ref : String
  pub user_ref : String
  pub user_path : String
  pub user_rel_path : String
  pub project_ref : String
  pub project_path : String
  pub current_revision : Option String
  pub active_attempt_id : Option String
  pub workspace_epoch : ℕ
  pub lease_until : Option String
  pub heartbeat_at : Option String
  pub audit : AuditFields

pub record Revision : Type 0 where
  pub id : String
  pub scope_id : String
  pub workspace_id : String
  pub parent_id : Option String
  pub manifest_digest : String
  pub manifest_ref : String
  pub storage_ref : String
  pub audit : AuditFields

pub record Session : Type 0 where
  pub id : String
  pub scope_id : String
  pub workspace_id : String
  pub title : String
  pub external_ref : Option String
  pub thread_id : String
  pub next_run_seq : ℕ
  pub next_event_seq : ℕ
  pub execution_epoch : ℕ
  pub active_run_id : Option String
  pub audit : AuditFields

pub record SessionRequest : Type 0 where
  pub scope_id : String
  pub idempotency_key : String
  pub request_fingerprint : String
  pub session_id : String
  pub audit : AuditFields

-- A text kept in a content file: input_ref, input_digest, input_chars, and the like.
pub record TextRef : Type 0 where
  pub ref : String
  pub digest : String
  pub size : ℕ

pub record Run : Type 0 where
  pub id : String
  pub scope_id : String
  pub session_id : String
  pub workspace_id : String
  pub run_seq : ℕ
  pub idempotency_key : String
  pub request_fingerprint : String
  pub input : TextRef
  pub agent_ref : String
  pub execution_context : String
  pub config_snapshot : TextRef
  pub status : RunStatus
  pub active_attempt_id : Option String
  pub state_version : ℕ
  pub task_outcome : Option TaskOutcome
  pub wait_reason : Option String
  pub output : Option TextRef
  pub error : Option String
  pub cancel_requested_at : Option String
  pub deadline_at : Option String
  pub due_at : String
  pub next_event_seq : ℕ
  pub audit : AuditFields

pub record Attempt : Type 0 where
  pub id : String
  pub scope_id : String
  pub session_id : String
  pub run_id : String
  pub workspace_id : String
  pub epoch : ℕ
  pub workspace_epoch : ℕ
  pub worker_id : String
  pub lease_until : String
  pub heartbeat_at : String
  pub workspace_base_revision : Option String
  pub mount_spec_ref : String
  pub working_directory_ref : String
  pub checkpoint_ref : Option String
  pub ended_at : Option String
  pub audit : AuditFields

pub record ToolExecution : Type 0 where
  pub id : String
  pub scope_id : String
  pub run_id : String
  pub workspace_id : String
  pub logical_call_key : String
  pub tool_ref : String
  pub params_digest : String
  pub input_ref : String
  pub input_digest : Option String
  pub input_bytes : Option ℕ
  pub status : ToolStatus
  pub execution_profile_ref : String
  pub external_operation_ref : Option String
  pub process_ref : Option String
  pub result_ref : Option String
  pub input_revision_id : Option String
  pub result_revision_id : Option String
  pub error : Option String
  pub audit : AuditFields

pub record PendingResponse : Type 0 where
  pub id : String
  pub scope_id : String
  pub run_id : String
  pub kind : String
  pub payload : TextRef
  pub response_key : Option String
  pub response_digest : Option String
  pub response_payload : Option TextRef
  pub resolved_at : Option String
  pub audit : AuditFields

pub record RunEvent : Type 0 where
  pub event_id : String
  pub scope_id : String
  pub run_id : String
  pub session_id : String
  pub seq : ℕ
  pub session_seq : ℕ
  pub schema_version : String
  pub event_type : EventType
  pub data_ref : String
  pub data_offset : ℕ
  pub data_bytes : ℕ
  pub data_digest : String
  pub occurred_at : String
  pub audit : AuditFields

-- Rows in the order of insertion. No code reads or writes `artifacts`.
pub record Db : Type 0 where
  pub workspaces : List Workspace
  pub revisions : List Revision
  pub sessions : List Session
  pub session_requests : List SessionRequest
  pub runs : List Run
  pub attempts : List Attempt
  pub tools : List ToolExecution
  pub pendings : List PendingResponse
  pub events : List RunEvent

abbrev pub empty_db : Db
empty_db = record {
  workspaces = [];
  revisions = [];
  sessions = [];
  session_requests = [];
  runs = [];
  attempts = [];
  tools = [];
  pendings = [];
  events = [];
}

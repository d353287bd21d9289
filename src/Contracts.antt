-- ===== src/Contracts.antt =====
-- src/code_forge/contracts.py: the closed vocabularies, errors and audit columns.
pub mod Result
pub mod Binding
pub mod Requests
use code_forge.Prelude.{
  ℕ, List, String, Bool, true, false, Option, none, some, if◌then◌else◌, ◌==◌, ◌||◌,
}

pub data RunStatus : Type 0 where
  queued running waiting_user waiting_external recovering cancelling : RunStatus
  succeeded failed cancelled timed_out : RunStatus

-- TERMINAL_STATUSES
abbrev pub is_terminal : RunStatus → Bool
is_terminal RunStatus.succeeded = true
is_terminal RunStatus.failed = true
is_terminal RunStatus.cancelled = true
is_terminal RunStatus.timed_out = true
is_terminal _ = false

-- The text that a StrEnum member is.
abbrev pub status_value : RunStatus → String
status_value RunStatus.queued = "QUEUED"
status_value RunStatus.running = "RUNNING"
status_value RunStatus.waiting_user = "WAITING_USER"
status_value RunStatus.waiting_external = "WAITING_EXTERNAL"
status_value RunStatus.recovering = "RECOVERING"
status_value RunStatus.cancelling = "CANCELLING"
status_value RunStatus.succeeded = "SUCCEEDED"
status_value RunStatus.failed = "FAILED"
status_value RunStatus.cancelled = "CANCELLED"
status_value RunStatus.timed_out = "TIMED_OUT"

pub data TaskOutcome : Type 0 where
  completed partial blocked : TaskOutcome

abbrev pub outcome_value : TaskOutcome → String
outcome_value TaskOutcome.completed = "completed"
outcome_value TaskOutcome.partial = "partial"
outcome_value TaskOutcome.blocked = "blocked"

pub data ToolStatus : Type 0 where
  prepared running succeeded failed cancelled unknown : ToolStatus

abbrev pub tool_status_value : ToolStatus → String
tool_status_value ToolStatus.prepared = "PREPARED"
tool_status_value ToolStatus.running = "RUNNING"
tool_status_value ToolStatus.succeeded = "SUCCEEDED"
tool_status_value ToolStatus.failed = "FAILED"
tool_status_value ToolStatus.cancelled = "CANCELLED"
tool_status_value ToolStatus.unknown = "UNKNOWN"

pub data EventType : Type 0 where
  run_accepted run_started run_waiting run_resumed run_recovering : EventType
  run_cancel_requested run_finished : EventType
  message_delta message_completed : EventType
  tool_prepared tool_started tool_output tool_finished tool_unknown : EventType
  skill_activated skill_started skill_finished workspace_committed : EventType

abbrev pub event_value : EventType → String
event_value EventType.run_accepted = "run.accepted"
event_value EventType.run_started = "run.started"
event_value EventType.run_waiting = "run.waiting"
event_value EventType.run_resumed = "run.resumed"
event_value EventType.run_recovering = "run.recovering"
event_value EventType.run_cancel_requested = "run.cancel_requested"
event_value EventType.run_finished = "run.finished"
event_value EventType.message_delta = "message.delta"
event_value EventType.message_completed = "message.completed"
event_value EventType.tool_prepared = "tool.prepared"
event_value EventType.tool_started = "tool.started"
event_value EventType.tool_output = "tool.output"
event_value EventType.tool_finished = "tool.finished"
event_value EventType.tool_unknown = "tool.unknown"
event_value EventType.skill_activated = "skill.activated"
event_value EventType.skill_started = "skill.started"
event_value EventType.skill_finished = "skill.finished"
event_value EventType.workspace_committed = "workspace.committed"

-- A timestamp is the ISO text that the source stores and compares.
pub record AuditFields : Type 0 where
  pub date_created : String
  pub created_by : String
  pub date_updated : String
  pub updated_by : String

pub record AcceptedRun : Type 0 where
  pub id : String
  pub session_id : String
  pub status : RunStatus
  pub state_version : ℕ
  pub reused : Bool

pub record ExistingRequest : Type 0 where
  pub fingerprint : String
  pub run : AcceptedRun

pub record WorkspaceCommit : Type 0 where
  pub revision_id : String
  pub manifest_digest : String
  pub manifest_ref : String
  pub storage_ref : String
  pub changed_paths : List String

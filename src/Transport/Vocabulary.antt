-- ===== src/Transport/Vocabulary.antt =====
-- src/code_forge/transport/server.py: the public vocabularies, with src/code_forge/contracts.py, and
-- what each internal code, status and event is shown as.
use code_forge.Prelude.{ℕ, String, ◌==◌, if◌then◌else◌}
use code_forge.Contracts.{EventType}
use code_forge.Contracts.Result.{ErrorCode, Failure, domain, value_error, type_error}

pub data BusinessCode : Type 0 where
  success invalid_request session_not_found message_not_found state_conflict : BusinessCode
  message_busy skill_invalid execution_failed execution_unknown : BusinessCode
  model_unavailable dependency_unavailable internal_error : BusinessCode

abbrev pub business_value : BusinessCode → String
business_value BusinessCode.success = "0000"
business_value BusinessCode.invalid_request = "1001"
business_value BusinessCode.session_not_found = "1002"
business_value BusinessCode.message_not_found = "1003"
business_value BusinessCode.state_conflict = "1004"
business_value BusinessCode.message_busy = "1005"
business_value BusinessCode.skill_invalid = "2001"
business_value BusinessCode.execution_failed = "3001"
business_value BusinessCode.execution_unknown = "3002"
business_value BusinessCode.model_unavailable = "4001"
business_value BusinessCode.dependency_unavailable = "5001"
business_value BusinessCode.internal_error = "9001"

pub data MessageStatus : Type 0 where
  queued running waiting_user waiting_external recovering cancelling : MessageStatus
  succeeded failed cancelled timed_out : MessageStatus

abbrev pub message_value : MessageStatus → String
message_value MessageStatus.queued = "QUEUED"
message_value MessageStatus.running = "RUNNING"
message_value MessageStatus.waiting_user = "WAITING_USER"
message_value MessageStatus.waiting_external = "WAITING_EXTERNAL"
message_value MessageStatus.recovering = "RECOVERING"
message_value MessageStatus.cancelling = "CANCELLING"
message_value MessageStatus.succeeded = "SUCCEEDED"
message_value MessageStatus.failed = "FAILED"
message_value MessageStatus.cancelled = "CANCELLED"
message_value MessageStatus.timed_out = "TIMED_OUT"

pub data PlatformEventType : Type 0 where
  message_accepted message_started message_waiting message_resumed : PlatformEventType
  message_recovering message_cancel_requested message_finished : PlatformEventType
  message_delta message_completed : PlatformEventType
  tool_prepared tool_started tool_output tool_finished tool_unknown : PlatformEventType
  skill_activated skill_started skill_finished workspace_committed : PlatformEventType

abbrev pub platform_value : PlatformEventType → String
platform_value PlatformEventType.message_accepted = "message.accepted"
platform_value PlatformEventType.message_started = "message.started"
platform_value PlatformEventType.message_waiting = "message.waiting"
platform_value PlatformEventType.message_resumed = "message.resumed"
platform_value PlatformEventType.message_recovering = "message.recovering"
platform_value PlatformEventType.message_cancel_requested = "message.cancel_requested"
platform_value PlatformEventType.message_finished = "message.finished"
platform_value PlatformEventType.message_delta = "message.delta"
platform_value PlatformEventType.message_completed = "message.completed"
platform_value PlatformEventType.tool_prepared = "tool.prepared"
platform_value PlatformEventType.tool_started = "tool.started"
platform_value PlatformEventType.tool_output = "tool.output"
platform_value PlatformEventType.tool_finished = "tool.finished"
platform_value PlatformEventType.tool_unknown = "tool.unknown"
platform_value PlatformEventType.skill_activated = "skill.activated"
platform_value PlatformEventType.skill_started = "skill.started"
platform_value PlatformEventType.skill_finished = "skill.finished"
platform_value PlatformEventType.workspace_committed = "workspace.committed"

-- EVENT_TYPE_MAP, which has every event type
unfoldable pub platform_event : EventType → PlatformEventType
platform_event EventType.run_accepted = PlatformEventType.message_accepted
platform_event EventType.run_started = PlatformEventType.message_started
platform_event EventType.run_waiting = PlatformEventType.message_waiting
platform_event EventType.run_resumed = PlatformEventType.message_resumed
platform_event EventType.run_recovering = PlatformEventType.message_recovering
platform_event EventType.run_cancel_requested = PlatformEventType.message_cancel_requested
platform_event EventType.run_finished = PlatformEventType.message_finished
platform_event EventType.message_delta = PlatformEventType.message_delta
platform_event EventType.message_completed = PlatformEventType.message_completed
platform_event EventType.tool_prepared = PlatformEventType.tool_prepared
platform_event EventType.tool_started = PlatformEventType.tool_started
platform_event EventType.tool_output = PlatformEventType.tool_output
platform_event EventType.tool_finished = PlatformEventType.tool_finished
platform_event EventType.tool_unknown = PlatformEventType.tool_unknown
platform_event EventType.skill_activated = PlatformEventType.skill_activated
platform_event EventType.skill_started = PlatformEventType.skill_started
platform_event EventType.skill_finished = PlatformEventType.skill_finished
platform_event EventType.workspace_committed = PlatformEventType.workspace_committed

-- `_message_status`
unfoldable pub message_status : String → MessageStatus
message_status s =
    if s == "QUEUED"
    then MessageStatus.queued
    else if s == "RUNNING"
    then MessageStatus.running
    else if s == "WAITING_USER"
    then MessageStatus.waiting_user
    else if s == "WAITING_EXTERNAL"
    then MessageStatus.waiting_external
    else if s == "RECOVERING"
    then MessageStatus.recovering
    else if s == "CANCELLING"
    then MessageStatus.cancelling
    else if s == "SUCCEEDED"
    then MessageStatus.succeeded
    else if s == "FAILED"
    then MessageStatus.failed
    else if s == "CANCELLED"
    then MessageStatus.cancelled
    else if s == "TIMED_OUT"
    then MessageStatus.timed_out
    else MessageStatus.failed

-- The code and the HTTP status of an error; its message is not modelled.
pub record Refusal : Type 0 where
  pub code : BusinessCode
  pub status : ℕ

abbrev refusal : BusinessCode → ℕ → Refusal
refusal code status = record { code = code; status = status }

-- `_domain_error`
unfoldable pub domain_refusal : ErrorCode → Refusal
domain_refusal ErrorCode.invalid_request = refusal BusinessCode.invalid_request 400
domain_refusal ErrorCode.session_not_found = refusal BusinessCode.session_not_found 404
domain_refusal ErrorCode.run_not_found = refusal BusinessCode.message_not_found 404
domain_refusal ErrorCode.idempotency_conflict = refusal BusinessCode.state_conflict 409
domain_refusal ErrorCode.state_conflict = refusal BusinessCode.state_conflict 409
domain_refusal ErrorCode.invalid_transition = refusal BusinessCode.state_conflict 409
domain_refusal ErrorCode.message_busy = refusal BusinessCode.message_busy 409
domain_refusal ErrorCode.skill_not_found = refusal BusinessCode.skill_invalid 422
domain_refusal ErrorCode.skill_incompatible = refusal BusinessCode.skill_invalid 422
domain_refusal ErrorCode.model_not_configured = refusal BusinessCode.model_unavailable 503
domain_refusal ErrorCode.execution_failed = refusal BusinessCode.execution_failed 503
domain_refusal ErrorCode.execution_unknown = refusal BusinessCode.execution_unknown 503
domain_refusal ErrorCode.dependency_unavailable = refusal BusinessCode.dependency_unavailable 503
domain_refusal _ = refusal BusinessCode.internal_error 500

-- The `except` clauses of `do_GET` and `do_POST`.
unfoldable pub refusal_of : Failure → Refusal
unfolding domain_refusal
refusal_of (domain c) = domain_refusal c
refusal_of type_error = refusal BusinessCode.invalid_request 400
refusal_of value_error = refusal BusinessCode.invalid_request 400
refusal_of _ = refusal BusinessCode.internal_error 500

-- The public code of an internal one, in `_public_error`.
unfoldable pub public_code : String → BusinessCode
public_code s =
    if s == "INVALID_REQUEST"
    then BusinessCode.invalid_request
    else if s == "SKILL_INCOMPATIBLE"
    then BusinessCode.skill_invalid
    else if s == "SKILL_NOT_FOUND"
    then BusinessCode.skill_invalid
    else if s == "MODEL_NOT_CONFIGURED"
    then BusinessCode.model_unavailable
    else if s == "EXECUTION_FAILED"
    then BusinessCode.execution_failed
    else if s == "EXECUTION_UNKNOWN"
    then BusinessCode.execution_unknown
    else if s == "DEPENDENCY_UNAVAILABLE"
    then BusinessCode.dependency_unavailable
    else BusinessCode.execution_failed

-- ===== src/StateMachine.antt =====
-- src/code_forge/state_machine.py: the pure transitions of a run.
pub mod Diagram
pub mod Guards
pub mod Runs
use code_forge.Prelude.{
  ℕ, ◌+◌, String, Bool, true, false, not, ◌&&◌, ◌||◌, Option, none, some, List, [], ◌∷◌, nat_eq,
  nonempty, is_none, is_some, if◌then◌else◌, ◌==◌,
}
use code_forge.Contracts.{RunStatus, TaskOutcome, EventType, is_terminal}
use code_forge.Contracts.Result.{
  Result, ok, err, domain, state_conflict, invalid_transition, invalid_request, guard, ◌>>=◌, ◌>>◌,
}

-- ALLOWED_TRANSITIONS
abbrev pub allowed_transitions : RunStatus → List RunStatus
allowed_transitions RunStatus.queued =
    RunStatus.running ∷ RunStatus.cancelling ∷ RunStatus.failed ∷ RunStatus.timed_out ∷ []
allowed_transitions RunStatus.running =
    RunStatus.waiting_user ∷ RunStatus.waiting_external ∷ RunStatus.recovering
    ∷ RunStatus.cancelling ∷ RunStatus.succeeded ∷ RunStatus.failed ∷ RunStatus.timed_out ∷ []
allowed_transitions RunStatus.waiting_user =
    RunStatus.queued ∷ RunStatus.cancelling ∷ RunStatus.failed ∷ RunStatus.timed_out ∷ []
allowed_transitions RunStatus.waiting_external =
    RunStatus.queued ∷ RunStatus.cancelling ∷ RunStatus.failed ∷ RunStatus.timed_out ∷ []
allowed_transitions RunStatus.recovering =
    RunStatus.queued ∷ RunStatus.waiting_user ∷ RunStatus.cancelling ∷ RunStatus.failed
    ∷ RunStatus.timed_out ∷ []
allowed_transitions RunStatus.cancelling = RunStatus.cancelled ∷ []
allowed_transitions _ = []

-- Members of the enumeration are equal when they are the same member.
abbrev pub status_eq : RunStatus → RunStatus → Bool
status_eq RunStatus.queued RunStatus.queued = true
status_eq RunStatus.running RunStatus.running = true
status_eq RunStatus.waiting_user RunStatus.waiting_user = true
status_eq RunStatus.waiting_external RunStatus.waiting_external = true
status_eq RunStatus.recovering RunStatus.recovering = true
status_eq RunStatus.cancelling RunStatus.cancelling = true
status_eq RunStatus.succeeded RunStatus.succeeded = true
status_eq RunStatus.failed RunStatus.failed = true
status_eq RunStatus.cancelled RunStatus.cancelled = true
status_eq RunStatus.timed_out RunStatus.timed_out = true
status_eq _ _ = false

-- `target in ...`
abbrev pub status_in : RunStatus → List RunStatus → Bool
status_in s [] = false
status_in s (t ∷ ts) = status_eq s t || status_in s ts

abbrev pub is_waiting : RunStatus → Bool
is_waiting RunStatus.waiting_user = true
is_waiting RunStatus.waiting_external = true
is_waiting _ = false

pub record RunState : Type 0 where
  pub run_id : String
  pub status : RunStatus
  pub state_version : ℕ
  pub task_outcome : Option TaskOutcome
  pub wait_reason : Option String

pub record Transition : Type 0 where
  pub before : RunState
  pub after : RunState
  pub event_type : EventType
  pub changed : Bool

-- The event that a transition to `target` is recorded as.
abbrev pub event_of : RunStatus → EventType
event_of RunStatus.queued = EventType.run_resumed
event_of RunStatus.running = EventType.run_started
event_of RunStatus.waiting_user = EventType.run_waiting
event_of RunStatus.waiting_external = EventType.run_waiting
event_of RunStatus.recovering = EventType.run_recovering
event_of RunStatus.cancelling = EventType.run_cancel_requested
event_of _ = EventType.run_finished

-- Python's `not reason` on `str | None`.
abbrev pub has_text : Option String → Bool
has_text none = false
has_text (some s) = nonempty s

unfoldable pub after_transition :
    RunState → RunStatus → Option TaskOutcome → Option String → RunState
after_transition s target outcome reason = record s {
  status = target;
  state_version = s.state_version + 1;
  task_outcome = outcome;
  wait_reason = if is_waiting target then reason else none;
}

-- The guards in the source's order: version, edge, outcome with success, reason with waiting.
unfoldable pub transition :
    RunState → RunStatus → ℕ → Option TaskOutcome → Option String → Result Transition
transition s target expected_version outcome reason = do
  guard (nat_eq s.state_version expected_version) state_conflict
  guard (status_in target (allowed_transitions s.status)) invalid_transition
  guard (not (status_eq target RunStatus.succeeded && is_none outcome)) invalid_request
  guard (not (not (status_eq target RunStatus.succeeded) && is_some outcome)) invalid_request
  guard (not (is_waiting target && not (has_text reason))) invalid_request
  ok (record {
    before = s;
    after = after_transition s target outcome reason;
    event_type = event_of target;
    changed = true;
  })

unfoldable pub request_cancel : RunState → ℕ → Result Transition
request_cancel s expected_version =
    if not (nat_eq s.state_version expected_version)
    then err (domain state_conflict)
    else if is_terminal s.status || status_eq s.status RunStatus.cancelling
    then ok (record {
      before = s;
      after = s;
      event_type = EventType.run_cancel_requested;
      changed = false;
    })
    else transition s RunStatus.cancelling expected_version none none

-- ===== src/Examples/Machine.antt =====
-- The transitions of one run.
use code_forge.Prelude.{arith, ◌≡◌, refl, true, false, none, some, [], ◌∷◌}
use code_forge.Contracts.{RunStatus, TaskOutcome, EventType}
use code_forge.Contracts.Result.{ok, err, domain, state_conflict}
use code_forge.StateMachine.{Transition, transition, after_transition, request_cancel}
use code_forge.StateMachine.Diagram.{succeed, Leaves}
use code_forge.StateMachine.Guards.{Permitted, transition-Permitted, Permitted-transition}
use code_forge.StateMachine.Runs.{
  Walk, Request, attempt, run_all, IsConsistent, run_all-IsConsistent, run_all-Walk,
  transition_once, request_cancel_idem,
}
use code_forge.Examples.{state}

abbrev succeeded : Transition
succeeded = record {
  before = state;
  after = record state {
    status = RunStatus.succeeded;
    state_version = 2;
    task_outcome = some TaskOutcome.completed;
  };
  event_type = EventType.run_finished;
  changed = true;
}

accepted : transition state RunStatus.succeeded 1 (some TaskOutcome.completed) none ≡ ok succeeded
unfolding transition after_transition
accepted = refl

transition-Permitted_example :
    Permitted state RunStatus.succeeded 1 (some TaskOutcome.completed) none
transition-Permitted_example =
    transition-Permitted state RunStatus.succeeded 1 (some TaskOutcome.completed) none succeeded
      accepted

permitted : Permitted state RunStatus.succeeded 1 (some TaskOutcome.completed) none
permitted = record {
  current = refl;
  edge = succeed;
  outcome_with_success = refl;
  reason_with_waiting = λ h. absurd (ground arith);
}

Permitted-transition_example :
    (x : Transition) × (transition state RunStatus.succeeded 1 (some TaskOutcome.completed) none
      ≡ ok x)
    × (x.before ≡ state)
    × (x.changed ≡ true)
    × (x.after.run_id ≡ state.run_id)
    × (x.after.status ≡ RunStatus.succeeded)
    × (x.after.state_version ≡ 2)
    × (x.after.task_outcome ≡ some TaskOutcome.completed)
    × Leaves none RunStatus.succeeded x.event_type x.after.wait_reason
Permitted-transition_example =
    Permitted-transition state RunStatus.succeeded 1 (some TaskOutcome.completed) none permitted

-- The run waits, is asked to go on by a stale request, and then fails.
abbrev ask : Request
ask = record { target = RunStatus.waiting_user; version = 1; outcome = none; reason = some "why" }

abbrev stale : Request
stale = record { target = RunStatus.queued; version = 1; outcome = none; reason = none }

abbrev end_it : Request
end_it = record { target = RunStatus.failed; version = 2; outcome = none; reason = none }

run_all-Walk_example : Walk state.status (run_all state (ask ∷ stale ∷ end_it ∷ [])).status
run_all-Walk_example = run_all-Walk state (ask ∷ stale ∷ end_it ∷ [])

consistent : IsConsistent state
consistent = record { outcome_with_success = refl; reason_with_waiting = refl }

run_all-IsConsistent_example : IsConsistent (run_all state (ask ∷ stale ∷ end_it ∷ []))
run_all-IsConsistent_example = run_all-IsConsistent state (ask ∷ stale ∷ end_it ∷ []) consistent

abbrev asked : Transition
asked = record {
  before = state;
  after = record state {
    status = RunStatus.waiting_user;
    state_version = 2;
    wait_reason = some "why";
  };
  event_type = EventType.run_waiting;
  changed = true;
}

ask_accepted : attempt state ask ≡ ok asked
unfolding transition after_transition
ask_accepted = refl

transition_once_example : attempt asked.after stale ≡ err (domain state_conflict)
transition_once_example = transition_once state ask stale asked ask_accepted refl

abbrev cancelling : Transition
cancelling = record {
  before = state;
  after = record state { status = RunStatus.cancelling; state_version = 2 };
  event_type = EventType.run_cancel_requested;
  changed = true;
}

cancel_accepted : request_cancel state 1 ≡ ok cancelling
unfolding request_cancel transition after_transition
cancel_accepted = refl

request_cancel_idem_example :
    request_cancel cancelling.after cancelling.after.state_version
    ≡ ok (record {
      before = cancelling.after;
      after = cancelling.after;
      event_type = EventType.run_cancel_requested;
      changed = false;
    })
request_cancel_idem_example = request_cancel_idem state 1 cancelling cancel_accepted

-- ===== src/StateMachine/Guards.antt =====
-- `transition` accepts exactly the permitted requests, and what it then returns.
use code_forge.Prelude.{
  ℕ, suc, refl, String, ◌≡◌, ◌≢◌, ◌||◌, true, false, Option, none, arith, is_some, nat_eq_refl,
  Bool-cases, inl, inr,
}
use code_forge.Contracts.{RunStatus, TaskOutcome, EventType, is_terminal}
use code_forge.Contracts.Result.{ok, err, domain, state_conflict}
use code_forge.StateMachine.{
  RunState, Transition, transition, after_transition, event_of, is_waiting, has_text,
  request_cancel, status_eq,
}
use code_forge.StateMachine.Diagram.{Edge, Edge-allowed, allowed-Edge, Leaves, event_of-Leaves}

-- What a request for a transition has to satisfy.
pub record Permitted (s : RunState) (target : RunStatus) (version : ℕ)
    (outcome : Option TaskOutcome) (reason : Option String) : Type 0 where
  pub current : s.state_version ≡ version
  pub edge : Edge s.status target
  pub outcome_with_success : is_some outcome ≡ status_eq target RunStatus.succeeded
  pub reason_with_waiting : is_waiting target ≡ true → has_text reason ≡ true

module _ (s : RunState) (target : RunStatus) (version : ℕ) (outcome : Option TaskOutcome)
    (reason : Option String) where
  -- A request that is accepted has the state's version, asks for an edge of the diagram, has an
  -- outcome exactly where it asks for success, and has a reason where it asks to wait.
  pub transition-Permitted :
      (x : Transition)
      → transition s target version outcome reason ≡ ok x
      → Permitted s target version outcome reason
  unfolding transition
  transition-Permitted x h = record {
    current = ground arith;
    edge = allowed-Edge s.status target (ground arith);
    outcome_with_success = ground arith;
    reason_with_waiting = ground arith;
  }

  accepted_as :
      Permitted s target version outcome reason
      → (transition s target version outcome reason
          ≡ ok (record {
            before = s;
            after = after_transition s target outcome reason;
            event_type = event_of target;
            changed = true;
          }))
  unfolding transition
  accepted_as p = ground (arith, Edge-allowed p.edge)

  -- A request that satisfies these is accepted: it is marked as a change from the state before, the
  -- run is the same one, in the requested status at the next version with the outcome that was
  -- given, and its event and the reason that it keeps are those of the status.
  pub Permitted-transition :
      Permitted s target version outcome reason
      → (x : Transition) × (transition s target version outcome reason ≡ ok x)
        × (x.before ≡ s)
        × (x.changed ≡ true)
        × (x.after.run_id ≡ s.run_id)
        × (x.after.status ≡ target)
        × (x.after.state_version ≡ suc s.state_version)
        × (x.after.task_outcome ≡ outcome)
        × Leaves reason target x.event_type x.after.wait_reason
  unfolding after_transition
  Permitted-transition p =
      (_, accepted_as p, refl, refl, refl, refl, omega arith, refl, event_of-Leaves reason target)

  -- What an accepted request returns.
  pub transition-ok :
      (x : Transition)
      → transition s target version outcome reason ≡ ok x
      → x ≡ record {
        before = s;
        after = after_transition s target outcome reason;
        event_type = event_of target;
        changed = true;
      }
  transition-ok x h = cc (h, accepted_as (transition-Permitted x h))

  pub transition_stale :
      s.state_version ≢ version
      → transition s target version outcome reason ≡ err (domain state_conflict)
  unfolding transition
  transition_stale h = ground arith

-- What a cancellation leaves is on its way to an end, or there.
pub request_cancel_settles :
    (s : RunState) (v : ℕ) (x : Transition)
    → request_cancel s v ≡ ok x
    → (is_terminal x.after.status || status_eq x.after.status RunStatus.cancelling) ≡ true
unfolding request_cancel after_transition
request_cancel_settles s v x h =
    elim (Bool-cases (is_terminal s.status || status_eq s.status RunStatus.cancelling)) [
      | inl e ↦ ground arith
      | inr e ↦ ground (arith, transition-ok s RunStatus.cancelling v none none x)
    ]

pub request_cancel_settled :
    (s : RunState)
    → (is_terminal s.status || status_eq s.status RunStatus.cancelling) ≡ true
    → request_cancel s s.state_version
      ≡ ok (record {
        before = s;
        after = s;
        event_type = EventType.run_cancel_requested;
        changed = false;
      })
unfolding request_cancel
request_cancel_settled s h = ground (arith, nat_eq_refl s.state_version)

-- ===== src/StateMachine/Runs.antt =====
-- What holds of a run over any sequence of requests for transitions, accepted or refused.
use code_forge.Prelude.{
  ℕ, String, ◌≡◌, ap, refl, ◌⊎◌, inl, inr, true, false, Option, List, [], ◌∷◌, arith, is_some,
}
use code_forge.Contracts.{RunStatus, TaskOutcome, EventType, is_terminal}
use code_forge.Contracts.Result.{Result, ok, err, domain, state_conflict}
use code_forge.StateMachine.{
  RunState, Transition, transition, after_transition, is_waiting, has_text, request_cancel,
  status_eq,
}
use code_forge.StateMachine.Diagram.{Edge, Edge-allowed, confirm_cancel, fail}
use code_forge.StateMachine.Diagram.{queued, running, waiting_user, waiting_external, recovering}
use code_forge.StateMachine.Guards.{
  transition-Permitted, transition-ok, transition_stale, request_cancel_settled,
  request_cancel_settles,
}

pub data Walk : RunStatus → RunStatus → Type 0 where
  here : {s : RunStatus} → Walk s s
  next : {s t u : RunStatus} → Edge s t → Walk t u → Walk s u

pub append-Walk : {s t u : RunStatus} → Walk s t → Walk t u → Walk s u
append-Walk here q = q
append-Walk (next e p) q = next e (append-Walk p q)

pub one_step : {s t : RunStatus} → Edge s t → Walk s t
one_step e = next e here

pub terminal_final : {s t : RunStatus} → is_terminal s ≡ true → Edge s t → ⊥
terminal_final h e = ground (arith, Edge-allowed e)

-- From every status some terminal status can be reached.
pub can_finish : (s : RunStatus) → (t : RunStatus) × Walk s t × (is_terminal t ≡ true)
can_finish RunStatus.queued = (RunStatus.failed, one_step (fail queued), refl)
can_finish RunStatus.running = (RunStatus.failed, one_step (fail running), refl)
can_finish RunStatus.waiting_user = (RunStatus.failed, one_step (fail waiting_user), refl)
can_finish RunStatus.waiting_external = (RunStatus.failed, one_step (fail waiting_external), refl)
can_finish RunStatus.recovering = (RunStatus.failed, one_step (fail recovering), refl)
can_finish RunStatus.cancelling = (RunStatus.cancelled, one_step confirm_cancel, refl)
can_finish RunStatus.succeeded = (RunStatus.succeeded, here, refl)
can_finish RunStatus.failed = (RunStatus.failed, here, refl)
can_finish RunStatus.cancelled = (RunStatus.cancelled, here, refl)
can_finish RunStatus.timed_out = (RunStatus.timed_out, here, refl)

-- A run becomes CANCELLED only by way of CANCELLING.
pub cancelled_via_cancelling :
    {s t : RunStatus}
    → Walk s t
    → t ≡ RunStatus.cancelled
    → (s ≡ RunStatus.cancelled) ⊎ Walk s RunStatus.cancelling
cancelled_via_cancelling here e = inl e
cancelled_via_cancelling (next confirm_cancel p) e = inr here
cancelled_via_cancelling (next d p) e = elim (cancelled_via_cancelling p e) [
  | inl c ↦ cc
  | inr q ↦ inr (next d q)
]

pub record Request : Type 0 where
  pub target : RunStatus
  pub version : ℕ
  pub outcome : Option TaskOutcome
  pub reason : Option String

-- A refused request raises and leaves the state.
abbrev pub or_same : RunState → Result Transition → RunState
or_same s (ok x) = x.after
or_same s (err e) = s

abbrev pub attempt : RunState → Request → Result Transition
attempt s r = transition s r.target r.version r.outcome r.reason

unfoldable pub run_all : RunState → List Request → RunState
run_all s [] = s
run_all s (r ∷ rs) = run_all (or_same s (attempt s r)) rs

-- The outcome stands with success, and a reason with waiting.
pub record IsConsistent (s : RunState) : Type 0 where
  pub outcome_with_success : is_some s.task_outcome ≡ status_eq s.status RunStatus.succeeded
  pub reason_with_waiting : has_text s.wait_reason ≡ is_waiting s.status

attempt-IsConsistent :
    (s : RunState) (r : Request) → IsConsistent s → IsConsistent (or_same s (attempt s r))
unfolding transition after_transition
attempt-IsConsistent s r c = record {
  outcome_with_success = ground (arith, c.outcome_with_success);
  reason_with_waiting = ground (arith, c.reason_with_waiting);
}

or_same-Walk :
    (s : RunState) (r : Request) (x : Result Transition)
    → attempt s r ≡ x
    → Walk s.status (or_same s x).status
unfolding after_transition
or_same-Walk s r (ok x) e =
    rw (ap (λ y. y.after.status) (transition-ok s r.target r.version r.outcome r.reason x e))
      (one_step (transition-Permitted s r.target r.version r.outcome r.reason x e).edge)
or_same-Walk s r (err f) e = here

-- Over any sequence of requests, refused ones included, the status moves along the diagram.
pub run_all-Walk : (s : RunState) (rs : List Request) → Walk s.status (run_all s rs).status
unfolding run_all
run_all-Walk s [] = here
run_all-Walk s (r ∷ rs) =
    append-Walk (or_same-Walk s r (attempt s r) refl) (run_all-Walk (or_same s (attempt s r)) rs)

-- Where a state has an outcome exactly with success and a reason exactly with waiting, it has them
-- so after any sequence of requests.
pub run_all-IsConsistent :
    (s : RunState) (rs : List Request) → IsConsistent s → IsConsistent (run_all s rs)
unfolding run_all
run_all-IsConsistent s [] c = c
run_all-IsConsistent s (r ∷ rs) c =
    run_all-IsConsistent (or_same s (attempt s r)) rs (attempt-IsConsistent s r c)

-- Nothing moves a run out of a terminal status.
attempt_terminal :
    (s : RunState) (r : Request) → is_terminal s.status ≡ true → or_same s (attempt s r) ≡ s
unfolding transition
attempt_terminal s r h = ground arith

pub run_all_terminal :
    (s : RunState) (rs : List Request) → is_terminal s.status ≡ true → run_all s rs ≡ s
unfolding run_all
run_all_terminal s [] h = refl
run_all_terminal s (r ∷ rs) h = rw (attempt_terminal s r h) (run_all_terminal s rs h)

-- Where a request is accepted, a second one that expects the same version conflicts on what is left.
pub transition_once :
    (s : RunState) (a b : Request) (x : Transition)
    → attempt s a ≡ ok x
    → b.version ≡ a.version
    → attempt x.after b ≡ err (domain state_conflict)
unfolding after_transition
transition_once s a b x h e = transition_stale x.after b.target b.version b.outcome b.reason (
    omega (
      arith,
      ap (λ y. y.after.state_version) (transition-ok s a.target a.version a.outcome a.reason x h),
      (transition-Permitted s a.target a.version a.outcome a.reason x h).current,
    ))

-- Where a cancellation was accepted, cancelling what it left, at its version, is accepted and
-- changes nothing.
pub request_cancel_idem :
    (s : RunState) (v : ℕ) (x : Transition)
    → request_cancel s v ≡ ok x
    → request_cancel x.after x.after.state_version
      ≡ ok (record {
        before = x.after;
        after = x.after;
        event_type = EventType.run_cancel_requested;
        changed = false;
      })
request_cancel_idem s v x h = request_cancel_settled x.after (request_cancel_settles s v x h)

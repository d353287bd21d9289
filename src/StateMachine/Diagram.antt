-- ===== src/StateMachine/Diagram.antt =====
-- The diagram of src/code_forge/state_machine.py as a relation, independent of the table of sets.
use code_forge.Prelude.{String, Option, none, if◌then◌else◌, ◌≡◌, refl, true}
use code_forge.Contracts.{RunStatus, EventType}
use code_forge.StateMachine.{allowed_transitions, status_in, event_of, is_waiting}

-- Statuses that still have work to do or wait for it: each may fail, time out or be cancelled.
pub data IsLive : RunStatus → Type 0 where
  queued : IsLive RunStatus.queued
  running : IsLive RunStatus.running
  waiting_user : IsLive RunStatus.waiting_user
  waiting_external : IsLive RunStatus.waiting_external
  recovering : IsLive RunStatus.recovering

pub data Edge : RunStatus → RunStatus → Type 0 where
  start : Edge RunStatus.queued RunStatus.running
  ask : Edge RunStatus.running RunStatus.waiting_user
  await_external : Edge RunStatus.running RunStatus.waiting_external
  recover : Edge RunStatus.running RunStatus.recovering
  succeed : Edge RunStatus.running RunStatus.succeeded
  answered : Edge RunStatus.waiting_user RunStatus.queued
  notified : Edge RunStatus.waiting_external RunStatus.queued
  requeue : Edge RunStatus.recovering RunStatus.queued
  ask_after : Edge RunStatus.recovering RunStatus.waiting_user
  cancel : {s : RunStatus} → IsLive s → Edge s RunStatus.cancelling
  fail : {s : RunStatus} → IsLive s → Edge s RunStatus.failed
  time_out : {s : RunStatus} → IsLive s → Edge s RunStatus.timed_out
  confirm_cancel : Edge RunStatus.cancelling RunStatus.cancelled

-- An edge of the diagram is in the table.
pub Edge-allowed : {s t : RunStatus} → Edge s t → status_in t (allowed_transitions s) ≡ true
Edge-allowed start = refl
Edge-allowed ask = refl
Edge-allowed await_external = refl
Edge-allowed recover = refl
Edge-allowed succeed = refl
Edge-allowed answered = refl
Edge-allowed notified = refl
Edge-allowed requeue = refl
Edge-allowed ask_after = refl
Edge-allowed (cancel queued) = refl
Edge-allowed (cancel running) = refl
Edge-allowed (cancel waiting_user) = refl
Edge-allowed (cancel waiting_external) = refl
Edge-allowed (cancel recovering) = refl
Edge-allowed (fail queued) = refl
Edge-allowed (fail running) = refl
Edge-allowed (fail waiting_user) = refl
Edge-allowed (fail waiting_external) = refl
Edge-allowed (fail recovering) = refl
Edge-allowed (time_out queued) = refl
Edge-allowed (time_out running) = refl
Edge-allowed (time_out waiting_user) = refl
Edge-allowed (time_out waiting_external) = refl
Edge-allowed (time_out recovering) = refl
Edge-allowed confirm_cancel = refl

-- A pair in the table is an edge of the diagram.
pub allowed-Edge : (s t : RunStatus) → status_in t (allowed_transitions s) ≡ true → Edge s t
allowed-Edge RunStatus.queued RunStatus.running h = start
allowed-Edge RunStatus.queued RunStatus.cancelling h = cancel queued
allowed-Edge RunStatus.queued RunStatus.failed h = fail queued
allowed-Edge RunStatus.queued RunStatus.timed_out h = time_out queued
allowed-Edge RunStatus.running RunStatus.waiting_user h = ask
allowed-Edge RunStatus.running RunStatus.waiting_external h = await_external
allowed-Edge RunStatus.running RunStatus.recovering h = recover
allowed-Edge RunStatus.running RunStatus.succeeded h = succeed
allowed-Edge RunStatus.running RunStatus.cancelling h = cancel running
allowed-Edge RunStatus.running RunStatus.failed h = fail running
allowed-Edge RunStatus.running RunStatus.timed_out h = time_out running
allowed-Edge RunStatus.waiting_user RunStatus.queued h = answered
allowed-Edge RunStatus.waiting_user RunStatus.cancelling h = cancel waiting_user
allowed-Edge RunStatus.waiting_user RunStatus.failed h = fail waiting_user
allowed-Edge RunStatus.waiting_user RunStatus.timed_out h = time_out waiting_user
allowed-Edge RunStatus.waiting_external RunStatus.queued h = notified
allowed-Edge RunStatus.waiting_external RunStatus.cancelling h = cancel waiting_external
allowed-Edge RunStatus.waiting_external RunStatus.failed h = fail waiting_external
allowed-Edge RunStatus.waiting_external RunStatus.timed_out h = time_out waiting_external
allowed-Edge RunStatus.recovering RunStatus.queued h = requeue
allowed-Edge RunStatus.recovering RunStatus.waiting_user h = ask_after
allowed-Edge RunStatus.recovering RunStatus.cancelling h = cancel recovering
allowed-Edge RunStatus.recovering RunStatus.failed h = fail recovering
allowed-Edge RunStatus.recovering RunStatus.timed_out h = time_out recovering
allowed-Edge RunStatus.cancelling RunStatus.cancelled h = confirm_cancel
allowed-Edge _ _ h = cc

-- What a move to a status leaves: the event that it is recorded as, and the reason that is kept of
-- the one that was given.
pub data Leaves (given : Option String) : RunStatus → EventType → Option String → Type 0 where
  resumes : Leaves given RunStatus.queued EventType.run_resumed none
  starts : Leaves given RunStatus.running EventType.run_started none
  asks : Leaves given RunStatus.waiting_user EventType.run_waiting given
  awaits : Leaves given RunStatus.waiting_external EventType.run_waiting given
  recovers : Leaves given RunStatus.recovering EventType.run_recovering none
  stops : Leaves given RunStatus.cancelling EventType.run_cancel_requested none
  succeeds : Leaves given RunStatus.succeeded EventType.run_finished none
  fails : Leaves given RunStatus.failed EventType.run_finished none
  ends_cancelled : Leaves given RunStatus.cancelled EventType.run_finished none
  ends_timed_out : Leaves given RunStatus.timed_out EventType.run_finished none

pub event_of-Leaves :
    (given : Option String) (target : RunStatus)
    → Leaves given target (event_of target) (if is_waiting target then given else none)
event_of-Leaves given RunStatus.queued = resumes
event_of-Leaves given RunStatus.running = starts
event_of-Leaves given RunStatus.waiting_user = asks
event_of-Leaves given RunStatus.waiting_external = awaits
event_of-Leaves given RunStatus.recovering = recovers
event_of-Leaves given RunStatus.cancelling = stops
event_of-Leaves given RunStatus.succeeded = succeeds
event_of-Leaves given RunStatus.failed = fails
event_of-Leaves given RunStatus.cancelled = ends_cancelled
event_of-Leaves given RunStatus.timed_out = ends_timed_out

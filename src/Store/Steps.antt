-- ===== src/Store/Steps.antt =====
-- Every statement of the store moves a run along the diagram, or leaves its status.
use code_forge.Prelude.{
  ℕ, ◌+◌, String, ◌≡◌, ◌∙◌, ap, refl, sym, true, Option, some, List, [], ◌∷◌, ◌++◌, arith, eq_iff,
  coalesce,
}
use code_forge.Prelude.Tables.{find, find_sound}
use code_forge.Contracts.{RunStatus, TaskOutcome, AuditFields}
use code_forge.Contracts.Result.{ok}
use code_forge.StateMachine.{Transition, status_eq, transition, after_transition}
use code_forge.StateMachine.Diagram.{Edge, start}
use code_forge.StateMachine.Guards.{transition-Permitted, transition-ok}
use code_forge.StateMachine.Runs.{here, one_step}
use code_forge.Store.Schema.{Db, Run, TextRef}
use code_forge.Store.Keys.{run_at, run_fits}
use code_forge.Store.Events.{event_stored, count_run_event}
use code_forge.Store.Events.Rule.{Stores}
use code_forge.Store.Runs.{state_of}
use code_forge.Store.Transitions.{set_state, drop_attempt}
use code_forge.Store.Claim.{Claimable, first_eligible, start_run, is_due}
use code_forge.Store.Keyed.{IsKeyed, first_eligible-Chosen, find-first_eligible}
use code_forge.Store.Transitions.{end_attempt, free_session, free_workspace}
use code_forge.Store.Responses.{resolve}
use code_forge.Store.Tools.{set_tool}
use code_forge.Store.Sessions.{retitle, move_workspace}
use code_forge.Store.Accept.{count_run}
use code_forge.Store.Claim.{occupy_session, lease_workspace}
use code_forge.Store.Revisions.{set_revision}
use code_forge.Store.Respects.{NewRun, Respects}
use code_forge.Store.History.{
  Evolves, History, History-Closed, History-same, History-update, History-insert,
}

-- A change of a run that leaves its identity, its status and its version.
aside :
    (r s : Run)
    → s.status ≡ r.status
    → s.state_version ≡ r.state_version
    → s.session_id ≡ r.session_id
    → s.run_seq ≡ r.run_seq
    → s.idempotency_key ≡ r.idempotency_key
    → s.request_fingerprint ≡ r.request_fingerprint
    → Evolves r s
aside r s a b c d e f = record {
  path = rw a here;
  version_grows = omega arith;
  same_status_at = λ _. a;
  same_session = c;
  same_seq = d;
  same_key = e;
  same_fingerprint = f;
}

-- A change of a run that takes an edge, and the next version.
ahead :
    (r s : Run)
    → Edge r.status s.status
    → s.state_version ≡ r.state_version + 1
    → s.session_id ≡ r.session_id
    → s.run_seq ≡ r.run_seq
    → s.idempotency_key ≡ r.idempotency_key
    → s.request_fingerprint ≡ r.request_fingerprint
    → Evolves r s
ahead r s a b c d e f = record {
  path = one_step a;
  version_grows = omega arith;
  same_status_at = λ same. absurd (omega arith);
  same_session = c;
  same_seq = d;
  same_key = e;
  same_fingerprint = f;
}

-- The row that two keys find is one row where the keys are equal.
found_same :
    (scope id scope' id' : String) (xs : List Run) (r run : Run)
    → find (run_at scope id) xs ≡ some r
    → find (run_at scope' id') xs ≡ some run
    → run_at scope' id' r ≡ true
    → r ≡ run
found_same scope id scope' id' xs r run h h' e =
    let a : scope ≡ scope' = ground (
      arith,
      eq_iff r.scope_id scope,
      eq_iff r.scope_id scope',
      find_sound (run_at scope id) xs r h,
    ) in
    let b : id ≡ id' =
      ground (arith, eq_iff r.id id, eq_iff r.id id', find_sound (run_at scope id) xs r h) in
    cc (h, h', ap (λ s. find (run_at s id) xs) a, ap (λ i. find (run_at scope' i) xs) b)

counted :
    (d : Db) (scope run_id : String) (seq : ℕ) (time actor : String)
    → History d (count_run_event scope run_id seq time actor d)
unfolding count_run_event
counted d scope run_id seq time actor =
    History-update d _ _ (λ r. refl) (λ r. refl)
      λ k scope' id r h e. aside r _ refl refl refl refl refl refl

instance pub History-Stores : Stores History
unfolding event_stored count_run_event
History-Stores = record {
  event = λ d scope run_id run session row time actor _ _ _ _ _ _ _.
      History-Closed.two _ _ _ (counted d scope run.id run.next_event_seq time actor)
        (History-same _ _ refl);
}

dropped :
    (d : Db) (scope run_id time actor : String) → History d (drop_attempt scope run_id time actor d)
unfolding drop_attempt
dropped d scope run_id time actor =
    History-update d _ _ (λ r. refl) (λ r. refl)
      λ k scope' id r h e. aside r _ refl refl refl refl refl refl

inserted : (d : Db) (x : Run) → NewRun d x → History d (record d { runs = d.runs ++ x ∷ [] })
unfolding run_fits
inserted d x new = History-insert d x (ground (arith, new.fits))

module _ (d : Db) (scope run_id : String) (run : Run) (target : RunStatus) (version : ℕ)
    (outcome : Option TaskOutcome) (reason : Option String) (x : Transition)
    (output : Option TextRef) (error : Option String) (time actor : String)
    (found : find (run_at scope run_id) d.runs ≡ some run)
    (accepted : transition (state_of run) target version outcome reason ≡ ok x) where
  landed : x.after ≡ after_transition (state_of run) target outcome reason
  landed = ap (λ y. y.after) (transition-ok (state_of run) target version outcome reason x accepted)

  moved_run :
      (r : Run)
      → r ≡ run
      → (audit : AuditFields)
      → Evolves r (record r {
        status = x.after.status;
        state_version = x.after.state_version;
        task_outcome = x.after.task_outcome;
        wait_reason = x.after.wait_reason;
        output = coalesce output r.output;
        error = coalesce error r.error;
        audit = audit;
      })
  unfolding after_transition
  moved_run r same audit =
      let edge =
        (transition-Permitted (state_of run) target version outcome reason x accepted).edge in
      let status : x.after.status ≡ target = ap (λ a. a.status) landed in
      let version' : x.after.state_version ≡ run.state_version + 1 =
        ap (λ a. a.state_version) landed in
      ahead r _ (rw (same, status) edge) (version' ∙ ap (λ r. r.state_version + 1) (sym same)) refl
        refl refl refl

  after_id : x.after.run_id ≡ run_id
  unfolding after_transition
  after_id =
      ap (λ a. a.run_id) landed
      ∙ (eq_iff run.id run_id).0 (ground (arith, find_sound (run_at scope run_id) d.runs run found))

  at_key : (r : Run) → run_at scope x.after.run_id r ≡ true → run_at scope run_id r ≡ true
  at_key r h = rw (← after_id) h

  moved : History d (set_state scope version x.after output error time actor d)
  unfolding set_state after_transition
  moved =
      History-update d _ _ (λ r. refl) (λ r. refl)
        λ k scope' id r h e.
          moved_run r
            (found_same scope' id scope run_id d.runs r run h found (at_key r (ground arith))) _

queued_status : (s : RunStatus) → status_eq s RunStatus.queued ≡ true → s ≡ RunStatus.queued
queued_status s h = ground arith

module _ (before d : Db) (time : String) (only : Option String) (c : Claimable)
    (attempt_id now_iso lease_until actor : String)
    (chosen : first_eligible before time only before.runs ≡ some c)
    (same : d.runs ≡ before.runs) where
  due : is_due before time only c.run ≡ true
  due = (first_eligible-Chosen before time only c before.runs chosen).due

  chosen_row :
      IsKeyed d.runs
      → (r : Run) (scope' id : String) → find (run_at scope' id) d.runs ≡ some r
      → run_at c.run.scope_id c.run.id r ≡ true
      → r ≡ c.run
  chosen_row k r scope' id h e =
      found_same scope' id c.run.scope_id c.run.id d.runs r c.run h
        (rw same (find-first_eligible before time only c before.runs (rw (← same) k) chosen)) e

  started : History d (start_run c attempt_id now_iso lease_until actor d)
  unfolding start_run
  started =
      History-update d _ _ (λ r. refl) (λ r. refl)
        λ k scope' id r h e.
          ahead r _
            (rw (chosen_row k r scope' id h (ground arith))
              (rw (queued_status c.run.status (ground (arith, due))) start))
            refl refl refl refl refl

pub History-Respects : Respects History
unfolding end_attempt free_session free_workspace set_tool resolve count_run occupy_session retitle
    move_workspace lease_workspace set_revision
History-Respects = record {
  closed = History-Closed;
  events = History-Stores;
  runs = record { insert = inserted; set_state = moved; drop_attempt = dropped; start = started };
  sessions = record {
    insert = λ d x _. History-same _ _ refl;
    free = λ d scope run_id time actor. History-same _ _ refl;
    count_run = λ d scope session_id view time actor. History-same _ _ refl;
    occupy = λ before d time only c now_iso actor _ _. History-same _ _ refl;
    retitle = λ d session_id title time actor. History-same _ _ refl;
  };
  workspaces = record {
    insert = λ d x _. History-same _ _ refl;
    move = λ d scope workspace_id b time actor. History-same _ _ refl;
    free = λ d scope workspace_id attempt_id time actor. History-same _ _ refl;
    lease = λ d c attempt_id now_iso lease_until actor. History-same _ _ refl;
    set_revision =
        λ d scope workspace_id parent attempt_id epoch revision time actor. History-same _ _ refl;
  };
  rest = record {
    insert_request = λ d x. History-same _ _ refl;
    insert_attempt = λ d x. History-same _ _ refl;
    insert_tool = λ d x. History-same _ _ refl;
    insert_revision = λ d x. History-same _ _ refl;
    end_attempt = λ d scope attempt_id time actor. History-same _ _ refl;
    set_tool = λ d scope operation_id f. History-same _ _ refl;
    resolve = λ d scope run_id pending_id key digest file resolved_at updated_at actor.
        History-same _ _ refl;
  };
}

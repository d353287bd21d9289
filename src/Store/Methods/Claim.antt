-- ===== src/Store/Methods/Claim.antt =====
-- Claiming a run.
use code_forge.Prelude.{
  ◌+◌, String, ◌≡◌, ap, refl, Option, none, some, nat_eq, inl, inr, Bool-cases,
}
use code_forge.Prelude.Tables.{count_where}
use code_forge.Contracts.Binding.{UserBinding}
use code_forge.Contracts.Result.{domain, state_conflict}
use code_forge.Store.Schema.{Db, Attempt}
use code_forge.Store.Monad.{
  Tx, Env, World, ok_if, select, check, lift, uuid4, update, pure, ◌>>=◌, ◌>>◌,
}
use code_forge.Store.Keys.{insert_attempt, attempt_fits}
use code_forge.Store.Claim.{
  Claimable, Lease, take_lease, lease_found, claim_of, claim_next_run, first_eligible,
  claim_binding, is_bound, attempt_row, occupy_session, lease_workspace, start_run, lease_as,
  record_start, enter_lease, is_free_at, is_unchanged,
}
use code_forge.Store.Preserves.{
  Closed, Preserves, bind_at, continue_at, Preserves-bind, Preserves-update, Preserves-transaction,
  preserves_rules,
}
use code_forge.Store.Events.Rule.{Stores, Preserves-insert_event_locked}
use code_forge.Store.Methods.Runs.{Preserves-get_run}
use code_forge.Store.Respects.{Respects}

module _ {R : Db → Db → Type 0} (L : Respects R) (env : Env) where
  instance closed : Closed R
  closed = L.closed

  instance stored : Stores R
  stored = L.events

  Preserves-insert_attempt : (x : Attempt) → Preserves R (insert_attempt x)
  unfolding insert_attempt
  Preserves-insert_attempt x = search (preserves_rules, Preserves-update, L.rest.insert_attempt)

  Preserves-claim_of : (l : Option Lease) → Preserves R (claim_of env l)
  unfolding claim_of
  Preserves-claim_of none = search preserves_rules
  Preserves-claim_of (some l) = search (preserves_rules, Preserves-get_run L env)

  then_at :
      {B : Type 0} (w : World) (m : Tx (Unit {0})) (n : Tx B)
      → R w.db (m w).1.db
      → R (m w).1.db (n (m w).1).1.db
      → R w.db ((m >> n) w).1.db
  then_at w m n h k =
      bind_at R w m (λ _. n) h (λ _ _. closed.two w.db (m w).1.db (n (m w).1).1.db h k)

  Preserves-record_start :
      (c : Claimable) (attempt_id : String) (binding : Option UserBinding) (now_iso actor : String)
      → Preserves R (record_start env c attempt_id binding now_iso actor)
  unfolding record_start
  Preserves-record_start c attempt_id binding now_iso actor =
      search (preserves_rules, Preserves-insert_event_locked)

  module _ (before : Db) (time : String) (only : Option String) (c : Claimable)
      (chosen : first_eligible before time only before.runs ≡ some c) where
    enter_lease_at :
        (attempt_id now_iso lease_until actor : String) (w : World)
        → w.db.runs ≡ before.runs
        → w.db.sessions ≡ before.sessions
        → R w.db (enter_lease c attempt_id now_iso lease_until actor w).1.db
    unfolding enter_lease occupy_session lease_workspace select check update
    enter_lease_at attempt_id now_iso lease_until actor w same_runs same_sessions =
        let d2 : Db = occupy_session c now_iso actor w.db in
        let d3 : Db = lease_workspace c attempt_id now_iso lease_until actor d2 in
        let h3 : R w.db d3 =
          closed.two w.db d2 d3
            (L.sessions.occupy before w.db time only c now_iso actor chosen same_sessions)
            (L.workspaces.lease d2 c attempt_id now_iso lease_until actor) in
        continue_at R w.db
          (ok_if (nat_eq (count_where (is_free_at c) d2.workspaces) 1) (domain state_conflict))
          (record w { db = d3 })
          (λ _. select (λ db. count_where (is_unchanged c) db.runs) >>= λ started.
            update (start_run c attempt_id now_iso lease_until actor)
            >> check (nat_eq started 1) (domain state_conflict))
          h3
          (λ _ _. closed.two w.db d3 (start_run c attempt_id now_iso lease_until actor d3) h3 (
            L.runs.start before d3 time only c attempt_id now_iso lease_until actor chosen
              same_runs))

    attempt_at_rest :
        (x : Attempt) (w : World)
        → (w.db.runs ≡ before.runs)
        → ((insert_attempt x w).1.db.runs ≡ before.runs)
    unfolding insert_attempt select check update
    attempt_at_rest x w h = elim (Bool-cases (attempt_fits w.db x)) [
      | inl e ↦ rw e h
      | inr e ↦ rw e h
    ]

    attempt_at_rest_sessions :
        (x : Attempt) (w : World)
        → w.db.sessions ≡ before.sessions
        → (insert_attempt x w).1.db.sessions ≡ before.sessions
    unfolding insert_attempt select check update
    attempt_at_rest_sessions x w h = elim (Bool-cases (attempt_fits w.db x)) [
      | inl e ↦ rw e h
      | inr e ↦ rw e h
    ]

    lease_as_at :
        (attempt_id : String) (binding : Option UserBinding)
        (worker_id now_iso lease_until actor : String) (w : World)
        → w.db.runs ≡ before.runs
        → w.db.sessions ≡ before.sessions
        → R w.db (lease_as env c attempt_id binding worker_id now_iso lease_until actor w).1.db
    unfolding lease_as
    lease_as_at attempt_id binding worker_id now_iso lease_until actor w same_runs same_sessions =
        let x : Attempt =
          attempt_row c attempt_id worker_id now_iso lease_until (is_bound env binding) actor in
        let v : World = (insert_attempt x w).1 in
        then_at w (insert_attempt x)
          (enter_lease c attempt_id now_iso lease_until actor
            >> record_start env c attempt_id binding now_iso actor)
          ((Preserves-insert_attempt x).at w)
          (then_at v (enter_lease c attempt_id now_iso lease_until actor)
            (record_start env c attempt_id binding now_iso actor)
            (enter_lease_at attempt_id now_iso lease_until actor v (attempt_at_rest x w same_runs)
              (attempt_at_rest_sessions x w same_sessions))
            ((Preserves-record_start c attempt_id binding now_iso actor).at _))

    take_lease_at :
        (worker_id now_iso lease_until actor : String) (w : World)
        → w.db ≡ before
        → R w.db (take_lease env c worker_id now_iso lease_until actor w).1.db
    unfolding take_lease uuid4 lift
    take_lease_at worker_id now_iso lease_until actor w e =
        let v : World = record w { calls = w.calls + 1 } in
        bind_at R v (lift (claim_binding env c))
          (λ binding. lease_as env c (env.uuid w.calls) binding worker_id now_iso lease_until actor)
          (closed.same w.db)
          (λ binding _.
            lease_as_at (env.uuid w.calls) binding worker_id now_iso lease_until actor v
              (ap (λ (d : Db). d.runs) e) (ap (λ (d : Db). d.sessions) e))

  lease_found_at :
      (before : Db) (time worker_id lease_until actor : String) (only : Option String)
      (o : Option Claimable) (w : World)
      → first_eligible before time only before.runs ≡ o
      → w.db ≡ before
      → R w.db (lease_found env worker_id time lease_until actor o w).1.db
  unfolding lease_found pure
  lease_found_at before time worker_id lease_until actor only none w h e = closed.same w.db
  lease_found_at before time worker_id lease_until actor only (some c) w h e =
      bind_at R w (take_lease env c worker_id time lease_until actor) (λ lease. pure (some lease))
        (take_lease_at before time only c h worker_id time lease_until actor w e)
        (λ _ _. take_lease_at before time only c h worker_id time lease_until actor w e)

  Preserves-choose_and_lease :
      (only : Option String) (worker_id time lease_until actor : String)
      → Preserves R (
          select (λ db. first_eligible db time only db.runs)
          >>= lease_found env worker_id time lease_until actor)
  unfolding select
  Preserves-choose_and_lease only worker_id time lease_until actor = record {
    at = λ w.
        lease_found_at w.db time worker_id lease_until actor only
          (first_eligible w.db time only w.db.runs) w refl refl;
  }

  pub Preserves-claim_next_run :
      (only : Option String) (worker_id now_iso lease_until : String)
      → Preserves R (claim_next_run env only worker_id now_iso lease_until)
  unfolding claim_next_run
  Preserves-claim_next_run only worker_id now_iso lease_until =
      Preserves-bind _ _
        (Preserves-transaction _ (Preserves-choose_and_lease only worker_id now_iso lease_until _))
        (λ l. Preserves-claim_of l)

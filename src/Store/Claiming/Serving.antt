-- ===== src/Store/Claiming/Serving.antt =====
-- `claim_next_run` does not pass over a run that it could start.
use Prim.Native.String.{◌++◌ as ◌<>◌}
use code_forge.Prelude.{
  String, ◌≡◌, ◌≢◌, ◌∙◌, ap, refl, sym, true, false, Option, none, some, List, [], ◌∷◌, ◌++◌, arith,
  text_le, is_none, Bool-cases, inl, inr,
}
use code_forge.Prelude.Tables.{exists}
use code_forge.Contracts.{RunStatus}
use code_forge.Contracts.Result.{ok, run_not_found}
use code_forge.StateMachine.{status_eq}
use code_forge.Store.Schema.{Db, Run}
use code_forge.Store.Monad.{Tx, World, Env, transaction, select, pure, or_raise, ◌>>=◌}
use code_forge.Store.Sessions.{SessionView, session_view}
use code_forge.Store.Runs.{get_run}
use code_forge.Store.Claim.{
  in_scope, is_prior, is_due, is_idle, Claimable, Lease, eligible, earliest, is_earlier,
  first_eligible, lease_found, take_lease, claim_of, claim_next_run,
}
use code_forge.Store.Ran.{bind-ok, transaction-ok, ok-inj}

-- A row that can be started, by its columns and those of its session and workspace.
pub record Startable (d : Db) (now_iso : String) (scope : Option String) (row : Run) : Type 0 where
  pub others_before : List Run
  pub others_after : List Run
  pub listed : d.runs ≡ others_before ++ row ∷ others_after
  pub queued : row.status ≡ RunStatus.queued
  pub due : text_le row.due_at now_iso ≡ true
  pub in_scope_asked : in_scope scope row ≡ true
  pub no_prior : exists (is_prior row) d.runs ≡ false
  pub view : SessionView
  pub joined : session_view row.scope_id row.session_id d ≡ some view
  pub session_free : view.session.active_run_id ≡ none
  pub workspace_free : view.workspace.active_attempt_id ≡ none

earliest-none : (x y : Option Claimable) → earliest x y ≡ none → (x ≡ none) × (y ≡ none)
earliest-none none y h = (refl, h)
earliest-none (some x) none h = absurd (ground (arith, h))
earliest-none (some x) (some y) h = elim (Bool-cases (is_earlier y.run x.run)) [
  | inl e ↦ absurd (let bad = rw e at h in ground (arith, bad))
  | inr e ↦ absurd (let bad = rw e at h in ground (arith, bad))
]

module _ (d : Db) (now_iso : String) (scope : Option String) where
  none-eligible :
      (row : Run) (before after : List Run)
      → first_eligible d now_iso scope (before ++ row ∷ after) ≡ none
      → eligible d now_iso scope row ≡ none
  unfolding first_eligible
  none-eligible row [] after h = (earliest-none _ _ h).0
  none-eligible row (x ∷ before) after h = none-eligible row before after (earliest-none _ _ h).1

  eligible-Startable :
      (row : Run) (s : Startable d now_iso scope row)
      → eligible d now_iso scope row ≡ some (record { run = row; view = s.view })
  unfolding eligible
  eligible-Startable row s =
      let queued : status_eq row.status RunStatus.queued ≡ true =
        ap (λ t. status_eq t RunStatus.queued) s.queued in
      let due : is_due d now_iso scope row ≡ true =
        ground (arith, queued, s.due, s.no_prior, s.in_scope_asked) in
      let free : is_none s.view.session.active_run_id ≡ true = ap is_none s.session_free in
      let idle : is_idle s.view ≡ true = rw free (ap is_none s.workspace_free) in
      rw (due, s.joined, idle) refl

module _ (env : Env) where
  no_lease : (o : Option Lease) (w : World) → (claim_of env o w).0 ≡ ok none → o ≡ none
  unfolding claim_of pure
  no_lease none w h = refl
  no_lease (some l) w h =
      let k = bind-ok (get_run env l.row.run.scope_id l.row.run.id) _ w none h in
      let read =
        bind-ok (or_raise k.value run_not_found) _ (get_run env l.row.run.scope_id l.row.run.id w).1
          none k.then_ok in
      let bad = ok-inj read.then_ok in absurd (ground (arith, bad))

  none_found :
      (worker_id now_iso lease_until actor : String) (o : Option Claimable) (w : World)
      → (lease_found env worker_id now_iso lease_until actor o w).0 ≡ ok none
      → o ≡ none
  unfolding lease_found pure
  none_found worker_id now_iso lease_until actor none w h = refl
  none_found worker_id now_iso lease_until actor (some c) w h =
      let k =
        bind-ok (take_lease env c worker_id now_iso lease_until actor) (λ lease. pure (some lease))
          w none h in
      let bad = ok-inj k.then_ok in absurd (ground (arith, bad))

  nothing_eligible :
      (scope : Option String) (worker_id now_iso lease_until : String) (w : World)
      → (claim_next_run env scope worker_id now_iso lease_until w).0 ≡ ok none
      → first_eligible w.db now_iso scope w.db.runs ≡ none
  unfolding claim_next_run select
  nothing_eligible scope worker_id now_iso lease_until w h =
      let take : Option Claimable → Tx (Option Lease) =
        lease_found env worker_id now_iso lease_until ("system:runtime/" <> worker_id) in
      let look : Tx (Option Claimable) = select (λ db. first_eligible db now_iso scope db.runs) in
      let k = bind-ok (transaction (look >>= take)) (claim_of env) w none h in
      let first = k.first ∙ ap ok (no_lease k.value (transaction (look >>= take) w).1 k.then_ok) in
      let body = sym (ap (λ p. p.0) (transaction-ok (look >>= take) w none first)) ∙ first in
      none_found worker_id now_iso lease_until ("system:runtime/" <> worker_id) _ w body

  -- Where the table has a run that is queued, due, in the scope that is asked for, with no earlier
  -- run of its session queued, and its session has no active run and its workspace no active
  -- attempt, a claim does not say that there is nothing to do: it claims a run or raises.
  pub claim_next_run_serves :
      (scope : Option String) (worker_id now_iso lease_until : String) (w : World) (row : Run)
      → Startable w.db now_iso scope row
      → (claim_next_run env scope worker_id now_iso lease_until w).0 ≢ ok none
  claim_next_run_serves scope worker_id now_iso lease_until w row s = λ h.
      let nothing = nothing_eligible scope worker_id now_iso lease_until w h in
      let not_this =
        none-eligible w.db now_iso scope row s.others_before s.others_after
          (sym (ap (first_eligible w.db now_iso scope) s.listed) ∙ nothing) in
      let this = eligible-Startable w.db now_iso scope row s in
      absurd (ground (arith, not_this, this))

-- ===== src/Store/Claiming.antt =====
-- What `claim_next_run` claims.
pub mod Serving
use Prim.Native.String.{◌++◌ as ◌<>◌}
use code_forge.Prelude.{
  ◌+◌, String, ◌≡◌, ◌∙◌, ap, sym, refl, Option, none, some, arith, true, false, text_le, is_none,
  List, ◌∷◌, ◌++◌,
}
use code_forge.Contracts.Result.{ok, run_not_found}
use mathlib.Core.Path.{subst}
use code_forge.Prelude.Tables.{exists}
use code_forge.Contracts.{RunStatus}
use code_forge.StateMachine.{status_eq}
use code_forge.Store.Schema.{Db, Run}
use code_forge.Store.Sessions.{SessionView, session_view}
use code_forge.Store.Runs.{RunView, get_run}
use code_forge.Store.Found.{get_run-row}
use code_forge.Store.Monad.{Tx, World, Env, transaction, select, pure, or_raise, ◌>>=◌}
use code_forge.Store.Claim.{
  in_scope, is_prior, Claim, Claimable, Lease, first_eligible, lease_found, take_lease, lease_as,
  record_start, claim_of, claim_next_run,
}
use code_forge.Store.Keyed.{first_eligible-Chosen, first_eligible-listed}
use code_forge.Store.Ran.{Returns, Returns-pure, returns_rules, bind-ok, transaction-ok, ok-inj}

-- What a claim is of: a row of the table of runs, with its session and workspace, that was free to
-- be started.
pub record Claims (before : Db) (now_iso : String) (scope : Option String) (c : Claim)
    : Type 0 where
  pub row : Run
  pub others_before : List Run
  pub others_after : List Run
  pub listed : before.runs ≡ others_before ++ row ∷ others_after
  pub run_id : c.run.row.id ≡ row.id
  pub run_scope : c.run.row.scope_id ≡ row.scope_id
  pub queued : row.status ≡ RunStatus.queued
  pub due : text_le row.due_at now_iso ≡ true
  pub in_scope_asked : in_scope scope row ≡ true
  pub no_prior : exists (is_prior row) before.runs ≡ false
  pub view : SessionView
  pub joined : session_view row.scope_id row.session_id before ≡ some view
  pub session_free : view.session.active_run_id ≡ none
  pub workspace_free : view.workspace.active_attempt_id ≡ none
  pub epoch : c.epoch ≡ view.session.execution_epoch + 1
  pub workspace_epoch : c.workspace_epoch ≡ view.workspace.workspace_epoch + 1
  pub workspace_id : c.workspace_id ≡ view.session.workspace_id

is_none-none {ℓ} : {A : Type ℓ} (o : Option A) → is_none o ≡ true → o ≡ none
is_none-none none h = refl
is_none-none (some a) h = absurd (ground (arith, h))

is_queued : (s : RunStatus) → status_eq s RunStatus.queued ≡ true → s ≡ RunStatus.queued
is_queued s h = ground (arith, h)

some-inj {ℓ} : {A : Type ℓ} {a b : A} → some a ≡ some b → a ≡ b
some-inj e = cc

module _ (env : Env) where
  take_lease-row :
      (c : Claimable) (worker_id now_iso lease_until actor : String)
      → Returns (λ l _. l.row ≡ c) (take_lease env c worker_id now_iso lease_until actor)
  unfolding take_lease lease_as record_start
  take_lease-row c worker_id now_iso lease_until actor = search (returns_rules, returned) depth 20
    where
      returned : (l : Lease) → l.row ≡ c → Returns (λ l _. l.row ≡ c) (pure l)
      returned l e = Returns-pure l (λ _. e)

  lease_found-row :
      (worker_id now_iso lease_until actor : String) (o : Option Claimable) (l : Lease) (w : World)
      → (lease_found env worker_id now_iso lease_until actor o w).0 ≡ ok (some l)
      → o ≡ some l.row
  unfolding lease_found pure
  lease_found-row worker_id now_iso lease_until actor none l w h = absurd (ground arith)
  lease_found-row worker_id now_iso lease_until actor (some c) l w h =
      let k =
        bind-ok (take_lease env c worker_id now_iso lease_until actor) (λ lease. pure (some lease))
          w (some l) h in
      let same : k.value ≡ l = some-inj (ok-inj k.then_ok) in
      let row = (take_lease-row c worker_id now_iso lease_until actor).holds w k.value k.first in
      ap some (sym row ∙ ap (λ x. x.row) same)

  IsOf : Lease → Option Claim → Type 0
  IsOf l o =
      (c : Claim)
      → o ≡ some c
      → (c.epoch ≡ l.row.view.session.execution_epoch + 1)
        × (c.workspace_epoch ≡ l.row.view.workspace.workspace_epoch + 1)
        × (c.workspace_id ≡ l.row.view.session.workspace_id)

  claim_of-IsOf : (l : Lease) → Returns (λ o _. IsOf l o) (claim_of env (some l))
  unfolding claim_of IsOf
  claim_of-IsOf l = search (returns_rules, returned) depth 20
    where
      returned :
          (c : Claim)
          → c.epoch ≡ l.row.view.session.execution_epoch + 1
          → c.workspace_epoch ≡ l.row.view.workspace.workspace_epoch + 1
          → c.workspace_id ≡ l.row.view.session.workspace_id
          → Returns (λ o _. IsOf l o) (pure (some c))
      returned c e f g = Returns-pure (some c) (λ d x same.
          let i = some-inj same in
          (
            sym (ap (λ y. y.epoch) i) ∙ e,
            sym (ap (λ y. y.workspace_epoch) i) ∙ f,
            sym (ap (λ y. y.workspace_id) i) ∙ g,
          ))

  claimed-IsOf :
      (o : Option Lease) (c : Claim) (w : World)
      → (claim_of env o w).0 ≡ ok (some c)
      → (l : Lease) × (o ≡ some l) × IsOf l (some c)
  unfolding claim_of pure
  claimed-IsOf none c w h = absurd (ground arith)
  claimed-IsOf (some l) c w h = (l, refl, (claim_of-IsOf l).holds w (some c) h)

  raised_or :
      (o : Option RunView) (w : World) (v : RunView)
      → (or_raise o run_not_found w).0 ≡ ok v
      → o ≡ some v
  unfolding or_raise
  raised_or none w v h = absurd (ground arith)
  raised_or (some u) w v h = ap some (ok-inj h)

  -- The run of a claim is the one that was leased.
  claimed_run :
      (l : Lease) (c : Claim) (w : World)
      → (claim_of env (some l) w).0 ≡ ok (some c)
      → (c.run.row.scope_id ≡ l.row.run.scope_id) × (c.run.row.id ≡ l.row.run.id)
  unfolding claim_of pure
  claimed_run l c w h =
      let scope = l.row.run.scope_id in
      let id = l.row.run.id in
      let k = bind-ok (get_run env scope id) _ w (some c) h in
      let read =
        bind-ok (or_raise k.value run_not_found) _ (get_run env scope id w).1 (some c) k.then_ok in
      let found = k.first ∙ ap ok (raised_or k.value _ read.value read.first) in
      let same : read.value ≡ c.run = ap (λ x. x.run) (some-inj (ok-inj read.then_ok)) in
      subst (λ v. (v.row.scope_id ≡ scope) × (v.row.id ≡ id)) same
        (get_run-row env scope id read.value w found)

  -- A claim that returns a run: the run has the id and scope of a row of the table that was queued,
  -- due, in the scope that was asked for, with no earlier run of its session queued; its session had
  -- no active run and its workspace no active attempt. The claim's epochs are the successors of the
  -- stored ones.
  pub claim_next_run-Claims :
      (scope : Option String) (worker_id now_iso lease_until : String) (w : World) (c : Claim)
      → (claim_next_run env scope worker_id now_iso lease_until w).0 ≡ ok (some c)
      → Claims w.db now_iso scope c
  unfolding claim_next_run select IsOf
  claim_next_run-Claims scope worker_id now_iso lease_until w c h =
      let take : Option Claimable → Tx (Option Lease) =
        lease_found env worker_id now_iso lease_until ("system:runtime/" <> worker_id) in
      let look : Tx (Option Claimable) = select (λ db. first_eligible db now_iso scope db.runs) in
      let k = bind-ok (transaction (look >>= take)) (claim_of env) w (some c) h in
      let (l, is_l, of) = claimed-IsOf k.value c _ k.then_ok in
      let first = k.first ∙ ap ok is_l in
      let body = sym (ap (λ p. p.0) (transaction-ok (look >>= take) w (some l) first)) ∙ first in
      let row =
        lease_found-row worker_id now_iso lease_until ("system:runtime/" <> worker_id) _ l w body in
      let (epoch, workspace_epoch, workspace_id) = of c refl in
      let chosen = first_eligible-Chosen w.db now_iso scope l.row w.db.runs row in
      let (others_before, others_after, listed) =
        first_eligible-listed w.db now_iso scope l.row w.db.runs row in
      let (run_scope, run_id) =
        claimed_run l c _
          (ap (λ o. (claim_of env o (transaction (look >>= take) w).1).0) (sym is_l) ∙ k.then_ok) in
      record {
        row = l.row.run;
        others_before = others_before;
        others_after = others_after;
        listed = listed;
        run_id = run_id;
        run_scope = run_scope;
        queued = is_queued l.row.run.status (ground (arith, chosen.due));
        due = ground (arith, chosen.due);
        in_scope_asked = ground (arith, chosen.due);
        no_prior = ground (arith, chosen.due);
        view = l.row.view;
        joined = chosen.joined;
        session_free = is_none-none _ (ground (arith, chosen.idle));
        workspace_free = is_none-none _ (ground (arith, chosen.idle));
        epoch = epoch;
        workspace_epoch = workspace_epoch;
        workspace_id = workspace_id;
      }

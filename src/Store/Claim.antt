-- ===== src/Store/Claim.antt =====
-- src/code_forge/persistence/sqlite_store.py: `claim_next_run`, which hands a due run to a worker.
pub mod Choice
unfoldable pub use Choice.*
use Prim.Native.String.{◌++◌ as ◌<>◌}
use code_forge.Prelude.{
  ℕ, ◌+◌, String, Bool, true, false, not, ◌&&◌, ◌||◌, Option, none, some, List, [], ◌∷◌, ◌==◌,
  nonempty, nat_eq, ltb, text_le, text_lt, is_none, if◌then◌else◌,
}
use code_forge.Prelude.Tables.{exists, update_where, count_where}
use code_forge.Json.{str, end, field}
use code_forge.Contracts.{RunStatus, EventType}
use code_forge.Contracts.Result.{Result, ok, err, domain, state_conflict, run_not_found}
use code_forge.Contracts.Binding.{UserBinding, make_binding}
use code_forge.StateMachine.{status_eq}
use code_forge.Store.Schema.{Db, Workspace, Run, Attempt}
use code_forge.Store.Monad.{
  Tx, Env, pure, lift, select, or_raise, check, update, transaction, uuid4, ◌>>=◌, ◌>>◌,
}
use code_forge.Store.Keys.{run_at, session_at, workspace_at, insert_attempt}
use code_forge.Store.Events.{touch, fresh_audit, insert_event_locked}
use code_forge.Store.Runs.{RunView, get_run}
use code_forge.Store.Sessions.{SessionView, session_view}
use code_forge.Store.Accept.{stored_args}

-- What `claim_next_run` returns.
pub record Claim : Type 0 where
  pub run : RunView
  pub attempt_id : String
  pub epoch : ℕ
  pub workspace_id : String
  pub workspace_epoch : ℕ
  pub user_binding : Option UserBinding
  pub working_directory : Option String

-- The part of a claim that is known before the run is read again.
pub record Lease : Type 0 where
  pub row : Claimable
  pub attempt_id : String
  pub user_binding : Option UserBinding

unfoldable pub attempt_row : Claimable → String → String → String → String → Bool → String → Attempt
attempt_row c attempt_id worker_id now_iso lease_until bound actor = record {
  id = attempt_id;
  scope_id = c.run.scope_id;
  session_id = c.run.session_id;
  run_id = c.run.id;
  workspace_id = c.view.session.workspace_id;
  epoch = c.view.session.execution_epoch + 1;
  workspace_epoch = c.view.workspace.workspace_epoch + 1;
  worker_id = worker_id;
  lease_until = lease_until;
  heartbeat_at = now_iso;
  workspace_base_revision = c.view.workspace.current_revision;
  mount_spec_ref = if bound then "project:" <> c.view.workspace.project_ref else "legacy";
  working_directory_ref = c.view.workspace.project_path;
  checkpoint_ref = none;
  ended_at = none;
  audit = fresh_audit now_iso actor;
}

-- UPDATE sessions SET active_run_id, execution_epoch
unfoldable pub occupy_session : Claimable → String → String → Db → Db
occupy_session c now_iso actor db = record db {
  sessions =
      update_where (session_at c.run.scope_id c.run.session_id)
        (λ s. record s {
          active_run_id = some c.run.id;
          execution_epoch = c.view.session.execution_epoch + 1;
          audit = touch s.audit now_iso actor;
        })
        db.sessions;
}

-- UPDATE workspaces SET the lease WHERE the epoch is as read and no attempt is active
abbrev pub is_free_at : Claimable → Workspace → Bool
is_free_at c w =
    workspace_at c.run.scope_id c.view.session.workspace_id w
    && nat_eq w.workspace_epoch c.view.workspace.workspace_epoch
    && is_none w.active_attempt_id

unfoldable pub lease_workspace : Claimable → String → String → String → String → Db → Db
lease_workspace c attempt_id now_iso lease_until actor db = record db {
  workspaces =
      update_where (is_free_at c)
        (λ w. record w {
          active_attempt_id = some attempt_id;
          workspace_epoch = c.view.workspace.workspace_epoch + 1;
          lease_until = some lease_until;
          heartbeat_at = some now_iso;
          audit = touch w.audit now_iso actor;
        })
        db.workspaces;
}

-- UPDATE runs SET status = 'RUNNING' WHERE the state version is as read
abbrev pub is_unchanged : Claimable → Run → Bool
is_unchanged c r = run_at c.run.scope_id c.run.id r && nat_eq r.state_version c.run.state_version

unfoldable pub start_run : Claimable → String → String → String → String → Db → Db
start_run c attempt_id now_iso lease_until actor db = record db {
  runs =
      update_where (is_unchanged c)
        (λ r. record r {
          status = RunStatus.running;
          active_attempt_id = some attempt_id;
          state_version = r.state_version + 1;
          due_at = lease_until;
          audit = touch r.audit now_iso actor;
        })
        db.runs;
}

-- The UPDATEs of a claim; the row counts are those of the two guarded ones.
unfoldable pub enter_lease : Claimable → String → String → String → String → Tx (Unit {0})
enter_lease c attempt_id now_iso lease_until actor = do
  update (occupy_session c now_iso actor)
  leased ← select (λ db. count_where (is_free_at c) db.workspaces)
  update (lease_workspace c attempt_id now_iso lease_until actor)
  check (nat_eq leased 1) (domain state_conflict)
  started ← select (λ db. count_where (is_unchanged c) db.runs)
  update (start_run c attempt_id now_iso lease_until actor)
  check (nat_eq started 1) (domain state_conflict)

module _ (env : Env) where
  abbrev pub some_binding : Result UserBinding → Result (Option UserBinding)
  some_binding (ok b) = ok (some b)
  some_binding (err e) = err e

  unfoldable pub claim_binding : Claimable → Result (Option UserBinding)
  unfolding make_binding
  claim_binding c =
      if nonempty c.view.workspace.project_path
      then some_binding (make_binding env.paths (stored_args c.view.workspace c.run.scope_id))
      else ok none

  abbrev pub is_bound : Option UserBinding → Bool
  is_bound none = false
  is_bound (some _) = true

  unfoldable pub record_start : Claimable → String → Option UserBinding → String → String → Tx Lease
  record_start c attempt_id binding now_iso actor = do
    insert_event_locked env c.run.scope_id c.run.id EventType.run_started
        (field "attempt_id" (str attempt_id) end) actor now_iso
    pure (record { row = c; attempt_id = attempt_id; user_binding = binding })

  -- A claim, once its attempt is named and the workspace's binding is known to be valid.
  unfoldable pub lease_as :
      Claimable → String → Option UserBinding → String → String → String → String → Tx Lease
  lease_as c attempt_id binding worker_id now_iso lease_until actor = do
    insert_attempt (attempt_row c attempt_id worker_id now_iso lease_until (is_bound binding) actor)
    enter_lease c attempt_id now_iso lease_until actor
    record_start c attempt_id binding now_iso actor

  unfoldable pub take_lease : Claimable → String → String → String → String → Tx Lease
  take_lease c worker_id now_iso lease_until actor = do
    attempt_id ← uuid4 env
    binding ← lift (claim_binding c)
    lease_as c attempt_id binding worker_id now_iso lease_until actor

  unfoldable pub lease_found :
      String → String → String → String → Option Claimable → Tx (Option Lease)
  lease_found worker_id now_iso lease_until actor none = pure none
  lease_found worker_id now_iso lease_until actor (some c) = do
    lease ← take_lease c worker_id now_iso lease_until actor
    pure (some lease)

  unfoldable pub claim_of : Option Lease → Tx (Option Claim)
  claim_of none = pure none
  claim_of (some l) = do
    found ← get_run env l.row.run.scope_id l.row.run.id
    run ← or_raise found run_not_found
    pure (
        some (record {
          run = run;
          attempt_id = l.attempt_id;
          epoch = l.row.view.session.execution_epoch + 1;
          workspace_id = l.row.view.session.workspace_id;
          workspace_epoch = l.row.view.workspace.workspace_epoch + 1;
          user_binding = l.user_binding;
          working_directory =
              if nonempty l.row.view.workspace.project_path
              then some l.row.view.workspace.project_path
              else none;
        }))

  -- `claim_next_run`: `now_iso` and `lease_until` are the texts of `now` and of
  -- `now + lease_seconds`
  unfoldable pub claim_next_run : Option String → String → String → String → Tx (Option Claim)
  claim_next_run scope worker_id now_iso lease_until = do
    lease ← transaction do
      found ← select (λ db. first_eligible db now_iso scope db.runs)
      lease_found worker_id now_iso lease_until ("system:runtime/" <> worker_id) found
    claim_of lease

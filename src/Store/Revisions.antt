-- ===== src/Store/Revisions.antt =====
-- src/code_forge/persistence/sqlite_store.py: `record_workspace_revision`.
use code_forge.Prelude.{
  ℕ, String, Bool, false, not, ◌&&◌, Option, none, some, ◌==◌, nat_eq, sql_eq, sql_is, text_le,
}
use code_forge.Prelude.Tables.{find, update_where, count_where}
use code_forge.Contracts.{WorkspaceCommit}
use code_forge.Contracts.Result.{domain, run_not_found, state_conflict}
use code_forge.Store.Schema.{Db, Workspace}
use code_forge.Store.Monad.{Tx, Env, select, or_raise, check, update, transaction, now, ◌>>=◌, ◌>>◌}
use code_forge.Store.Keys.{workspace_at, insert_revision}
use code_forge.Store.Events.{touch, fresh_audit}

-- The caller's attempt is the workspace's active one, at the epoch that the caller was given.
abbrev pub holds_lease : String → ℕ → Workspace → Bool
holds_lease attempt_id epoch w =
    sql_eq w.active_attempt_id (some attempt_id) && nat_eq w.workspace_epoch epoch

abbrev pub has_expired : Option String → String → Bool
has_expired none time = false
has_expired (some lease) time = not (lease == "") && text_le lease time

-- WHERE ... AND current_revision IS ? AND active_attempt_id = ? AND workspace_epoch = ?
abbrev pub is_at_parent : String → String → Option String → String → ℕ → Workspace → Bool
is_at_parent scope workspace_id parent attempt_id epoch w =
    workspace_at scope workspace_id w
    && sql_is w.current_revision parent
    && holds_lease attempt_id epoch w

unfoldable pub set_revision :
    String → String → Option String → String → ℕ → String → String → String → Db → Db
set_revision scope workspace_id parent attempt_id epoch revision time actor db = record db {
  workspaces =
      update_where (is_at_parent scope workspace_id parent attempt_id epoch)
        (λ w. record w { current_revision = some revision; audit = touch w.audit time actor })
        db.workspaces;
}

module _ (env : Env) where
  unfoldable pub record_workspace_revision :
      String → String → String → ℕ → WorkspaceCommit → String → Tx (Unit {0})
  record_workspace_revision scope workspace_id attempt_id epoch commit actor = do
    time ← now env
    transaction do
      found ← select (λ db. find (workspace_at scope workspace_id) db.workspaces)
      workspace ← or_raise found run_not_found
      check (holds_lease attempt_id epoch workspace) (domain state_conflict)
      check (not (has_expired workspace.lease_until time)) (domain state_conflict)
      insert_revision (record {
        id = commit.revision_id;
        scope_id = scope;
        workspace_id = workspace_id;
        parent_id = workspace.current_revision;
        manifest_digest = commit.manifest_digest;
        manifest_ref = commit.manifest_ref;
        storage_ref = commit.storage_ref;
        audit = fresh_audit time actor;
      })
      updated ← select (λ db.
          count_where (is_at_parent scope workspace_id workspace.current_revision attempt_id epoch)
            db.workspaces)
      update (
          set_revision scope workspace_id workspace.current_revision attempt_id epoch
            commit.revision_id time actor)
      check (nat_eq updated 1) (domain state_conflict)

-- ===== src/Store/Sessions/Rows.antt =====
-- The rows that `create_session` reads and writes.
use Prim.Native.String.{◌++◌ as ◌<>◌}
use code_forge.Prelude.{String, Bool, ◌&&◌, Option, none, some, ◌==◌, or_text, is_some}
use code_forge.Prelude.Tables.{find, update_where}
use code_forge.Contracts.Result.{domain, session_not_found}
use code_forge.Contracts.Binding.{UserBinding, ExecutionContext}
use code_forge.Store.Schema.{Db, Workspace, Session, SessionRequest}
use code_forge.Store.Monad.{Tx, select, check, ◌>>=◌}
use code_forge.Store.Keys.{session_at, workspace_at}
use code_forge.Store.Events.{touch, fresh_audit}

-- A session with its workspace, as the JOIN gives them.
pub record SessionView : Type 0 where
  pub session : Session
  pub workspace : Workspace

abbrev pub with_workspace : Session → Option Workspace → Option SessionView
with_workspace s none = none
with_workspace s (some w) = some (record { session = s; workspace = w })

abbrev pub join_workspace : Db → Option Session → Option SessionView
join_workspace db none = none
join_workspace db (some s) =
    with_workspace s (find (workspace_at s.scope_id s.workspace_id) db.workspaces)

abbrev pub session_view : String → String → Db → Option SessionView
session_view scope session_id db =
    join_workspace db (find (session_at scope session_id) db.sessions)

-- `get_session`
unfoldable pub get_session : String → String → Tx (Option SessionView)
get_session scope session_id = select (session_view scope session_id)

-- `get_session_unscoped`
unfoldable pub get_session_unscoped : String → Tx (Option SessionView)
get_session_unscoped session_id =
    select (λ db. join_workspace db (find (λ s. s.id == session_id) db.sessions))

-- `require_session`
unfoldable pub require_session : String → String → Tx (Unit {0})
unfolding get_session
require_session scope session_id = do
  found ← get_session scope session_id
  check (is_some found) (domain session_not_found)

-- `_actor`
abbrev pub actor_of : ExecutionContext → String
actor_of context = or_text context.actor_ref "system:runtime/api"

-- WHERE scope_id = ? AND idempotency_key = ?
abbrev pub session_request_at : String → String → SessionRequest → Bool
session_request_at scope key r = r.scope_id == scope && r.idempotency_key == key

abbrev pub project_at : String → String → Workspace → Bool
project_at scope project_ref w = w.scope_id == scope && w.project_ref == project_ref

unfoldable pub bound_workspace : String → String → UserBinding → String → String → Workspace
bound_workspace id scope b time actor = record {
  id = id;
  scope_id = scope;
  storage_ref = b.project_path;
  storage_root = b.storage_root;
  tenant_ref = b.tenant_ref;
  user_ref = b.user_ref;
  user_path = b.user_path;
  user_rel_path = b.user_rel_path;
  project_ref = b.project_ref;
  project_path = b.project_path;
  current_revision = none;
  active_attempt_id = none;
  workspace_epoch = 0;
  lease_until = none;
  heartbeat_at = none;
  audit = fresh_audit time actor;
}

unfoldable pub legacy_workspace : String → String → String → String → Workspace
legacy_workspace id scope time actor = record {
  id = id;
  scope_id = scope;
  storage_ref = "workspace:" <> id;
  storage_root = "";
  tenant_ref = "legacy-tenant:" <> scope;
  user_ref = scope;
  user_path = "";
  user_rel_path = "";
  project_ref = "legacy-project:" <> id;
  project_path = "";
  current_revision = none;
  active_attempt_id = none;
  workspace_epoch = 0;
  lease_until = none;
  heartbeat_at = none;
  audit = fresh_audit time actor;
}

abbrev pub same_paths : Workspace → UserBinding → Bool
same_paths w b =
    w.storage_ref == b.project_path
    && (w.storage_root == b.storage_root)
    && (w.user_path == b.user_path)
    && (w.user_rel_path == b.user_rel_path)
    && (w.project_path == b.project_path)

-- UPDATE workspaces SET the paths of the binding
unfoldable pub move_workspace : String → String → UserBinding → String → String → Db → Db
move_workspace scope workspace_id b time actor db = record db {
  workspaces =
      update_where (workspace_at scope workspace_id)
        (λ w. record w {
          storage_ref = b.project_path;
          storage_root = b.storage_root;
          user_path = b.user_path;
          user_rel_path = b.user_rel_path;
          project_path = b.project_path;
          audit = touch w.audit time actor;
        })
        db.workspaces;
}

unfoldable pub new_session :
    String → String → String → String → Option String → String → String → Session
new_session id scope workspace_id title external_ref time actor = record {
  id = id;
  scope_id = scope;
  workspace_id = workspace_id;
  title = title;
  external_ref = external_ref;
  thread_id = "thread:" <> id;
  next_run_seq = 1;
  next_event_seq = 1;
  execution_epoch = 0;
  active_run_id = none;
  audit = fresh_audit time actor;
}

-- UPDATE sessions SET title
unfoldable pub retitle : String → String → String → String → Db → Db
retitle session_id title time actor db = record db {
  sessions =
      update_where (λ s. s.id == session_id)
        (λ s. record s { title = title; audit = touch s.audit time actor }) db.sessions;
}

-- ===== src/Store/Sessions.antt =====
-- src/code_forge/persistence/sqlite_store.py: creating and reading sessions.
pub mod Rows
unfoldable pub use Rows.*
use Prim.Native.String.{◌++◌ as ◌<>◌}
use code_forge.Prelude.{
  String, Bool, ◌&&◌, Option, none, some, ◌==◌, or_text, is_some, if◌then◌else◌,
}
use code_forge.Prelude.Tables.{find, exists, update_where}
use code_forge.Json.{obj, str, end, field, or_null}
use code_forge.Contracts.Result.{domain, session_not_found, idempotency_conflict}
use code_forge.Contracts.Binding.{UserBinding, ExecutionContext}
use code_forge.Contracts.Requests.{context_json}
use code_forge.Store.Schema.{Db, Workspace, Session, SessionRequest}
use code_forge.Store.Monad.{
  Tx, Env, pure, select, check, update, transaction, now, uuid4, ◌>>=◌, ◌>>◌,
}
use code_forge.Store.Keys.{
  session_at, workspace_at, insert_workspace, insert_session, insert_session_request,
}
use code_forge.Store.Events.{touch, fresh_audit}

module _ (env : Env) where
  abbrev pub session_fingerprint :
      String → String → String → Option String → ExecutionContext → String
  session_fingerprint scope key title external_ref context = env.sha256 (
      env.dumps_compact (
        obj (
          field "scope_id" (str scope) (
            field "idempotency_key" (str key) (
              field "title" (str title) (
                field "external_ref" (or_null external_ref)
                  (field "context" (context_json context) end)))))))

  -- The workspace of a bound project: the one it has, with its paths brought up to date, or a new one.
  unfoldable pub project_workspace :
      String → UserBinding → String → String → Option Workspace → Tx String
  project_workspace scope b time actor none = do
    id ← uuid4 env
    insert_workspace (bound_workspace id scope b time actor)
    pure id
  project_workspace scope b time actor (some w) = do
    check (w.tenant_ref == b.tenant_ref && w.user_ref == b.user_ref) (domain idempotency_conflict)
    if same_paths w b then pure tt else update (move_workspace scope w.id b time actor)
    pure w.id

  unfoldable pub workspace_for : String → Option UserBinding → String → String → Tx String
  workspace_for scope none time actor = do
    id ← uuid4 env
    insert_workspace (legacy_workspace id scope time actor)
    pure id
  workspace_for scope (some b) time actor = do
    found ← select (λ db. find (project_at scope b.project_ref) db.workspaces)
    project_workspace scope b time actor found

  -- The session of the request: the one it made before, or a new one.
  unfoldable pub session_of_request :
      String
      → String
      → String
      → Option String
      → ExecutionContext
      → String
      → Option SessionRequest
      → Tx String
  session_of_request scope key title external_ref context time (some r) = do
    check (r.request_fingerprint == session_fingerprint scope key title external_ref context)
        (domain idempotency_conflict)
    pure r.session_id
  session_of_request scope key title external_ref context time none = do
    session_id ← uuid4 env
    workspace_id ← workspace_for scope context.user_binding time (actor_of context)
    insert_session
        (new_session session_id scope workspace_id title external_ref time (actor_of context))
    insert_session_request (record {
      scope_id = scope;
      idempotency_key = key;
      request_fingerprint = session_fingerprint scope key title external_ref context;
      session_id = session_id;
      audit = fresh_audit time (actor_of context);
    })
    pure session_id

  -- `create_session`
  unfoldable pub create_session :
      String → String → String → Option String → ExecutionContext → Tx (Option SessionView)
  create_session scope key title external_ref context = do
    time ← now env
    session_id ← transaction do
      found ← select (λ db. find (session_request_at scope key) db.session_requests)
      session_of_request scope key title external_ref context time found
    get_session scope session_id

  -- `update_session_title`; ids are unique, so the row count is 1 when there is such a session
  unfoldable pub update_session_title : String → String → String → Tx (Option SessionView)
  update_session_title session_id title actor = do
    time ← now env
    transaction do
      there ← select (λ db. exists (λ s. s.id == session_id) db.sessions)
      update (retitle session_id title time actor)
      check there (domain session_not_found)
    get_session_unscoped session_id

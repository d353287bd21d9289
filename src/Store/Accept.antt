-- ===== src/Store/Accept.antt =====
-- src/code_forge/persistence/sqlite_store.py: `accept_once`, which turns a request into a run.
use Prim.Native.String.{count}
use code_forge.Prelude.{
  ℕ, ◌+◌, String, Bool, true, false, not, ◌&&◌, Option, none, some, ◌==◌, nonempty, if◌then◌else◌,
}
use code_forge.Prelude.Tables.{find, exists, update_where}
use code_forge.Json.{obj, str, num, end, field}
use code_forge.Contracts.{RunStatus, EventType, AcceptedRun, is_terminal}
use code_forge.Contracts.Result.{
  Result, ok, err, domain, session_not_found, idempotency_conflict, invalid_request, message_busy,
}
use code_forge.Contracts.Binding.{UserBinding, BindingArgs, make_binding, binding_eq}
use code_forge.Contracts.Requests.{RunRequest, RunSnapshot, context_json, snapshot_json}
use code_forge.Store.Schema.{Db, Workspace, Run}
use code_forge.Store.Monad.{
  Tx, Env, pure, lift, select, or_raise, check, update, transaction, now, uuid4, ◌>>=◌, ◌>>◌,
}
use code_forge.Store.Content.{ObjectRef, write_message, write_snapshot, text_ref}
use code_forge.Store.Keys.{session_at, request_at, insert_run}
use code_forge.Store.Events.{touch, fresh_audit, insert_event_locked}
use code_forge.Store.Runs.{accepted}
use code_forge.Store.Sessions.{SessionView, session_view, actor_of}

-- The constructor's arguments from a workspace's columns.
abbrev pub stored_args : Workspace → String → BindingArgs
stored_args w scope = record {
  scope_id = scope;
  tenant_ref = w.tenant_ref;
  user_ref = w.user_ref;
  user_path = w.user_path;
  project_ref = w.project_ref;
  project_path = some w.project_path;
  storage_root = w.storage_root;
  user_rel_path = w.user_rel_path;
  project_rel_path = "";
}

-- WHERE scope_id = ? AND session_id = ? AND status NOT IN ('SUCCEEDED','FAILED','CANCELLED','TIMED_OUT')
abbrev pub is_active : String → String → Run → Bool
is_active scope session_id r =
    r.scope_id == scope && (r.session_id == session_id) && not (is_terminal r.status)

abbrev same_binding : Option UserBinding → Result UserBinding → Result (Unit {0})
same_binding none (ok stored) = err (domain invalid_request)
same_binding (some b) (ok stored) =
    if binding_eq stored b then ok tt else err (domain idempotency_conflict)
same_binding _ (err e) = err e

abbrev unbound : Option UserBinding → Result (Unit {0})
unbound none = ok tt
unbound (some b) = err (domain idempotency_conflict)

-- UPDATE sessions SET next_run_seq
unfoldable pub count_run : String → String → ℕ → String → String → Db → Db
count_run scope session_id run_seq time actor db = record db {
  sessions =
      update_where (session_at scope session_id)
        (λ s. record s { next_run_seq = run_seq + 1; audit = touch s.audit time actor })
        db.sessions;
}

module _ (env : Env) where
  -- `_require_session_binding`
  unfoldable pub require_session_binding : Workspace → Option UserBinding → Result (Unit {0})
  unfolding make_binding
  require_session_binding w binding =
      if nonempty w.project_path
      then same_binding binding (make_binding env.paths (stored_args w w.user_ref))
      else unbound binding

  -- `_content_base`
  abbrev content_base : Workspace → String
  content_base w = if nonempty w.user_path then w.user_path else env.legacy_root

  -- The row of `runs`.
  unfoldable pub run_row :
      RunRequest → String → String → SessionView → String → ObjectRef → ObjectRef → String → Run
  run_row request key fingerprint view run_id input snapshot time = record {
    id = run_id;
    scope_id = request.context.scope_id;
    session_id = request.session_id;
    workspace_id = view.session.workspace_id;
    run_seq = view.session.next_run_seq;
    idempotency_key = key;
    request_fingerprint = fingerprint;
    input = text_ref input (count request.input);
    agent_ref = request.agent_ref;
    execution_context = env.dumps (context_json request.context);
    config_snapshot = text_ref snapshot snapshot.bytes;
    status = RunStatus.queued;
    active_attempt_id = none;
    state_version = 0;
    task_outcome = none;
    wait_reason = none;
    output = none;
    error = none;
    cancel_requested_at = none;
    deadline_at = none;
    due_at = time;
    next_event_seq = 1;
    audit = fresh_audit time (actor_of request.context);
  }

  -- The event of the run's acceptance, and the session's next run number.
  unfoldable pub log_run : RunRequest → SessionView → ObjectRef → String → Run → Tx AcceptedRun
  log_run request view stored time row = do
    insert_event_locked env request.context.scope_id row.id EventType.run_accepted
        (field "status" (str "QUEUED") (
          field "snapshot_ref"
            (obj (
              field "ref" (str stored.ref)
                (field "bytes" (num stored.bytes) (field "digest" (str stored.digest) end))))
            end))
        (actor_of request.context) time
    update (
        count_run request.context.scope_id request.session_id view.session.next_run_seq time
          (actor_of request.context))
    pure (accepted row false)

  unfoldable pub store_run : RunRequest → SessionView → ObjectRef → String → Run → Tx AcceptedRun
  store_run request view stored time row = do insert_run row; log_run request view stored time row

  -- A request whose key is new to the session.
  unfoldable pub accept_new :
      RunRequest → String → String → RunSnapshot → Bool → String → Tx AcceptedRun
  accept_new request key fingerprint snapshot reject_if_active time = do
    found ← select (session_view request.context.scope_id request.session_id)
    view ← or_raise found session_not_found
    lift (require_session_binding view.workspace request.context.user_binding)
    active ← select (λ db. exists (is_active request.context.scope_id request.session_id) db.runs)
    check (not (reject_if_active && active)) (domain message_busy)
    run_id ← uuid4 env
    input ←
        write_message env (content_base view.workspace) request.session_id run_id "user"
          request.input view.session.next_run_seq
    stored ←
        write_snapshot env (content_base view.workspace) request.session_id run_id
          (env.dumps (snapshot_json snapshot))
    store_run request view stored time
        (run_row request key fingerprint view run_id input stored time)

  -- A request whose key the session knows: the run that it made.
  unfoldable pub accept_again : String → Run → Tx AcceptedRun
  accept_again fingerprint r = do
    check (r.request_fingerprint == fingerprint) (domain idempotency_conflict)
    pure (accepted r true)

  unfoldable pub accept_found :
      RunRequest → String → String → RunSnapshot → Bool → String → Option Run → Tx AcceptedRun
  accept_found request key fingerprint snapshot reject_if_active time none =
      accept_new request key fingerprint snapshot reject_if_active time
  accept_found request key fingerprint snapshot reject_if_active time (some r) =
      accept_again fingerprint r

  -- `accept_once`
  unfoldable pub accept_once : RunRequest → String → String → RunSnapshot → Bool → Tx AcceptedRun
  accept_once request key fingerprint snapshot reject_if_active = do
    time ← now env
    transaction do
      existing ←
          select (λ db. find (request_at request.context.scope_id request.session_id key) db.runs)
      accept_found request key fingerprint snapshot reject_if_active time existing

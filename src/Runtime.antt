-- ===== src/Runtime.antt =====
-- src/code_forge/runtime/app.py: `AgentRuntime` over the runtime store. The workspace, the harness,
-- the authorization and the snapshot resolver are parameters.
use Prim.Native.String.{◌++◌}
use code_forge.Prelude.{
  ℕ, String, Bool, true, false, not, ◌||◌, Option, none, some, List, [], ◌∷◌, nonempty,
  if◌then◌else◌,
}
use code_forge.Json.{Json, null, str, num, Fields, end, field, value_or_null}
use code_forge.Contracts.{TaskOutcome, AcceptedRun, status_value, outcome_value}
use code_forge.Contracts.Result.{Result, ok, err, domain, run_not_found, assertion_error}
use code_forge.Contracts.Binding.{UserBinding, ExecutionContext, make_binding}
use code_forge.Contracts.Requests.{SkillBinding, make_request}
use code_forge.Store.Monad.{Env, Tx, pure, lift, or_raise, ◌>>=◌, ◌>>◌}
use code_forge.Store.Runs.{RunView, get_run}
use code_forge.Store.Transitions.{cancel_run}
use code_forge.Store.Responses.{respond_to_run}
use code_forge.Store.Sessions.{SessionView, create_session, get_session_unscoped}
use code_forge.Store.Claim.{Claim, claim_next_run}
use code_forge.Store.Pages.Sessions.{list_bound_sessions}
use code_forge.Store.Pages.Messages.{list_messages_public}
use code_forge.Service.{Ports, submit}

-- The ports of the workspace and of the harness.
pub record Workspaces : Type 0 where
  pub ensure_workspace : String → Option UserBinding → Tx (Unit {0})
  pub ensure_user_layout : String → UserBinding → Tx (Unit {0})
  pub ensure_session_storage : SessionView → UserBinding → Tx (Unit {0})
  pub append_transcript : UserBinding → String → Fields → Tx (Unit {0})
  pub execute : Claim → Tx RunView

abbrev outcome_json : Option TaskOutcome → Json
outcome_json none = null
outcome_json (some o) = str (outcome_value o)

module _ (env : Env) (ports : Ports) (workspaces : Workspaces) where
  abbrev or_no_binding : Result UserBinding → Result (Option UserBinding)
  or_no_binding (ok b) = ok (some b)
  or_no_binding (err (domain c)) = ok none
  or_no_binding (err e) = err e

  -- `AgentRuntime._binding_from_session`
  unfoldable pub runtime_binding : SessionView → Result (Option UserBinding)
  unfolding make_binding
  runtime_binding v =
      if not (nonempty v.workspace.user_path) || not (nonempty v.workspace.project_path)
      then ok none
      else or_no_binding (
          make_binding env.paths (record {
            scope_id = v.workspace.user_ref;
            tenant_ref = v.workspace.tenant_ref;
            user_ref = v.workspace.user_ref;
            user_path = v.workspace.user_path;
            project_ref = v.workspace.project_ref;
            project_path = some v.workspace.project_path;
            storage_root = v.workspace.storage_root;
            user_rel_path = v.workspace.user_rel_path;
            project_rel_path = "";
          }))

  abbrev ensure_bound : SessionView → Option UserBinding → Tx (Unit {0})
  ensure_bound v none = pure tt
  ensure_bound v (some b) = do
    workspaces.ensure_user_layout v.session.workspace_id b
    workspaces.ensure_session_storage v b

  -- `_ensure_session_storage`, and `sync_session_storage`
  unfoldable pub ensure_session_storage : SessionView → Tx (Unit {0})
  ensure_session_storage v = do binding ← lift (runtime_binding v); ensure_bound v binding

  -- `_append_transcript_user`
  unfoldable pub append_transcript_user : RunView → UserBinding → Tx (Unit {0})
  append_transcript_user v binding = workspaces.append_transcript binding v.row.session_id (
      field "record_id" (str (v.row.id ++ ":user")) (
        field "session_id" (str v.row.session_id) (
          field "run_id" (str v.row.id) (
            field "message_seq" (num v.row.run_seq) (
              field "role" (str "user") (
                field "content" (value_or_null v.input)
                  (field "created_at" (str v.row.audit.date_created) end)))))))

  abbrev append_result : RunView → Option UserBinding → Option Json → Tx (Unit {0})
  append_result v none output = pure tt
  append_result v (some b) none = pure tt
  append_result v (some b) (some output) = workspaces.append_transcript b v.row.session_id (
      field "record_id" (str (v.row.id ++ ":assistant")) (
        field "session_id" (str v.row.session_id) (
          field "run_id" (str v.row.id) (
            field "message_seq" (num v.row.run_seq) (
              field "role" (str "assistant") (
                field "content" output (
                  field "status" (str (status_value v.row.status)) (
                    field "task_outcome" (outcome_json v.row.task_outcome)
                      (field "created_at" (str v.row.audit.date_updated) end)))))))))

  -- `_append_transcript_result`
  unfoldable pub append_transcript_result : RunView → Option SessionView → Tx (Unit {0})
  append_transcript_result v none = pure tt
  append_transcript_result v (some s) = do
    binding ← lift (runtime_binding s)
    append_result v binding v.output

  abbrev or_assert : Option SessionView → Result SessionView
  or_assert none = err assertion_error
  or_assert (some v) = ok v

  -- `AgentRuntime.create_session`
  unfoldable pub open_session :
      String → String → String → Option String → ExecutionContext → Tx SessionView
  open_session scope key title external_ref context = do
    created ← create_session env scope key title external_ref context
    session ← lift (or_assert created)
    workspaces.ensure_workspace session.session.workspace_id context.user_binding
    ensure_session_storage session
    pure session

  abbrev transcribe : Option RunView → UserBinding → Tx (Unit {0})
  transcribe none b = pure tt
  transcribe (some v) b = append_transcript_user v b

  abbrev transcribe_user : String → String → Option UserBinding → Option SessionView → Tx (Unit {0})
  transcribe_user scope run_id (some b) (some s) = do
    run ← get_run env scope run_id
    transcribe run b
  transcribe_user scope run_id _ _ = pure tt

  -- `AgentRuntime.submit_run`
  unfoldable pub submit_run :
      String
      → String
      → String
      → List SkillBinding
      → Option (List String)
      → String
      → ExecutionContext
      → Bool
      → Tx AcceptedRun
  unfolding make_request
  submit_run session_id input agent_ref skills skill_paths key context only = do
    request ← lift (
        make_request env.paths (record {
          session_id = session_id;
          input = input;
          agent_ref = agent_ref;
          skills = skills;
          context = context;
          skill_paths = skill_paths;
        }))
    accepted ← submit env ports request key only
    session ← get_session_unscoped session_id
    transcribe_user context.scope_id accepted.id context.user_binding session
    pure accepted

  -- `AgentRuntime.cancel_run`
  unfoldable pub cancel_known : String → String → String → Tx (Option RunView)
  cancel_known scope run_id actor_ref = do
    found ← get_run env scope run_id
    or_raise found run_not_found
    cancel_run env scope run_id (some actor_ref)

  -- `AgentRuntime.respond_to_run`
  unfoldable pub answer_run : String → String → String → String → ℕ → String → Tx (Option RunView)
  answer_run scope run_id pending_id response_key expected_version text =
      respond_to_run env scope run_id pending_id response_key expected_version text
        "system:runtime/api"

  abbrev ensure_found : Option SessionView → Tx (Unit {0})
  ensure_found none = pure tt
  ensure_found (some v) = ensure_session_storage v

  unfoldable pub work_on : Option Claim → Tx Bool
  work_on none = pure false
  work_on (some c) = do
    session ← get_session_unscoped c.run.row.session_id
    ensure_found session
    result ← workspaces.execute c
    append_transcript_result result session
    pure true

  -- One turn of `_worker_loop`: whether there was a run. `now_iso` and `lease_until` as in
  -- `claim_next_run`.
  unfoldable pub worker_turn : String → String → String → Tx Bool
  worker_turn worker_id now_iso lease_until = do
    claimed ← claim_next_run env none worker_id now_iso lease_until
    work_on claimed

  unfoldable pub project_runs : UserBinding → SessionView → List RunView → Tx (Unit {0})
  project_runs b s [] = pure tt
  project_runs b s (v ∷ vs) = do
    append_transcript_user v b
    append_transcript_result v (some s)
    project_runs b s vs

  -- A DomainError of the listing skips the session.
  abbrev project_listed :
      UserBinding → SessionView → Result (List RunView × Option String) → Tx (Unit {0})
  project_listed b s (ok page) = project_runs b s page.0
  project_listed b s (err (domain c)) = pure tt
  project_listed b s (err e) = lift (err e)

  unfoldable pub project_session : SessionView → Option UserBinding → Tx (Unit {0})
  project_session s none = pure tt
  project_session s (some b) = do
    workspaces.ensure_user_layout s.session.workspace_id b
    workspaces.ensure_session_storage s b
    λ w.
        project_listed b s (list_messages_public env s.session.id none 10000 w).0
          (list_messages_public env s.session.id none 10000 w).1

  unfoldable pub project_sessions : List SessionView → Tx (Unit {0})
  project_sessions [] = pure tt
  project_sessions (s ∷ ss) = do
    binding ← lift (runtime_binding s)
    project_session s binding
    project_sessions ss

  -- `materialize_user_storage`
  unfoldable pub materialize_user_storage : Tx (Unit {0})
  materialize_user_storage = do sessions ← list_bound_sessions; project_sessions sessions

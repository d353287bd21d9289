-- ===== src/Service.antt =====
-- src/code_forge/service.py: `RunService.submit` over the runtime store. The authorization port and
-- the snapshot resolver are parameters.
use Prim.Native.String.{count}
use code_forge.Prelude.{String, Bool, true, ◌&&◌, Option, none, some, ◌==◌, leb}
use code_forge.Contracts.{AcceptedRun, ExistingRequest}
use code_forge.Contracts.Result.{domain, invalid_request, idempotency_conflict}
use code_forge.Contracts.Binding.{ExecutionContext}
use code_forge.Contracts.Requests.{RunRequest, RunSnapshot, request_json}
use code_forge.Store.Monad.{Tx, Env, pure, check, ◌>>=◌, ◌>>◌}
use code_forge.Store.Sessions.{require_session}
use code_forge.Store.Runs.{find_request}
use code_forge.Store.Accept.{accept_once}

-- `authorize` is `AuthorizationPort.check`, `resolve` is `SnapshotResolver.resolve_and_store`.
pub record Ports : Type 0 where
  pub authorize : ExecutionContext → String → String → Tx (Unit {0})
  pub resolve : RunRequest → Tx RunSnapshot

abbrev pub is_sized : RunRequest → String → Bool
is_sized request key =
    leb 1 (count key)
    && leb (count key) 200
    && leb 1 (count request.input)
    && leb (count request.input) 100000

module _ (env : Env) where
  abbrev pub request_fingerprint : RunRequest → String
  request_fingerprint request = env.sha256 (env.dumps_compact (request_json request))

  module _ (ports : Ports) where
    -- A duplicate returns before the snapshot is resolved.
    unfoldable pub submit_found :
        RunRequest → String → Bool → Option ExistingRequest → Tx AcceptedRun
    submit_found request key only none = do
      snapshot ← ports.resolve request
      accept_once env request key (request_fingerprint request) snapshot only
    submit_found request key only (some existing) = do
      check (existing.fingerprint == request_fingerprint request) (domain idempotency_conflict)
      pure (record existing.run { reused = true })

    -- `submit`
    unfoldable pub submit : RunRequest → String → Bool → Tx AcceptedRun
    submit request key only = do
      check (is_sized request key) (domain invalid_request)
      ports.authorize request.context "run.submit" request.session_id
      require_session request.context.scope_id request.session_id
      existing ← find_request request.context.scope_id request.session_id key
      submit_found request key only existing

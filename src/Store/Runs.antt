-- ===== src/Store/Runs.antt =====
-- src/code_forge/persistence/sqlite_store.py: reading runs.
use code_forge.Prelude.{String, Bool, true, Option, none, some, nonempty, if◌then◌else◌}
use code_forge.Prelude.Tables.{find}
use code_forge.Json.{Json}
use code_forge.Contracts.{AcceptedRun, ExistingRequest}
use code_forge.Contracts.Result.{Result, ok, err, value_error, run_not_found}
use code_forge.StateMachine.{RunState}
use code_forge.Store.Schema.{Run, TextRef}
use code_forge.Store.Monad.{Tx, Env, pure, lift, select, or_raise, ◌>>=◌}
use code_forge.Store.Content.{read_message, read_object_json}
use code_forge.Store.Events.{base_for_session}
use code_forge.Store.Keys.{run_at, request_at}

-- A run with its bodies read, as `_decode_run` returns it. The columns of the references, which
-- the source drops from the result, are not to be read from `row`.
pub record RunView : Type 0 where
  pub row : Run
  pub execution_context : Option Json
  pub config_snapshot : Option Json
  pub input : Option Json
  pub output : Option Json
  pub error : Option Json

abbrev loaded : Option Json → Result (Option Json)
loaded none = err value_error
loaded (some j) = ok (some j)

-- `_parse_json`
abbrev parse_json : Env → Option String → Result (Option Json)
parse_json env none = ok none
parse_json env (some s) = if nonempty s then loaded (env.loads s) else ok none

abbrev pub ref_of : Option TextRef → Option String
ref_of none = none
ref_of (some t) = some t.ref

-- The state that the pure transitions work on.
abbrev pub state_of : Run → RunState
state_of r = record {
  run_id = r.id;
  status = r.status;
  state_version = r.state_version;
  task_outcome = r.task_outcome;
  wait_reason = r.wait_reason;
}

module _ (env : Env) where
  -- `_decode_run`
  unfoldable pub decode_run : Run → Tx RunView
  decode_run r = do
    execution_context ← lift (parse_json env (some r.execution_context))
    base ← base_for_session env r.session_id
    config_snapshot ← read_object_json env base (some r.config_snapshot.ref)
    input ← read_message env base (some r.input.ref)
    output ← read_message env base (ref_of r.output)
    error ← lift (parse_json env r.error)
    pure (record {
      row = r;
      execution_context = execution_context;
      config_snapshot = config_snapshot;
      input = input;
      output = output;
      error = error;
    })

  unfoldable pub decode_option : Option Run → Tx (Option RunView)
  decode_option none = pure none
  decode_option (some r) = do view ← decode_run r; pure (some view)

  -- `get_run`
  unfoldable pub get_run : String → String → Tx (Option RunView)
  get_run scope run_id = do
    found ← select (λ db. find (run_at scope run_id) db.runs)
    decode_option found

  -- `run_state`
  unfoldable pub run_state : String → String → Tx RunState
  run_state scope run_id = do
    found ← get_run scope run_id
    view ← or_raise found run_not_found
    pure (state_of view.row)

abbrev pub accepted : Run → Bool → AcceptedRun
accepted r reused = record {
  id = r.id;
  session_id = r.session_id;
  status = r.status;
  state_version = r.state_version;
  reused = reused;
}

abbrev pub existing_request : Option Run → Option ExistingRequest
existing_request none = none
existing_request (some r) =
    some (record { fingerprint = r.request_fingerprint; run = accepted r true })

-- `find_request`
unfoldable pub find_request : String → String → String → Tx (Option ExistingRequest)
find_request scope session_id key =
    select λ db. existing_request (find (request_at scope session_id key) db.runs)

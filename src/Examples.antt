-- ===== src/Examples.antt =====
-- The theorems at concrete inputs: a session in a workspace, with a run, and clocks that count.
mod Machine
mod Lives
mod Requests
mod Leases
mod Returns
mod Pages
mod Http
mod Contexts
mod Tools
use Prim.Native.String.{len, ◌++◌ as ◌<>◌}
use code_forge.Prelude.{
  ℤ, pos, ◌-◌, ℕ, zero, suc, String, Bool, true, false, Option, none, some, List, [], ◌∷◌, ◌==◌,
  not,
}
use code_forge.Json.{obj, field, str, end}
use code_forge.Contracts.{RunStatus, AuditFields}
use code_forge.Contracts.Binding.{PathLib, ExecutionContext}
use code_forge.Contracts.Requests.{RunRequest, RunSnapshot}
use code_forge.StateMachine.{RunState}
use code_forge.Store.Schema.{Workspace, Session, Run, TextRef, Db, empty_db}
use code_forge.Store.Monad.{Env, World}

abbrev pub tick : ℕ → String
tick zero = "t"
tick (suc n) = "t" <> tick n

abbrev pub paths : PathLib
paths = record {
  is_blank = λ s. s == "";
  has_nul = λ s. false;
  is_reference = λ s. not (s == "");
  is_absolute = λ s. true;
  resolve = λ s. some s;
  join = λ a b. a <> "/" <> b;
  parts = λ s. s ∷ [];
  of_parts = λ ps. "path";
  relative_to = λ a b. some a;
}

abbrev pub env : Env
env = record {
  clock = tick;
  uuid = tick;
  sha256 = λ s. s;
  dumps = λ j. "{}";
  dumps_compact = λ j. "{}";
  loads = λ s. some (obj (field "content" (str s) end));
  pad6 = tick;
  show = tick;
  int = λ s. some (pos (len s - 1));
  paths = paths;
  legacy_root = "/data";
  max_file_bytes = 1000;
}

abbrev pub audit : AuditFields
audit = record { date_created = "a"; created_by = "me"; date_updated = "a"; updated_by = "me" }

abbrev pub workspace : Workspace
workspace = record {
  id = "w";
  scope_id = "s";
  storage_ref = "workspace:w";
  storage_root = "";
  tenant_ref = "legacy-tenant:s";
  user_ref = "s";
  user_path = "";
  user_rel_path = "";
  project_ref = "legacy-project:w";
  project_path = "";
  current_revision = none;
  active_attempt_id = none;
  workspace_epoch = 0;
  lease_until = none;
  heartbeat_at = none;
  audit = audit;
}

abbrev pub session : Session
session = record {
  id = "c";
  scope_id = "s";
  workspace_id = "w";
  title = "chat";
  external_ref = none;
  thread_id = "thread:c";
  next_run_seq = 2;
  next_event_seq = 1;
  execution_epoch = 0;
  active_run_id = none;
  audit = audit;
}

abbrev pub body : String → TextRef
body ref = record { ref = ref; digest = "d"; size = 2 }

abbrev pub run : Run
run = record {
  id = "r";
  scope_id = "s";
  session_id = "c";
  workspace_id = "w";
  run_seq = 1;
  idempotency_key = "k";
  request_fingerprint = "f";
  input = body "";
  agent_ref = "agent";
  execution_context = "{}";
  config_snapshot = body "";
  status = RunStatus.queued;
  active_attempt_id = none;
  state_version = 0;
  task_outcome = none;
  wait_reason = none;
  output = none;
  error = none;
  cancel_requested_at = none;
  deadline_at = none;
  due_at = "a";
  next_event_seq = 1;
  audit = audit;
}

abbrev pub db_of : Workspace → Session → List Run → Db
db_of w s rs = record empty_db { workspaces = w ∷ []; sessions = s ∷ []; runs = rs }

abbrev pub world_of : Db → World
world_of db = record { db = db; files = []; calls = 0 }

-- A session with one queued run.
abbrev pub queued_world : World
queued_world = world_of (db_of workspace session (run ∷ []))

-- A session with no run yet.
abbrev pub new_world : World
new_world = world_of (db_of workspace session [])

abbrev pub request : RunRequest
request = record {
  session_id = "c";
  input = "hi";
  agent_ref = "agent";
  skills = [];
  context = record { scope_id = "s"; actor_ref = none; external_ref = none; user_binding = none };
  skill_paths = none;
}

abbrev pub snapshot : RunSnapshot
snapshot = record {
  agent_digest = "";
  runtime_ref = "";
  model_profile_ref = "";
  execution_profile_ref = "";
  skills = [];
  tool_refs = [];
  user_binding = none;
  effective_skill_paths = [];
  skill_path_source = "";
  path_digest = "";
}

-- A run that has been claimed.
abbrev pub state : RunState
state = record {
  run_id = "r";
  status = RunStatus.running;
  state_version = 1;
  task_outcome = none;
  wait_reason = none;
}

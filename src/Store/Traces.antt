-- ===== src/Store/Traces.antt =====
-- Any sequence of calls of the store's methods: the lock lets one call run at a time. A call that
-- raises ends only itself.
use code_forge.Prelude.{ℕ, String, Bool, Option, List, [], ◌∷◌}
use code_forge.Json.{Fields}
use code_forge.Contracts.{RunStatus, TaskOutcome, ToolStatus, EventType, WorkspaceCommit}
use code_forge.Contracts.Binding.{ExecutionContext}
use code_forge.Contracts.Requests.{RunRequest, RunSnapshot}
use code_forge.Store.Schema.{Db}
use code_forge.Store.Monad.{World, Env}
use code_forge.Store.Events.{append_event}
use code_forge.Store.Transitions.{transition_run, cancel_run}
use code_forge.Store.Responses.{respond_to_run}
use code_forge.Store.Tools.{ToolCall, prepare_tool, start_tool, append_tool_output, finish_tool}
use code_forge.Store.Sessions.{create_session, update_session_title}
use code_forge.Store.Accept.{accept_once}
use code_forge.Store.Claim.{claim_next_run}
use code_forge.Store.Revisions.{record_workspace_revision}
use code_forge.Store.Events.Rule.{Preserves-append_event}
use code_forge.Store.Respects.{Respects}
use code_forge.Store.Methods.Runs.{
  Preserves-transition_run, Preserves-cancel_run, Preserves-respond_to_run,
}
use code_forge.Store.Methods.Tools.{
  Preserves-prepare_tool, Preserves-start_tool, Preserves-append_tool_output, Preserves-finish_tool,
  Preserves-record_workspace_revision,
}
use code_forge.Store.Methods.Sessions.{
  Preserves-create_session, Preserves-update_session_title, Preserves-accept_once,
}
use code_forge.Store.Methods.Claim.{Preserves-claim_next_run}

-- A call of a method that writes.
pub data Call : Type 0 where
  create : String → String → String → Option String → ExecutionContext → Call
  rename : String → String → String → Call
  accept : RunRequest → String → String → RunSnapshot → Bool → Call
  claim : Option String → String → String → String → Call
  move :
      String
      → String
      → ℕ
      → RunStatus
      → Option TaskOutcome
      → Option String
      → Option String
      → Option Fields
      → Fields
      → Option String
      → Call
  cancel : String → String → Option String → Call
  respond : String → String → String → String → ℕ → String → String → Call
  append : String → String → EventType → Fields → String → Call
  prepare : String → String → ToolCall → String → Call
  start : String → String → String → Call
  output : String → String → String → String → Bool → String → Call
  finish :
      String → String → ToolStatus → Option String → Option Fields → String → Option String → Call
  commit : String → String → String → ℕ → WorkspaceCommit → String → Call

module _ (env : Env) where
  -- The world that a call leaves.
  unfoldable pub perform : Call → World → World
  perform (create scope key title external context) w =
      (create_session env scope key title external context w).1
  perform (rename session title actor) w = (update_session_title env session title actor w).1
  perform (accept request key fingerprint snapshot only) w =
      (accept_once env request key fingerprint snapshot only w).1
  perform (claim only worker now_iso lease) w = (claim_next_run env only worker now_iso lease w).1
  perform (move scope run version target outcome reason text error extra actor) w =
      (transition_run env scope run version target outcome reason text error extra actor w).1
  perform (cancel scope run actor) w = (cancel_run env scope run actor w).1
  perform (respond scope run pending key version answer actor) w =
      (respond_to_run env scope run pending key version answer actor w).1
  perform (append scope run event_type fields actor) w =
      (append_event env scope run event_type fields actor w).1
  perform (prepare scope run call actor) w = (prepare_tool env scope run call actor w).1
  perform (start scope operation actor) w = (start_tool env scope operation actor w).1
  perform (output scope operation stream text truncated actor) w =
      (append_tool_output env scope operation stream text truncated actor w).1
  perform (finish scope operation status result error actor revision) w =
      (finish_tool env scope operation status result error actor revision w).1
  perform (commit scope workspace attempt epoch c actor) w =
      (record_workspace_revision env scope workspace attempt epoch c actor w).1

  unfoldable pub perform_all : List Call → World → World
  unfolding perform
  perform_all [] w = w
  perform_all (c ∷ cs) w = perform_all cs (perform c w)

  module _ {R : Db → Db → Type 0} (L : Respects R) where
    pub perform-Respects : (c : Call) (w : World) → R w.db (perform c w).db
    unfolding perform
    perform-Respects (create a b c d e) w = (Preserves-create_session L env a b c d e).at w
    perform-Respects (rename a b c) w = (Preserves-update_session_title L env a b c).at w
    perform-Respects (accept a b c d e) w = (Preserves-accept_once L env a b c d e).at w
    perform-Respects (claim a b c d) w = (Preserves-claim_next_run L env a b c d).at w
    perform-Respects (move a b c d e f g h i j) w =
        (Preserves-transition_run L env a b c d e f g h i j).at w
    perform-Respects (cancel a b c) w = (Preserves-cancel_run L env a b c).at w
    perform-Respects (respond a b c d e f g) w = (Preserves-respond_to_run L env a b c d e f g).at w
    perform-Respects (append a b c d e) w =
        (Preserves-append_event ⦃c = L.closed⦄ ⦃s = L.events⦄ env a b c d e).at w
    perform-Respects (prepare a b c d) w = (Preserves-prepare_tool L env a b c d).at w
    perform-Respects (start a b c) w = (Preserves-start_tool L env a b c).at w
    perform-Respects (output a b c d e f) w = (Preserves-append_tool_output L env a b c d e f).at w
    perform-Respects (finish a b c d e f g) w = (Preserves-finish_tool L env a b c d e f g).at w
    perform-Respects (commit a b c d e f) w =
        (Preserves-record_workspace_revision L env a b c d e f).at w

    -- A relation that respects every statement holds from before to after any calls.
    pub perform_all-Respects : (cs : List Call) (w : World) → R w.db (perform_all cs w).db
    unfolding perform_all
    perform_all-Respects [] w = L.closed.same w.db
    perform_all-Respects (c ∷ cs) w =
        L.closed.two w.db (perform c w).db (perform_all cs (perform c w)).db (perform-Respects c w)
          (perform_all-Respects cs (perform c w))

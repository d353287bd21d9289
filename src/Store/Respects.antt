-- ===== src/Store/Respects.antt =====
-- What a relation between databases has to survive for every method of the store to preserve it:
-- one law for each statement that writes, with what the method knows at that point.
pub mod OfSessions
use code_forge.Prelude.{ℕ, String, ◌≡◌, true, Option, some, ◌∷◌, [], ◌++◌}
use code_forge.Prelude.Tables.{find}
use code_forge.Contracts.{RunStatus, TaskOutcome}
use code_forge.Contracts.Binding.{UserBinding}
use code_forge.Contracts.Result.{ok}
use code_forge.StateMachine.{Transition, transition}
use code_forge.Store.Schema.{
  Db, Run, Session, Workspace, SessionRequest, Revision, Attempt, ToolExecution, TextRef,
}
use code_forge.Store.Content.{ObjectRef}
use code_forge.Store.Keys.{run_at, session_fits, workspace_fits, run_fits}
use code_forge.Store.Runs.{state_of}
use code_forge.Store.Transitions.{
  set_state, end_attempt, free_session, free_workspace, drop_attempt,
}
use code_forge.Store.Responses.{resolve}
use code_forge.Store.Tools.{set_tool}
use code_forge.Store.Sessions.{SessionView, move_workspace, retitle}
use code_forge.Store.Accept.{count_run}
use code_forge.Store.Claim.{Claimable, first_eligible, occupy_session, lease_workspace, start_run}
use code_forge.Store.Revisions.{set_revision}
use code_forge.Store.Preserves.{Closed}
use code_forge.Store.Events.Rule.{Stores}

-- A row that is new and starts its counters.
pub record NewSession (d : Db) (x : Session) : Type 0 where
  pub fits : session_fits d x ≡ true
  pub first_event : x.next_event_seq ≡ 1

pub record NewRun (d : Db) (x : Run) : Type 0 where
  pub fits : run_fits d x ≡ true
  pub first_event : x.next_event_seq ≡ 1

-- Statements that write other tables than runs, sessions, workspaces and events.
pub record RespectsRest (R : Db → Db → Type 0) : Type 0 where
  pub insert_request :
      (d : Db) (x : SessionRequest)
      → R d (record d { session_requests = d.session_requests ++ x ∷ [] })
  pub insert_attempt : (d : Db) (x : Attempt) → R d (record d { attempts = d.attempts ++ x ∷ [] })
  pub insert_tool : (d : Db) (x : ToolExecution) → R d (record d { tools = d.tools ++ x ∷ [] })
  pub insert_revision :
      (d : Db) (x : Revision) → R d (record d { revisions = d.revisions ++ x ∷ [] })
  pub end_attempt :
      (d : Db) (scope : String) (attempt_id : Option String) (time actor : String)
      → R d (end_attempt scope attempt_id time actor d)
  pub set_tool :
      (d : Db) (scope operation_id : String) (f : ToolExecution → ToolExecution)
      → R d (set_tool scope operation_id f d)
  pub resolve :
      (d : Db) (scope run_id pending_id key digest : String) (file : ObjectRef)
      (resolved_at updated_at actor : String)
      → R d (resolve scope run_id pending_id key digest file resolved_at updated_at actor d)

pub record RespectsRuns (R : Db → Db → Type 0) : Type 0 where
  pub insert : (d : Db) (x : Run) → NewRun d x → R d (record d { runs = d.runs ++ x ∷ [] })
  pub set_state :
      (d : Db) (scope run_id : String) (run : Run) (target : RunStatus) (version : ℕ)
      (outcome : Option TaskOutcome) (reason : Option String) (x : Transition)
      (output : Option TextRef) (error : Option String) (time actor : String)
      → find (run_at scope run_id) d.runs ≡ some run
      → transition (state_of run) target version outcome reason ≡ ok x
      → R d (set_state scope version x.after output error time actor d)
  pub drop_attempt :
      (d : Db) (scope run_id time actor : String) → R d (drop_attempt scope run_id time actor d)
  -- the claimed run was chosen from the same table
  pub start :
      (before d : Db) (time : String) (only : Option String) (c : Claimable)
      (attempt_id now_iso lease_until actor : String)
      → first_eligible before time only before.runs ≡ some c
      → d.runs ≡ before.runs
      → R d (start_run c attempt_id now_iso lease_until actor d)

pub record RespectsSessions (R : Db → Db → Type 0) : Type 0 where
  pub insert :
      (d : Db) (x : Session) → NewSession d x → R d (record d { sessions = d.sessions ++ x ∷ [] })
  pub free :
      (d : Db) (scope run_id time actor : String) → R d (free_session scope run_id time actor d)
  pub count_run :
      (d : Db) (scope session_id : String) (view : SessionView) (time actor : String)
      → R d (count_run scope session_id view.session.next_run_seq time actor d)
  pub occupy :
      (before d : Db) (time : String) (only : Option String) (c : Claimable)
      (now_iso actor : String)
      → first_eligible before time only before.runs ≡ some c
      → d.sessions ≡ before.sessions
      → R d (occupy_session c now_iso actor d)
  pub retitle :
      (d : Db) (session_id title time actor : String) → R d (retitle session_id title time actor d)

pub record RespectsWorkspaces (R : Db → Db → Type 0) : Type 0 where
  pub insert :
      (d : Db) (x : Workspace)
      → workspace_fits d x ≡ true
      → R d (record d { workspaces = d.workspaces ++ x ∷ [] })
  pub move :
      (d : Db) (scope workspace_id : String) (b : UserBinding) (time actor : String)
      → R d (move_workspace scope workspace_id b time actor d)
  pub free :
      (d : Db) (scope workspace_id : String) (attempt_id : Option String) (time actor : String)
      → R d (free_workspace scope workspace_id attempt_id time actor d)
  pub lease :
      (d : Db) (c : Claimable) (attempt_id now_iso lease_until actor : String)
      → R d (lease_workspace c attempt_id now_iso lease_until actor d)
  pub set_revision :
      (d : Db) (scope workspace_id : String) (parent : Option String) (attempt_id : String)
      (epoch : ℕ) (revision time actor : String)
      → R d (set_revision scope workspace_id parent attempt_id epoch revision time actor d)

pub record Respects (R : Db → Db → Type 0) : Type 0 where
  pub closed : Closed R
  pub events : Stores R
  pub runs : RespectsRuns R
  pub sessions : RespectsSessions R
  pub workspaces : RespectsWorkspaces R
  pub rest : RespectsRest R

-- ===== src/Store/Methods/Sessions.antt =====
-- Creating sessions and accepting requests.
use code_forge.Prelude.{String, ◌≡◌, refl, Bool, true, false, Option, none, some}
use code_forge.Contracts.Result.{Failure, ok, integrity_error}
use code_forge.Contracts.Binding.{UserBinding, ExecutionContext}
use code_forge.Contracts.Requests.{RunRequest, RunSnapshot}
use code_forge.Store.Schema.{Db, Run, Session, Workspace, SessionRequest}
use code_forge.Store.Monad.{Env, ok_if, select, check, update}
use code_forge.Store.Content.{ObjectRef}
use code_forge.Store.Keys.{
  insert_workspace, insert_session, insert_session_request, insert_run, workspace_fits,
  session_fits, run_fits,
}
use code_forge.Store.Sessions.{
  project_workspace, workspace_for, session_of_request, create_session, update_session_title,
  get_session, get_session_unscoped, new_session, SessionView,
}
use code_forge.Store.Accept.{
  log_run, store_run, accept_new, accept_again, accept_found, accept_once, run_row,
}
use code_forge.Store.Preserves.{Closed, Preserves, bind_at, Preserves-update, preserves_rules}
use code_forge.Store.Events.Rule.{Stores, Preserves-insert_event_locked}
use code_forge.Store.Respects.{Respects}

pub ok_if-ok : (b : Bool) (e : Failure) {u : Unit {0}} → ok_if b e ≡ ok u → b ≡ true
ok_if-ok true e h = refl
ok_if-ok false e h = cc

module _ {R : Db → Db → Type 0} (L : Respects R) (env : Env) where
  instance closed : Closed R
  closed = L.closed

  instance stored : Stores R
  stored = L.events

  Preserves-insert_workspace : (x : Workspace) → Preserves R (insert_workspace x)
  unfolding insert_workspace select check update
  Preserves-insert_workspace x = record {
    at = λ w.
        bind_at R w (check (workspace_fits w.db x) integrity_error) _ (closed.same w.db)
          λ _ e. L.workspaces.insert w.db x (ok_if-ok _ _ e);
  }

  Preserves-insert_session : (x : Session) → x.next_event_seq ≡ 1 → Preserves R (insert_session x)
  unfolding insert_session select check update
  Preserves-insert_session x h = record {
    at = λ w.
        bind_at R w (check (session_fits w.db x) integrity_error) _ (closed.same w.db)
          λ _ e. L.sessions.insert w.db x (record { fits = ok_if-ok _ _ e; first_event = h });
  }

  Preserves-insert_run : (x : Run) → x.next_event_seq ≡ 1 → Preserves R (insert_run x)
  unfolding insert_run select check update
  Preserves-insert_run x h = record {
    at = λ w.
        bind_at R w (check (run_fits w.db x) integrity_error) _ (closed.same w.db)
          λ _ e. L.runs.insert w.db x (record { fits = ok_if-ok _ _ e; first_event = h });
  }

  Preserves-insert_session_request : (x : SessionRequest) → Preserves R (insert_session_request x)
  unfolding insert_session_request
  Preserves-insert_session_request x =
      search (preserves_rules, Preserves-update, L.rest.insert_request)

  Preserves-project_workspace :
      (scope : String) (b : UserBinding) (time actor : String) (o : Option Workspace)
      → Preserves R (project_workspace env scope b time actor o)
  unfolding project_workspace
  Preserves-project_workspace scope b time actor none =
      search (preserves_rules, Preserves-insert_workspace)
  Preserves-project_workspace scope b time actor (some w) =
      search (preserves_rules, Preserves-update, L.workspaces.move) depth 10

  Preserves-workspace_for :
      (scope : String) (o : Option UserBinding) (time actor : String)
      → Preserves R (workspace_for env scope o time actor)
  unfolding workspace_for
  Preserves-workspace_for scope none time actor =
      search (preserves_rules, Preserves-insert_workspace)
  Preserves-workspace_for scope (some b) time actor =
      search (preserves_rules, Preserves-project_workspace)

  Preserves-session_of_request :
      (scope key title : String) (external_ref : Option String) (context : ExecutionContext)
      (time : String) (o : Option SessionRequest)
      → Preserves R (session_of_request env scope key title external_ref context time o)
  unfolding session_of_request new_session
  Preserves-session_of_request scope key title external_ref context time (some r) =
      search preserves_rules
  Preserves-session_of_request scope key title external_ref context time none =
      search
        (preserves_rules, Preserves-workspace_for, Preserves-insert_session_request, first_session)
        depth 20
    where
      first_session :
          (id workspace_id actor : String)
          → Preserves R
              (insert_session (new_session id scope workspace_id title external_ref time actor))
      first_session id workspace_id actor =
          Preserves-insert_session (new_session id scope workspace_id title external_ref time actor)
            refl

  pub Preserves-create_session :
      (scope key title : String) (external_ref : Option String) (context : ExecutionContext)
      → Preserves R (create_session env scope key title external_ref context)
  unfolding create_session get_session
  Preserves-create_session scope key title external_ref context =
      search (preserves_rules, Preserves-session_of_request) depth 10

  pub Preserves-update_session_title :
      (session_id title actor : String)
      → Preserves R (update_session_title env session_id title actor)
  unfolding update_session_title get_session_unscoped
  Preserves-update_session_title session_id title actor =
      search (preserves_rules, Preserves-update, L.sessions.retitle) depth 10

  pub Preserves-log_run :
      (request : RunRequest) (view : SessionView) (stored : ObjectRef) (time : String) (x : Run)
      → Preserves R (log_run env request view stored time x)
  unfolding log_run
  Preserves-log_run request view stored time x =
      search
        (preserves_rules, Preserves-insert_event_locked, Preserves-update, L.sessions.count_run)
        depth 30

  Preserves-store_run :
      (request : RunRequest) (view : SessionView) (stored : ObjectRef) (time : String) (x : Run)
      → x.next_event_seq ≡ 1
      → Preserves R (store_run env request view stored time x)
  unfolding store_run
  Preserves-store_run request view stored time x first =
      search (preserves_rules, Preserves-insert_run, Preserves-log_run)

  Preserves-accept_found :
      (request : RunRequest) (key fingerprint : String) (snapshot : RunSnapshot) (only : Bool)
      (time : String) (o : Option Run)
      → Preserves R (accept_found env request key fingerprint snapshot only time o)
  unfolding accept_found accept_new accept_again run_row
  Preserves-accept_found request key fingerprint snapshot only time none =
      search (preserves_rules, Preserves-store_run) depth 30
  Preserves-accept_found request key fingerprint snapshot only time (some r) =
      search preserves_rules

  pub Preserves-accept_once :
      (request : RunRequest) (key fingerprint : String) (snapshot : RunSnapshot) (only : Bool)
      → Preserves R (accept_once env request key fingerprint snapshot only)
  unfolding accept_once
  Preserves-accept_once request key fingerprint snapshot only =
      search (preserves_rules, Preserves-accept_found) depth 10

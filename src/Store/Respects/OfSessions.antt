-- ===== src/Store/Respects/OfSessions.antt =====
-- Relations that depend on the sessions and the events of two databases only.
use code_forge.Prelude.{◌≡◌, refl, Bool, [], ◌∷◌, ◌++◌}
use code_forge.Prelude.Tables.{update_where}
use code_forge.Store.Schema.{Db, Session}
use code_forge.Store.Transitions.{
  end_attempt, free_session, free_workspace, drop_attempt, set_state,
}
use code_forge.Store.Responses.{resolve}
use code_forge.Store.Tools.{set_tool}
use code_forge.Store.Sessions.{retitle, move_workspace}
use code_forge.Store.Accept.{count_run}
use code_forge.Store.Claim.{occupy_session, lease_workspace, start_run}
use code_forge.Store.Revisions.{set_revision}
use code_forge.Store.Preserves.{Closed}
use code_forge.Store.Events.Rule.{Stores}
use code_forge.Store.Respects.{NewSession, Respects}

-- Such a relation survives every statement when it survives these.
pub record SessionLaws (R : Db → Db → Type 0) : Type 0 where
  pub closed : Closed R
  pub events : Stores R
  pub same : (d e : Db) → e.sessions ≡ d.sessions → e.events ≡ d.events → R d e
  pub insert :
      (d : Db) (x : Session) → NewSession d x → R d (record d { sessions = d.sessions ++ x ∷ [] })
  -- an UPDATE of sessions that keeps keys and event numbers
  pub update :
      (d : Db) (p : Session → Bool) (f : Session → Session)
      → ((s : Session) → (f s).id ≡ s.id)
      → ((s : Session) → (f s).scope_id ≡ s.scope_id)
      → ((s : Session) → (f s).next_event_seq ≡ s.next_event_seq)
      → R d (record d { sessions = update_where p f d.sessions })

pub SessionLaws-Respects : {R : Db → Db → Type 0} → SessionLaws R → Respects R
unfolding end_attempt free_session free_workspace set_tool resolve count_run occupy_session retitle
    move_workspace lease_workspace set_revision set_state drop_attempt start_run
SessionLaws-Respects laws = record {
  closed = laws.closed;
  events = laws.events;
  runs = record {
    insert = λ d x _. laws.same _ _ refl refl;
    set_state = λ d scope run_id run target version outcome reason x output error time actor _ _.
        laws.same _ _ refl refl;
    drop_attempt = λ d scope run_id time actor. laws.same _ _ refl refl;
    start =
        λ before d time only c attempt_id now_iso lease_until actor _ _. laws.same _ _ refl refl;
  };
  sessions = record {
    insert = laws.insert;
    free = λ d scope run_id time actor. laws.update _ _ _ (λ s. refl) (λ s. refl) (λ s. refl);
    count_run =
        λ d scope session_id view time actor. laws.update _ _ _ (λ s. refl) (λ s. refl) (λ s. refl);
    occupy = λ before d time only c now_iso actor _ _.
        laws.update _ _ _ (λ s. refl) (λ s. refl) (λ s. refl);
    retitle =
        λ d session_id title time actor. laws.update _ _ _ (λ s. refl) (λ s. refl) (λ s. refl);
  };
  workspaces = record {
    insert = λ d x _. laws.same _ _ refl refl;
    move = λ d scope workspace_id b time actor. laws.same _ _ refl refl;
    free = λ d scope workspace_id attempt_id time actor. laws.same _ _ refl refl;
    lease = λ d c attempt_id now_iso lease_until actor. laws.same _ _ refl refl;
    set_revision =
        λ d scope workspace_id parent attempt_id epoch revision time actor. laws.same _ _ refl refl;
  };
  rest = record {
    insert_request = λ d x. laws.same _ _ refl refl;
    insert_attempt = λ d x. laws.same _ _ refl refl;
    insert_tool = λ d x. laws.same _ _ refl refl;
    insert_revision = λ d x. laws.same _ _ refl refl;
    end_attempt = λ d scope attempt_id time actor. laws.same _ _ refl refl;
    set_tool = λ d scope operation_id f. laws.same _ _ refl refl;
    resolve = λ d scope run_id pending_id key digest file resolved_at updated_at actor.
        laws.same _ _ refl refl;
  };
}

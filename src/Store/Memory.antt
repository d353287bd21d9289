-- ===== src/Store/Memory.antt =====
-- The run that an idempotency key made is found by the key after any calls.
use code_forge.Prelude.{
  ℕ, String, ◌≡◌, ◌∙◌, refl, Bool, some, [], ◌∷◌, ◌++◌, Bool-cases, inl, inr, if◌then◌else◌,
}
use code_forge.Prelude.Tables.{find, find-append, find-update_where, update_where}
use code_forge.Store.Schema.{Db, Run}
use code_forge.Store.Keys.{request_at}
use code_forge.Store.Events.{event_stored, count_run_event}
use code_forge.Store.Transitions.{
  end_attempt, free_session, free_workspace, drop_attempt, set_state,
}
use code_forge.Store.Responses.{resolve}
use code_forge.Store.Tools.{set_tool}
use code_forge.Store.Sessions.{retitle, move_workspace}
use code_forge.Store.Accept.{count_run}
use code_forge.Store.Claim.{occupy_session, lease_workspace, start_run}
use code_forge.Store.Revisions.{set_revision}
use code_forge.Store.Preserves.{Closed}
use code_forge.Store.Respects.{Respects}

-- The same request under the same id.
pub record SameRequest (r s : Run) : Type 0 where
  pub id : s.id ≡ r.id
  pub fingerprint : s.request_fingerprint ≡ r.request_fingerprint

pub SameRequest-refl : (r : Run) → SameRequest r r
SameRequest-refl r = record { id = refl; fingerprint = refl }

pub record Remembers (d e : Db) : Type 0 where
  pub at :
      (scope session_id key : String) (r : Run)
      → find (request_at scope session_id key) d.runs ≡ some r
      → (s : Run) × (find (request_at scope session_id key) e.runs ≡ some s) × SameRequest r s

instance pub Remembers-Closed : Closed Remembers
Remembers-Closed = record {
  same = λ d. record { at = λ scope session_id key r h. (r, h, SameRequest-refl r) };
  two = λ a b c p q. record {
    at = λ scope session_id key r h.
        let (s, hs, es) = p.at scope session_id key r h in
        let (t, ht, et) = q.at scope session_id key s hs in
        (t, ht, record { id = et.id ∙ es.id; fingerprint = et.fingerprint ∙ es.fingerprint });
  };
}

Remembers-same : (d e : Db) → e.runs ≡ d.runs → Remembers d e
Remembers-same d e h = record { at = λ scope session_id key r f. (r, rw h f, SameRequest-refl r) }

pub Remembers-insert : (d : Db) (x : Run) → Remembers d (record d { runs = d.runs ++ x ∷ [] })
Remembers-insert d x = record {
  at = λ scope session_id key r h. (
    r,
    rw (find-append (request_at scope session_id key) d.runs (x ∷ [])) (rw h refl),
    SameRequest-refl r,
  );
}

-- An UPDATE of runs that leaves what `accept_once` looks for.
Remembers-update :
    (d : Db) (p : Run → Bool) (f : Run → Run)
    → ((scope session_id key : String) (r : Run)
        → request_at scope session_id key (f r) ≡ request_at scope session_id key r)
    → ((r : Run) → SameRequest r (f r))
    → Remembers d (record d { runs = update_where p f d.runs })
Remembers-update d p f keys same = record {
  at = λ scope session_id key r h. (
    if p r then f r else r,
    rw (find-update_where (request_at scope session_id key) p f d.runs (keys scope session_id key))
        (rw h refl),
    elim (Bool-cases (p r)) [ inl e ↦ rw e (same r) | inr e ↦ rw e (SameRequest-refl r) ],
  );
}

same_request :
    {r s : Run} → s.id ≡ r.id → s.request_fingerprint ≡ r.request_fingerprint → SameRequest r s
same_request i f = record { id = i; fingerprint = f }

counted :
    (d : Db) (scope run_id : String) (seq : ℕ) (time actor : String)
    → Remembers d (count_run_event scope run_id seq time actor d)
unfolding count_run_event
counted d scope run_id seq time actor =
    Remembers-update d _ _ (λ a b c r. refl) (λ r. same_request refl refl)

pub Remembers-Respects : Respects Remembers
unfolding event_stored count_run_event end_attempt free_session free_workspace set_tool resolve
    count_run occupy_session retitle move_workspace lease_workspace set_revision set_state
    drop_attempt start_run
Remembers-Respects = record {
  closed = Remembers-Closed;
  events = record {
    event = λ d scope run_id run session row time actor _ _ _ _ _ _ _.
        Remembers-Closed.two _ _ _ (counted d scope run.id run.next_event_seq time actor)
          (Remembers-same _ _ refl);
  };
  runs = record {
    insert = λ d x _. Remembers-insert d x;
    set_state = λ d scope run_id run target version outcome reason x output error time actor _ _.
        Remembers-update d _ _ (λ a b c r. refl) (λ r. same_request refl refl);
    drop_attempt = λ d scope run_id time actor.
        Remembers-update d _ _ (λ a b c r. refl) (λ r. same_request refl refl);
    start = λ before d time only c attempt_id now_iso lease_until actor _ _.
        Remembers-update d _ _ (λ a b c r. refl) (λ r. same_request refl refl);
  };
  sessions = record {
    insert = λ d x _. Remembers-same _ _ refl;
    free = λ d scope run_id time actor. Remembers-same _ _ refl;
    count_run = λ d scope session_id view time actor. Remembers-same _ _ refl;
    occupy = λ before d time only c now_iso actor _ _. Remembers-same _ _ refl;
    retitle = λ d session_id title time actor. Remembers-same _ _ refl;
  };
  workspaces = record {
    insert = λ d x _. Remembers-same _ _ refl;
    move = λ d scope workspace_id b time actor. Remembers-same _ _ refl;
    free = λ d scope workspace_id attempt_id time actor. Remembers-same _ _ refl;
    lease = λ d c attempt_id now_iso lease_until actor. Remembers-same _ _ refl;
    set_revision =
        λ d scope workspace_id parent attempt_id epoch revision time actor. Remembers-same _ _ refl;
  };
  rest = record {
    insert_request = λ d x. Remembers-same _ _ refl;
    insert_attempt = λ d x. Remembers-same _ _ refl;
    insert_tool = λ d x. Remembers-same _ _ refl;
    insert_revision = λ d x. Remembers-same _ _ refl;
    end_attempt = λ d scope attempt_id time actor. Remembers-same _ _ refl;
    set_tool = λ d scope operation_id f. Remembers-same _ _ refl;
    resolve = λ d scope run_id pending_id key digest file resolved_at updated_at actor.
        Remembers-same _ _ refl;
  };
}

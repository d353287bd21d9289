-- ===== src/Store/Answers.antt =====
-- What answering a waiting run leaves of its session.
use code_forge.Prelude.{
  ℕ, ◌+◌, String, ◌≡◌, ◌∙◌, refl, Option, none, some, arith, Bool-cases, inl, inr, if◌then◌else◌,
}
use code_forge.Prelude.Tables.{find, find-update_where}
use code_forge.Contracts.{RunStatus}
use code_forge.StateMachine.{RunState}
use code_forge.Store.Schema.{Db, Run, Session, Workspace, TextRef}
use code_forge.Store.Monad.{World, Env}
use code_forge.Store.Keys.{session_at}
use code_forge.Store.Events.{
  touch, event_stored, count_run_event, count_session_event, base_for_session,
}
use code_forge.Store.Events.Rule.{Stores, Preserves-insert_event_locked}
use code_forge.Store.Content.{ObjectRef}
use code_forge.Store.Runs.{decode_run, decode_option, get_run}
use code_forge.Store.Sessions.{with_workspace}
use code_forge.Store.Claim.{eligible, is_due, if_idle}
use code_forge.Store.Transitions.{set_state, write_output, transition_run_locked}
use code_forge.Store.Responses.{resolve, answer_pending, answer_again, respond_to_run, PendingRow}
use code_forge.Store.Preserves.{Closed, Preserves, Preserves-update, preserves_rules}

-- Every session stays, with the run that it has as its active one.
pub record KeepsActive (d e : Db) : Type 0 where
  pub at :
      (scope id : String) (s : Session)
      → find (session_at scope id) d.sessions ≡ some s
      → (t : Session) × (find (session_at scope id) e.sessions ≡ some t)
        × (t.active_run_id ≡ s.active_run_id)

instance KeepsActive-Closed : Closed KeepsActive
KeepsActive-Closed = record {
  same = λ d. record { at = λ scope id s h. (s, h, refl) };
  two = λ a b c p q. record {
    at = λ scope id s h.
        let (t, ht, et) = p.at scope id s h in
        let (u, hu, eu) = q.at scope id t ht in (u, hu, eu ∙ et);
  };
}

same_sessions : (d e : Db) → e.sessions ≡ d.sessions → KeepsActive d e
same_sessions d e h = record { at = λ scope id s f. (s, rw h f, refl) }

module _ (d : Db) (scope session_id : String) (seq : ℕ) (time actor : String) where
  abbrev counts : Session → Session
  counts s = record s { next_event_seq = seq + 1; audit = touch s.audit time actor }

  counted : KeepsActive d (count_session_event scope session_id seq time actor d)
  unfolding count_session_event
  counted = record {
    at = λ scope' id s h. (
      if session_at scope session_id s then counts s else s,
      rw
          (find-update_where (session_at scope' id) (session_at scope session_id) counts d.sessions
            (λ s. refl))
          (rw h refl),
      ground arith,
    );
  }

instance KeepsActive-Stores : Stores KeepsActive
unfolding event_stored count_run_event
KeepsActive-Stores = record {
  event = λ d scope run_id run session row time actor _ _ _ _ _ _ _.
      KeepsActive-Closed.two _ _ _ (same_sessions d _ refl)
        (counted _ scope run.session_id session.next_event_seq time actor);
}

module _ (env : Env) where
  kept_by_base : (session_id : String) → Preserves KeepsActive (base_for_session env session_id)
  unfolding base_for_session
  kept_by_base session_id = search preserves_rules

  kept_by_decode : (r : Run) → Preserves KeepsActive (decode_run env r)
  unfolding decode_run
  kept_by_decode r = search (preserves_rules, kept_by_base) depth 20

  kept_by_decode_option : (o : Option Run) → Preserves KeepsActive (decode_option env o)
  unfolding decode_option
  kept_by_decode_option none = search preserves_rules
  kept_by_decode_option (some r) = search (preserves_rules, kept_by_decode)

  kept_by_get : (scope run_id : String) → Preserves KeepsActive (get_run env scope run_id)
  unfolding get_run
  kept_by_get scope run_id = search (preserves_rules, kept_by_decode_option)

  kept_by_output :
      (run : Run) (output : Option String) → Preserves KeepsActive (write_output env run output)
  unfolding write_output
  kept_by_output run none = search preserves_rules
  kept_by_output run (some text) = search (preserves_rules, kept_by_base) depth 20

  set_state-KeepsActive :
      (scope : String) (version : ℕ) (after : RunState) (file : Option TextRef)
      (error : Option String) (time actor : String) (d : Db)
      → KeepsActive d (set_state scope version after file error time actor d)
  unfolding set_state
  set_state-KeepsActive scope version after file error time actor d = same_sessions d _ refl

  resolve-KeepsActive :
      (scope run_id pending_id key digest : String) (file : ObjectRef)
      (resolved_at updated_at actor : String) (d : Db)
      → KeepsActive d
          (resolve scope run_id pending_id key digest file resolved_at updated_at actor d)
  unfolding resolve
  resolve-KeepsActive scope run_id pending_id key digest file resolved_at updated_at actor d =
      same_sessions d _ refl

  kept_by_transition :
      (scope run_id : String) (target : RunStatus) (version : ℕ) (actor : String)
      → Preserves KeepsActive
          (transition_run_locked env scope run_id target version none none none none actor)
  unfolding transition_run_locked
  kept_by_transition scope run_id target version actor =
      search
        (
          preserves_rules, kept_by_output, Preserves-update, set_state-KeepsActive,
          Preserves-insert_event_locked,
        )
        depth 30

  kept_by_answer :
      (scope run_id pending_id key : String) (version : ℕ) (answer actor : String)
      (row : PendingRow)
      → Preserves KeepsActive
          (answer_pending env scope run_id pending_id key version answer actor row)
  unfolding answer_pending
  kept_by_answer scope run_id pending_id key version answer actor row =
      search
        (preserves_rules, kept_by_base, Preserves-update, resolve-KeepsActive, kept_by_transition)
        depth 30

  kept_by_again :
      (key answer : String) (row : PendingRow)
      → Preserves KeepsActive (answer_again env key answer row)
  unfolding answer_again
  kept_by_again key answer row = search preserves_rules

  kept_by_respond :
      (scope run_id pending_id key : String) (version : ℕ) (answer actor : String)
      → Preserves KeepsActive (respond_to_run env scope run_id pending_id key version answer actor)
  unfolding respond_to_run
  kept_by_respond scope run_id pending_id key version answer actor =
      search (preserves_rules, kept_by_answer, kept_by_again, kept_by_get) depth 20

not_idle :
    (r : Run) (s : Session) (x : String) (o : Option Workspace)
    → s.active_run_id ≡ some x
    → if_idle r (with_workspace s o) ≡ none
not_idle r s x none h = refl
not_idle r s x (some v) h = rw h refl

-- While a session has an active run, none of its runs is eligible.
pub active-eligible :
    (d : Db) (now_iso : String) (only : Option String) (r : Run) (s : Session) (x : String)
    → find (session_at r.scope_id r.session_id) d.sessions ≡ some s
    → s.active_run_id ≡ some x
    → eligible d now_iso only r ≡ none
unfolding eligible
active-eligible d now_iso only r s x found active = elim (Bool-cases (is_due d now_iso only r)) [
  | inl e ↦ rw (e, found) (not_idle r s x _ active)
  | inr e ↦ rw e refl
]

-- Answering a run, whether it returns or raises, leaves its session's active run set: where the
-- session had an active run before, none of its runs can be claimed right after, the answered and
-- requeued one included.
pub answered_stays_unclaimed :
    (env : Env) (scope run_id pending_id key : String) (version : ℕ) (answer actor : String)
    (w : World) (r : Run) (s : Session) (x now_iso : String) (only : Option String)
    → find (session_at r.scope_id r.session_id) w.db.sessions ≡ some s
    → s.active_run_id ≡ some x
    → eligible
        (respond_to_run env scope run_id pending_id key version answer actor w).1.db
        now_iso
        only
        r
      ≡ none
answered_stays_unclaimed env scope run_id pending_id key version answer actor w r s x now_iso only
      found active =
    let (t, there, same) =
      ((kept_by_respond env scope run_id pending_id key version answer actor).at w).at r.scope_id
        r.session_id s found in
    active-eligible _ now_iso only r t x there (same ∙ active)

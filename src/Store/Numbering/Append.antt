-- ===== src/Store/Numbering/Append.antt =====
-- Every statement of the store keeps the numbering.
use mathlib.Core.Option
use mathlib.Core.Path.{subst}
use code_forge.Prelude.{
  ℕ, suc, ◌+◌, String, ◌≡◌, ◌∙◌, refl, sym, Bool, true, false, Option, none, some, List, [], ◌∷◌,
  ◌++◌, arith, eq_iff, Bool-cases, inl, inr, if◌then◌else◌,
}
use code_forge.Prelude.Tables.{find, find_sound, find-update_where}
use code_forge.Store.Schema.{Db, Run, Session, RunEvent}
use code_forge.Store.Keys.{run_at, session_at}
use code_forge.Store.Events.{touch, event_stored, count_run_event, count_session_event}
use code_forge.Store.Respects.{Respects}
use code_forge.Store.Respects.OfSessions.{SessionLaws-Respects}
use code_forge.Store.Numbering.{
  in_session, session_seqs, first_numbers, Expected, Numbers, Numbers-Closed, Numbers-same,
  Numbers-update, inserted,
}

session_seqs-snoc :
    (scope id : String) (es : List RunEvent) (x : RunEvent)
    → in_session scope id x ≡ true
    → session_seqs scope id (es ++ x ∷ []) ≡ session_seqs scope id es ++ x.session_seq ∷ []
unfolding session_seqs
session_seqs-snoc scope id [] x h = ground arith
session_seqs-snoc scope id (e ∷ es) x h = ground (arith, session_seqs-snoc scope id es x h)

session_seqs-other :
    (scope id : String) (es : List RunEvent) (x : RunEvent)
    → in_session scope id x ≡ false
    → session_seqs scope id (es ++ x ∷ []) ≡ session_seqs scope id es
unfolding session_seqs
session_seqs-other scope id [] x h = ground arith
session_seqs-other scope id (e ∷ es) x h = ground (arith, session_seqs-other scope id es x h)

module _ (p : Session → Bool) (f : Session → Session) where
  -- The session of the event counts on.
  Expected-next :
      (s : Session) (ns : List ℕ)
      → p s ≡ true
      → (f s).next_event_seq ≡ s.next_event_seq + 1
      → Expected (some s) ns
      → Expected (Option.map (λ s. if p s then f s else s) (some s)) (ns ++ s.next_event_seq ∷ [])
  unfolding first_numbers
  Expected-next s ns h next (n, e, seqs) = rw h (suc n, omega arith, rw (e, seqs) refl)

  -- Another session does not.
  Expected-other :
      (o : Option Session) (ns : List ℕ)
      → ((s : Session) → o ≡ some s → p s ≡ false)
      → Expected o ns
      → Expected (Option.map (λ s. if p s then f s else s) o) ns
  Expected-other none ns out h = h
  Expected-other (some s) ns out h = rw (out s refl) h

-- The event's own session, and no other, counts on.
module _ (d : Db) (scope run_id : String) (run : Run) (session : Session) (row : RunEvent)
    (time actor : String) (found : find (run_at scope run_id) d.runs ≡ some run)
    (joined : find (session_at run.scope_id run.session_id) d.sessions ≡ some session)
    (same_scope : row.scope_id ≡ scope) (same_session : row.session_id ≡ run.session_id)
    (numbered : row.session_seq ≡ session.next_event_seq) where
  run_scope : run.scope_id ≡ scope
  run_scope =
      (eq_iff run.scope_id scope).0
        (ground (arith, find_sound (run_at scope run_id) d.runs run found))

  at_row : session_at scope run.session_id session ≡ true
  at_row =
      rw (← run_scope)
        (find_sound (session_at run.scope_id run.session_id) d.sessions session joined)

  apart :
      (scope' id' : String) (s : Session)
      → in_session scope' id' row ≡ false
      → find (session_at scope' id') d.sessions ≡ some s
      → session_at scope run.session_id s ≡ false
  apart scope' id' s out h =
      let k = find_sound (session_at scope' id') d.sessions s h in
      let a = (eq_iff s.scope_id scope').0 (ground arith) in
      let b = (eq_iff s.id id').0 (ground arith) in
      rw (a, b, ← same_scope, ← same_session)
        (ground (
          arith,
          out,
          eq_iff scope' row.scope_id,
          eq_iff row.scope_id scope',
          eq_iff id' row.session_id,
          eq_iff row.session_id id',
        ))

  abbrev counts : Session → Session
  counts s = record s {
    next_event_seq = session.next_event_seq + 1;
    audit = touch s.audit time actor;
  }

  inside :
      (scope' id' : String)
      → in_session scope' id' row ≡ true
      → Expected (find (session_at scope' id') d.sessions) (session_seqs scope' id' d.events)
      → Expected
          (Option.map
            (λ s. if session_at scope run.session_id s then counts s else s)
            (find (session_at scope' id') d.sessions))
          (session_seqs scope' id' (d.events ++ row ∷ []))
  inside scope' id' e h =
      let a : scope' ≡ run.scope_id =
        sym ((eq_iff row.scope_id scope').0 (ground arith)) ∙ same_scope ∙ sym run_scope in
      let b : id' ≡ run.session_id =
        sym ((eq_iff row.session_id id').0 (ground arith)) ∙ same_session in
      let there : find (session_at scope' id') d.sessions ≡ some session = rw (a, b) joined in
      rw (there, session_seqs-snoc scope' id' d.events row e, numbered)
        (Expected-next (session_at scope run.session_id) counts session _ at_row refl
          (subst (λ o. Expected o (session_seqs scope' id' d.events)) there h))

  stored : Numbers d (event_stored scope run session row time actor d)
  unfolding event_stored count_run_event count_session_event
  stored = record {
    keep = λ h. record {
      at = λ scope' id'.
          rw
            (find-update_where (session_at scope' id') (session_at scope run.session_id) counts
              d.sessions (λ s. refl))
            (elim (Bool-cases (in_session scope' id' row)) [
              | inl e ↦ inside scope' id' e (h.at scope' id')
              | inr e ↦ rw (session_seqs-other scope' id' d.events row e) (
                  Expected-other (session_at scope run.session_id) counts _ _
                    (λ s. apart scope' id' s e) (h.at scope' id'))
            ]);
    };
  }

pub Numbers-Respects : Respects Numbers
Numbers-Respects = SessionLaws-Respects (record {
  closed = Numbers-Closed;
  events = record {
    event = λ d scope run_id run session row time actor found joined a b c e f.
        stored d scope run_id run session row time actor found joined a c f;
  };
  same = Numbers-same;
  insert = inserted;
  update = Numbers-update;
})

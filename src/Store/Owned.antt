-- ===== src/Store/Owned.antt =====
-- Session ids are unique across scopes, and every event is of a session of its scope.
use mathlib.Core.Option
use mathlib.Core.Path.{subst}
use code_forge.Prelude.{
  String, ◌≡◌, ◌∙◌, ap, refl, sym, Bool, false, ◌||◌, Option, none, some, List, [], ◌∷◌, ◌++◌,
  arith, eq_iff, ◌==◌, Bool-cases, inl, inr, if◌then◌else◌,
}
use code_forge.Prelude.Tables.{
  find, find_sound, find-append, find-none, find-update_where, update_where, exists, or_else,
}
use code_forge.Store.Schema.{Db, Run, Session, RunEvent}
use code_forge.Store.Keys.{run_at, session_at, session_fits}
use code_forge.Store.Events.{event_stored, count_run_event, count_session_event}
use code_forge.Store.Preserves.{Closed}
use code_forge.Store.Respects.{NewSession, Respects}
use code_forge.Store.Respects.OfSessions.{SessionLaws-Respects}

-- WHERE id = ?
abbrev pub has_id : String → Session → Bool
has_id id s = s.id == id

abbrev pub HasOwners : List Session → List RunEvent → Type 0
HasOwners ss [] = Unit {0}
HasOwners ss (e ∷ es) =
    ((s : Session) × (find (has_id e.session_id) ss ≡ some s) × (s.scope_id ≡ e.scope_id))
    × HasOwners ss es

pub record IsOwned (d : Db) : Type 0 where
  pub one :
      (scope id : String) (s : Session)
      → find (session_at scope id) d.sessions ≡ some s
      → find (has_id id) d.sessions ≡ some s
  pub owners : HasOwners d.sessions d.events

-- The invariant survives.
pub record Owns (d e : Db) : Type 0 where
  pub keep : IsOwned d → IsOwned e

Owns-Closed : Closed Owns
Owns-Closed = record {
  same = λ d. record { keep = λ h. h };
  two = λ a b c p q. record { keep = λ h. q.keep (p.keep h) };
}

Owns-same : (d e : Db) → e.sessions ≡ d.sessions → e.events ≡ d.events → Owns d e
Owns-same d e s v = record {
  keep = λ h. record {
    one = λ scope id x f. rw s (h.one scope id x (rw (← s) f));
    owners = rw (s, v) h.owners;
  };
}

module _ (p : Session → Bool) (f : Session → Session) (ids : (s : Session) → (f s).id ≡ s.id)
    (scopes : (s : Session) → (f s).scope_id ≡ s.scope_id) where
  abbrev changed : Session → Session
  changed s = if p s then f s else s

  scope_changed : (s : Session) → (changed s).scope_id ≡ s.scope_id
  scope_changed s = elim (Bool-cases (p s)) [ inl e ↦ rw e (scopes s) | inr e ↦ rw e refl ]

  one_updated :
      (ss : List Session) (scope id : String) (s : Session) (o : Option Session)
      → find (session_at scope id) ss ≡ o
      → ((t : Session) → o ≡ some t → find (has_id id) ss ≡ some t)
      → Option.map changed o ≡ some s
      → find (has_id id) (update_where p f ss) ≡ some s
  one_updated ss scope id s none e one h = absurd (ground arith)
  one_updated ss scope id s (some t) e one h =
      find-update_where (has_id id) p f ss (λ x. rw (ids x) refl)
      ∙ ap (Option.map changed) (one t refl)
      ∙ h

  owners_updated :
      (ss : List Session) (es : List RunEvent)
      → HasOwners ss es
      → HasOwners (update_where p f ss) es
  owners_updated ss [] h = tt
  owners_updated ss (e ∷ es) ((s, found, same), h) = (
    (
      changed s,
      find-update_where (has_id e.session_id) p f ss (λ x. rw (ids x) refl)
          ∙ ap (Option.map changed) found,
      scope_changed s ∙ same,
    ),
    owners_updated ss es h,
  )

  Owns-update : (d : Db) → Owns d (record d { sessions = update_where p f d.sessions })
  Owns-update d = record {
    keep = λ h. record {
      one = λ scope id s e.
          one_updated d.sessions scope id s (find (session_at scope id) d.sessions) refl
            (h.one scope id)
            (sym (
                find-update_where (session_at scope id) p f d.sessions
                  (λ x. rw (ids x, scopes x) refl))
              ∙ e);
      owners = owners_updated d.sessions d.events h.owners;
    };
  }

fresh_id :
    (id thread : String) (ss : List Session)
    → exists (λ s. s.id == id || s.thread_id == thread) ss ≡ false
    → exists (has_id id) ss ≡ false
unfolding exists
fresh_id id thread [] h = refl
fresh_id id thread (s ∷ ss) h = ground (arith, fresh_id id thread ss)

module _ (ss : List Session) (x : Session) where
  one_inserted :
      (scope id : String) (s : Session) (o : Option Session)
      → exists (has_id x.id) ss ≡ false
      → ((t : Session) → o ≡ some t → find (has_id id) ss ≡ some t)
      → or_else o (if session_at scope id x then some x else none) ≡ some s
      → find (has_id id) (ss ++ x ∷ []) ≡ some s
  unfolding find
  one_inserted scope id s (some t) fresh one h =
      find-append (has_id id) ss (x ∷ []) ∙ rw (one t refl) h
  one_inserted scope id s none fresh one h = elim (Bool-cases (session_at scope id x)) [
    | inl e ↦
        let same : x.id ≡ id = (eq_iff x.id id).0 (ground arith) in
        let nowhere : find (has_id id) ss ≡ none =
          find-none (has_id id) ss (subst (λ i. exists (has_id i) ss ≡ false) same fresh) in
        find-append (has_id id) ss (x ∷ []) ∙ rw nowhere (ground (arith, e, h))
    | inr e ↦ absurd (ground (arith, e, h))
  ]

  owners_inserted : (es : List RunEvent) → HasOwners ss es → HasOwners (ss ++ x ∷ []) es
  owners_inserted [] h = tt
  owners_inserted (e ∷ es) ((s, found, same), h) = (
    (s, find-append (has_id e.session_id) ss (x ∷ []) ∙ rw found refl, same),
    owners_inserted es h,
  )

fresh_of : (d : Db) (x : Session) → NewSession d x → exists (has_id x.id) d.sessions ≡ false
unfolding session_fits
fresh_of d x new = fresh_id x.id x.thread_id d.sessions (ground (arith, new.fits))

Owns-insert :
    (d : Db) (x : Session) → NewSession d x → Owns d (record d { sessions = d.sessions ++ x ∷ [] })
unfolding find
Owns-insert d x new = record {
  keep = λ h. record {
    one = λ scope id s e.
        one_inserted d.sessions x scope id s (find (session_at scope id) d.sessions)
          (fresh_of d x new) (h.one scope id)
          (sym (find-append (session_at scope id) d.sessions (x ∷ [])) ∙ e);
    owners = owners_inserted d.sessions x d.events h.owners;
  };
}

HasOwners-append :
    (ss : List Session) (es : List RunEvent) (row : RunEvent)
    → HasOwners ss es
    → (s : Session) × (find (has_id row.session_id) ss ≡ some s) × (s.scope_id ≡ row.scope_id)
    → HasOwners ss (es ++ row ∷ [])
HasOwners-append ss [] row h o = (o, tt)
HasOwners-append ss (e ∷ es) row h o = (h.0, HasOwners-append ss es row h.1 o)

module _ (d : Db) (scope run_id : String) (run : Run) (session : Session) (row : RunEvent)
    (time actor : String) (found : find (run_at scope run_id) d.runs ≡ some run)
    (joined : find (session_at run.scope_id run.session_id) d.sessions ≡ some session)
    (same_scope : row.scope_id ≡ scope) (same_session : row.session_id ≡ run.session_id) where
  scope_of_session : session.scope_id ≡ row.scope_id
  scope_of_session =
      let at_run = find_sound (run_at scope run_id) d.runs run found in
      let at_session =
        find_sound (session_at run.scope_id run.session_id) d.sessions session joined in
      (eq_iff session.scope_id run.scope_id).0 (ground (arith, at_session))
      ∙ (eq_iff run.scope_id scope).0 (ground (arith, at_run))
      ∙ sym same_scope

  recorded : Owns d (record d { events = d.events ++ row ∷ [] })
  recorded = record {
    keep = λ h. record {
      one = h.one;
      owners = HasOwners-append d.sessions d.events row h.owners (
        session,
        rw same_session (h.one run.scope_id run.session_id session joined),
        scope_of_session,
      );
    };
  }

  Owns-stored : Owns d (event_stored scope run session row time actor d)
  unfolding event_stored count_run_event count_session_event
  Owns-stored =
      Owns-Closed.two d (record d { events = d.events ++ row ∷ [] }) _ recorded
        (Owns-Closed.two _ _ _ (Owns-same _ _ refl refl)
          (Owns-update _ _ (λ s. refl) (λ s. refl) _))

pub Owns-Respects : Respects Owns
Owns-Respects = SessionLaws-Respects (record {
  closed = Owns-Closed;
  events = record {
    event = λ d scope run_id run session row time actor found joined a b c e f.
        Owns-stored d scope run_id run session row time actor found joined a c;
  };
  same = Owns-same;
  insert = Owns-insert;
  update = λ d p f ids scopes seqs. Owns-update p f ids scopes d;
})

-- ===== src/Store/Numbering.antt =====
-- The numbers of events in a session: 1, 2, 3, ... in the order of the INSERTs, without gaps.
pub mod Append
use mathlib.Core.Option
use mathlib.Core.Path.{subst}
use code_forge.Prelude.{
  ℕ, zero, suc, ◌+◌, String, ◌≡◌, ◌∙◌, refl, sym, Bool, true, false, ◌&&◌, Option, none, some, List,
  [], ◌∷◌, ◌++◌, arith, eq_iff, ◌==◌, Bool-cases, inl, inr, if◌then◌else◌,
}
use code_forge.Prelude.Tables.{
  find, find_sound, find-append, find-update_where, update_where, or_else,
}
use code_forge.Store.Schema.{Db, Run, Session, RunEvent}
use code_forge.Store.Keys.{run_at, session_at}
use code_forge.Store.Events.{touch, event_stored, count_run_event, count_session_event}
use code_forge.Store.Transitions.{
  end_attempt, free_session, free_workspace, drop_attempt, set_state,
}
use code_forge.Store.Responses.{resolve}
use code_forge.Store.Tools.{set_tool}
use code_forge.Store.Sessions.{retitle, move_workspace}
use code_forge.Store.Accept.{count_run}
use code_forge.Store.Claim.{occupy_session, lease_workspace, start_run}
use code_forge.Store.Revisions.{set_revision}
use code_forge.Store.Preserves.{Closed}
use code_forge.Store.Respects.{NewSession, Respects}

-- The numbers in a session of its events, in the order of the table.
abbrev pub in_session : String → String → RunEvent → Bool
in_session scope id e = e.scope_id == scope && e.session_id == id

unfoldable pub session_seqs : String → String → List RunEvent → List ℕ
session_seqs scope id [] = []
session_seqs scope id (e ∷ es) =
    let rest = session_seqs scope id es in
    if in_session scope id e then e.session_seq ∷ rest else rest

-- 1, 2, ..., n
unfoldable pub first_numbers : ℕ → List ℕ
first_numbers zero = []
first_numbers (suc n) = first_numbers n ++ suc n ∷ []

-- A session that is not there has no events; one that is has those before its next number.
abbrev pub Expected : Option Session → List ℕ → Type 0
Expected none ns = ns ≡ []
Expected (some s) ns = (n : ℕ) × (s.next_event_seq ≡ suc n) × (ns ≡ first_numbers n)

pub record IsNumbered (d : Db) : Type 0 where
  pub at :
      (scope id : String)
      → Expected (find (session_at scope id) d.sessions) (session_seqs scope id d.events)

-- The invariant survives.
pub record Numbers (d e : Db) : Type 0 where
  pub keep : IsNumbered d → IsNumbered e

instance pub Numbers-Closed : Closed Numbers
Numbers-Closed = record {
  same = λ d. record { keep = λ h. h };
  two = λ a b c p q. record { keep = λ h. q.keep (p.keep h) };
}

pub Numbers-same : (d e : Db) → e.sessions ≡ d.sessions → e.events ≡ d.events → Numbers d e
Numbers-same d e s v = record { keep = λ h. record { at = λ scope id. rw (s, v) (h.at scope id) } }

Expected-map :
    (p : Session → Bool) (f : Session → Session) (o : Option Session) (ns : List ℕ)
    → ((s : Session) → (f s).next_event_seq ≡ s.next_event_seq)
    → Expected o ns
    → Expected (Option.map (λ s. if p s then f s else s) o) ns
Expected-map p f none ns keeps h = h
Expected-map p f (some s) ns keeps h = elim (Bool-cases (p s)) [
  | inl e ↦ rw e (h.0, keeps s ∙ h.1, h.2)
  | inr e ↦ rw e h
]

-- An UPDATE of sessions that keeps keys and numbers.
pub Numbers-update :
    (d : Db) (p : Session → Bool) (f : Session → Session)
    → ((s : Session) → (f s).id ≡ s.id)
    → ((s : Session) → (f s).scope_id ≡ s.scope_id)
    → ((s : Session) → (f s).next_event_seq ≡ s.next_event_seq)
    → Numbers d (record d { sessions = update_where p f d.sessions })
Numbers-update d p f ids scopes seqs = record {
  keep = λ h. record {
    at = λ scope id.
        rw (find-update_where (session_at scope id) p f d.sessions (λ s. rw (ids s, scopes s)))
          (Expected-map p f _ _ seqs (h.at scope id));
  };
}

Expected-insert :
    (p : Session → Bool) (x : Session) (o : Option Session) (ns : List ℕ)
    → x.next_event_seq ≡ 1
    → Expected o ns
    → Expected (or_else o (if p x then some x else none)) ns
unfolding first_numbers
Expected-insert p x none ns new h = elim (Bool-cases (p x)) [
  | inl e ↦ rw e (0, new, h)
  | inr e ↦ rw e h
]
Expected-insert p x (some s) ns new h = h

pub inserted :
    (d : Db) (x : Session)
    → NewSession d x
    → Numbers d (record d { sessions = d.sessions ++ x ∷ [] })
unfolding find
inserted d x new = record {
  keep = λ h. record {
    at = λ scope id.
        rw (find-append (session_at scope id) d.sessions (x ∷ []))
          (Expected-insert (session_at scope id) x _ _ new.first_event (h.at scope id));
  };
}

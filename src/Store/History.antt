-- ===== src/Store/History.antt =====
-- What the store's methods can do to a run: it stays, its identity stays, its status moves along
-- the diagram, and a status never changes under the same version.
use code_forge.Prelude.{
  ◌≤◌, String, ◌≡◌, ◌∙◌, refl, Bool, true, false, some, [], ◌∷◌, ◌++◌, arith, Bool-cases, inl, inr,
  if◌then◌else◌,
}
use code_forge.Prelude.Tables.{find, exists, find-append, find-update_where, update_where}
use code_forge.StateMachine.Runs.{Walk, here, append-Walk}
use code_forge.Store.Schema.{Db, Run}
use code_forge.Store.Keys.{run_at}
use code_forge.Store.Keyed.{IsKeyed, has_id, update_where-IsKeyed, snoc-IsKeyed}
use code_forge.Store.Preserves.{Closed}

pub record Evolves (r s : Run) : Type 0 where
  pub path : Walk r.status s.status
  pub version_grows : r.state_version ≤ s.state_version
  pub same_status_at : r.state_version ≡ s.state_version → s.status ≡ r.status
  pub same_session : s.session_id ≡ r.session_id
  pub same_seq : s.run_seq ≡ r.run_seq
  pub same_key : s.idempotency_key ≡ r.idempotency_key
  pub same_fingerprint : s.request_fingerprint ≡ r.request_fingerprint

pub Evolves-refl : (r : Run) → Evolves r r
Evolves-refl r = record {
  path = here;
  version_grows = omega arith;
  same_status_at = λ _. refl;
  same_session = refl;
  same_seq = refl;
  same_key = refl;
  same_fingerprint = refl;
}

pub Evolves-trans : {r s t : Run} → Evolves r s → Evolves s t → Evolves r t
Evolves-trans {r} {s} {t} p q = record {
  path = append-Walk p.path q.path;
  version_grows = omega arith;
  same_status_at = λ e. q.same_status_at (omega arith) ∙ p.same_status_at (omega arith);
  same_session = cc;
  same_seq = cc;
  same_key = cc;
  same_fingerprint = cc;
}

-- Every run that can be looked up can still be, and has evolved.
pub record RunsEvolve (d e : Db) : Type 0 where
  pub at :
      (scope id : String) (r : Run)
      → find (run_at scope id) d.runs ≡ some r
      → (s : Run) × (find (run_at scope id) e.runs ≡ some s) × Evolves r s

-- The same, where ids are unique; they stay so.
pub record History (d e : Db) : Type 0 where
  pub keyed : IsKeyed d.runs → IsKeyed e.runs
  pub evolve : IsKeyed d.runs → RunsEvolve d e

instance pub History-Closed : Closed History
History-Closed = record {
  same = λ d. record {
    keyed = λ k. k;
    evolve = λ k. record { at = λ scope id r h. (r, h, Evolves-refl r) };
  };
  two = λ a b c p q. record {
    keyed = λ k. q.keyed (p.keyed k);
    evolve = λ k. record {
      at = λ scope id r h.
          let (s, hs, es) = (p.evolve k).at scope id r h in
          let (t, ht, et) = (q.evolve (p.keyed k)).at scope id s hs in (t, ht, Evolves-trans es et);
    };
  };
}

-- A statement that does not write runs.
pub History-same : (d e : Db) → e.runs ≡ d.runs → History d e
History-same d e h = record {
  keyed = λ k. rw h k;
  evolve = λ k. record { at = λ scope id r f. (r, rw h f, Evolves-refl r) };
}

-- An UPDATE of runs that keeps keys, and takes each run that it changes one step.
pub History-update :
    (d : Db) (p : Run → Bool) (f : Run → Run)
    → ((r : Run) → (f r).id ≡ r.id)
    → ((r : Run) → (f r).scope_id ≡ r.scope_id)
    → (IsKeyed d.runs
        → (scope id : String) (r : Run) → find (run_at scope id) d.runs ≡ some r
        → p r ≡ true
        → Evolves r (f r))
    → History d (record d { runs = update_where p f d.runs })
History-update d p f ids scopes step = record {
  keyed = λ k. update_where-IsKeyed p f d.runs ids k;
  evolve = λ k. record {
    at = λ scope id r h. (
      if p r then f r else r,
      rw (find-update_where (run_at scope id) p f d.runs (λ x. rw (ids x, scopes x))) (rw h refl),
      elim (Bool-cases (p r)) [
        | inl e ↦ rw e (step k scope id r h e)
        | inr e ↦ rw e (Evolves-refl r)
      ],
    );
  };
}

pub History-insert :
    (d : Db) (x : Run)
    → exists (has_id x.id) d.runs ≡ false
    → History d (record d { runs = d.runs ++ x ∷ [] })
History-insert d x fits = record {
  keyed = λ k. snoc-IsKeyed x d.runs k fits;
  evolve = λ k. record {
    at = λ scope id r h.
        (r, rw (find-append (run_at scope id) d.runs (x ∷ [])) (rw h refl), Evolves-refl r);
  };
}

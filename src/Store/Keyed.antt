-- ===== src/Store/Keyed.antt =====
-- PRIMARY KEY on runs: no two rows have one id, so a run is found by its key wherever it stands.
use code_forge.Prelude.{
  ◌≡◌, ◌∙◌, ap, sym, refl, Bool, true, false, Option, none, some, List, [], ◌∷◌, ◌++◌, ◌⊎◌, String,
  arith, eq_iff, eq_refl, ◌==◌, Bool-cases, inl, inr,
}
use code_forge.Prelude.Tables.{find, exists, update_where}
use code_forge.Store.Schema.{Db, Run}
use code_forge.Store.Keys.{run_at}
use code_forge.Store.Sessions.{SessionView, session_view}
use code_forge.Store.Claim.{
  Claimable, is_due, is_idle, if_idle, eligible, earliest, is_earlier, first_eligible,
}

abbrev pub has_id : String → Run → Bool
has_id id r = r.id == id

abbrev pub IsKeyed : List Run → Type 0
IsKeyed [] = Unit {0}
IsKeyed (x ∷ xs) = (exists (has_id x.id) xs ≡ false) × IsKeyed xs

pub exists-update_where :
    (p : Run → Bool) (f : Run → Run) (id : String) (xs : List Run)
    → ((r : Run) → (f r).id ≡ r.id)
    → exists (has_id id) (update_where p f xs) ≡ exists (has_id id) xs
unfolding exists update_where
exists-update_where p f id [] keeps = refl
exists-update_where p f id (x ∷ xs) keeps =
    ground (arith, keeps x, exists-update_where p f id xs keeps)

pub update_where-IsKeyed :
    (p : Run → Bool) (f : Run → Run) (xs : List Run)
    → ((r : Run) → (f r).id ≡ r.id)
    → IsKeyed xs
    → IsKeyed (update_where p f xs)
unfolding update_where
update_where-IsKeyed p f [] keeps k = tt
update_where-IsKeyed p f (x ∷ xs) keeps k = (
  elim (Bool-cases (p x)) [
    | inl e ↦ rw e (rw (keeps x) (exists-update_where p f x.id xs keeps ∙ k.0))
    | inr e ↦ rw e (exists-update_where p f x.id xs keeps ∙ k.0)
  ],
  update_where-IsKeyed p f xs keeps k.1,
)

exists-snoc :
    (y x : Run) (xs : List Run)
    → exists (has_id y.id) xs ≡ false
    → (y.id == x.id) ≡ false
    → exists (has_id y.id) (xs ++ x ∷ []) ≡ false
unfolding exists
exists-snoc y x [] h e = ground (arith, eq_iff y.id x.id, eq_iff x.id y.id)
exists-snoc y x (z ∷ zs) h e = ground (arith, exists-snoc y x zs)

pub snoc-IsKeyed :
    (x : Run) (xs : List Run)
    → IsKeyed xs
    → exists (has_id x.id) xs ≡ false
    → IsKeyed (xs ++ x ∷ [])
unfolding exists
snoc-IsKeyed x [] k h = (refl, tt)
snoc-IsKeyed x (y ∷ ys) k h =
    (exists-snoc y x ys k.0 (ground arith), snoc-IsKeyed x ys k.1 (ground arith))

-- What `first_eligible` returns is one of the runs, with the clauses that chose it.
pub record Chosen (d : Db) (time : String) (only : Option String) (c : Claimable) : Type 0 where
  pub due : is_due d time only c.run ≡ true
  pub joined : session_view c.run.scope_id c.run.session_id d ≡ some c.view
  pub idle : is_idle c.view ≡ true

if_idle-some :
    (r : Run) (o : Option SessionView) (c : Claimable)
    → if_idle r o ≡ some c
    → (c.run ≡ r) × (o ≡ some c.view) × (is_idle c.view ≡ true)
if_idle-some r none c h = absurd (ground arith)
if_idle-some r (some v) c h = (ground arith, ground arith, ground arith)

eligible-run :
    (d : Db) (time : String) (only : Option String) (r : Run) (c : Claimable)
    → eligible d time only r ≡ some c
    → (c.run ≡ r)
      × (is_due d time only r ≡ true)
      × (is_idle c.view ≡ true)
      × (session_view r.scope_id r.session_id d ≡ some c.view)
unfolding eligible
eligible-run d time only r c h = elim (Bool-cases (is_due d time only r)) [
  | inl e ↦
      let (same, joined, idle) =
        if_idle-some r (session_view r.scope_id r.session_id d) c (rw (← h) (rw e)) in
      (same, e, idle, joined)
  | inr e ↦ absurd (ground arith)
]

earliest-some :
    (x y : Option Claimable) (c : Claimable) → earliest x y ≡ some c → (x ≡ some c) ⊎ (y ≡ some c)
earliest-some none y c h = inr h
earliest-some (some x) none c h = inl h
earliest-some (some x) (some y) c h = elim (Bool-cases (is_earlier y.run x.run)) [
  | inl e ↦ inr (rw e at h)
  | inr e ↦ inl (rw e at h)
]

find-head : (r : Run) (xs : List Run) → find (run_at r.scope_id r.id) (r ∷ xs) ≡ some r
unfolding find
find-head r xs = rw (eq_refl r.scope_id, eq_refl r.id)

find-exists :
    (scope id : String) (xs : List Run) (r : Run)
    → find (run_at scope id) xs ≡ some r
    → exists (has_id id) xs ≡ true
unfolding find exists
find-exists scope id [] r h = absurd (ground arith)
find-exists scope id (x ∷ xs) r h = ground (arith, find-exists scope id xs r)

-- A row of another id stands before.
find-tail :
    (x : Run) (xs : List Run) (r : Run)
    → exists (has_id x.id) xs ≡ false
    → find (run_at r.scope_id r.id) xs ≡ some r
    → find (run_at r.scope_id r.id) (x ∷ xs) ≡ some r
unfolding find
find-tail x xs r h e = elim (Bool-cases (x.id == r.id)) [
  | inl same ↦ absurd (
      ground (
        arith,
        h,
        find-exists r.scope_id r.id xs r e,
        ap (λ id. exists (has_id id) xs) ((eq_iff x.id r.id).0 same),
      ))
  | inr other ↦ ground arith
]

module _ (d : Db) (time : String) (only : Option String) (c : Claimable) where
  pub first_eligible-Chosen :
      (xs : List Run) → first_eligible d time only xs ≡ some c → Chosen d time only c
  unfolding first_eligible
  first_eligible-Chosen [] h = absurd (ground arith)
  first_eligible-Chosen (x ∷ xs) h =
      elim (earliest-some (eligible d time only x) (first_eligible d time only xs) c h) [
        | inl e ↦
            let p = eligible-run d time only x c e in
            record { due = rw p.0 p.1; joined = rw p.0 p.3; idle = p.2 }
        | inr e ↦ first_eligible-Chosen xs e
      ]

  pub first_eligible-listed :
      (xs : List Run)
      → first_eligible d time only xs ≡ some c
      → (before : List Run) × (after : List Run) × (xs ≡ before ++ c.run ∷ after)
  unfolding first_eligible
  first_eligible-listed [] h = absurd (ground arith)
  first_eligible-listed (x ∷ xs) h =
      elim (earliest-some (eligible d time only x) (first_eligible d time only xs) c h) [
        | inl e ↦ ([], xs, ap (λ y. y ∷ xs) (sym (eligible-run d time only x c e).0))
        | inr e ↦
            let (before, after, whole) = first_eligible-listed xs e in
            (x ∷ before, after, ap (λ ys. x ∷ ys) whole)
      ]

  -- In a table with unique ids the chosen run is the one that its key finds.
  pub find-first_eligible :
      (xs : List Run)
      → IsKeyed xs
      → first_eligible d time only xs ≡ some c
      → find (run_at c.run.scope_id c.run.id) xs ≡ some c.run
  unfolding first_eligible
  find-first_eligible [] k h = absurd (ground arith)
  find-first_eligible (x ∷ xs) k h =
      elim (earliest-some (eligible d time only x) (first_eligible d time only xs) c h) [
        | inl e ↦ rw (eligible-run d time only x c e).0 (find-head x xs)
        | inr e ↦ find-tail x xs c.run k.0 (find-first_eligible xs k.1 e)
      ]

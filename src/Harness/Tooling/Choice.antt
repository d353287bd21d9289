-- ===== src/Harness/Tooling/Choice.antt =====
-- Which skill a tool call runs under.
use mathlib.Core.Path.{subst}
use code_forge.Prelude.{
  eq_iff, eq_refl, String, Bool, true, false, Option, none, some, List, [], ◌∷◌, ◌≡◌, ◌⊎◌, inl, inr,
  refl, Bool-cases, ap, if◌then◌else◌, sym, ◌∙◌, arith,
}
use code_forge.Prelude.Tables.{exists}
use code_forge.Contracts.Result.{Result, ok, err, ◌>>=◌}
use code_forge.Store.Ran.{ok-inj}
use code_forge.Json.{Json, null, bool, num, str, arr, obj}
use code_forge.Harness.Tooling.{
  select_active_skill, active_skill_names, is_active, is_text, choose, joined, not_active,
  inactive_text, text_of,
}

-- `names` has the name.
abbrev pub Has : String → List Json → Type 0
Has name [] = ⊥
Has name (n ∷ ns) = (n ≡ str name) ⊎ Has name ns

is_text-eq : (s : String) (j : Json) → is_text s j ≡ true → j ≡ str s
is_text-eq s (str t) e = ap str (sym ((eq_iff s t).0 e))
is_text-eq s null e = absurd (ground (arith, e))
is_text-eq s (bool b) e = absurd (ground (arith, e))
is_text-eq s (num n) e = absurd (ground (arith, e))
is_text-eq s (arr js) e = absurd (ground (arith, e))
is_text-eq s (obj fs) e = absurd (ground (arith, e))

exists-Has : (s : String) (names : List Json) → exists (is_text s) names ≡ true → Has s names
unfolding exists
exists-Has s [] e = absurd (ground (arith, e))
exists-Has s (n ∷ ns) e = elim (Bool-cases (is_text s n)) [
  | inl here ↦ inl (is_text-eq s n here)
  | inr off ↦ inr (exists-Has s ns (ground (arith, e)))
]

Has-exists : (s : String) (names : List Json) → Has s names → exists (is_text s) names ≡ true
unfolding exists
Has-exists s [] h = absurd h
Has-exists s (n ∷ ns) (inl here) = rw (here, eq_refl s) refl
Has-exists s (n ∷ ns) (inr later) = ground (arith, Has-exists s ns later)

-- `names` has not the skill that was asked for; what is no text is no skill's name.
abbrev pub Lacks : Json → List Json → Type 0
Lacks (str s) names = Has s names → ⊥
Lacks _ names = Unit {0}

inactive-Lacks :
    (requested : Json) (names : List Json)
    → is_active requested names ≡ false
    → Lacks requested names
unfolding is_active
inactive-Lacks (str s) names e =
    λ h. let has = Has-exists s names h in absurd (ground (arith, e, has))
inactive-Lacks null names e = tt
inactive-Lacks (bool b) names e = tt
inactive-Lacks (num n) names e = tt
inactive-Lacks (arr js) names e = tt
inactive-Lacks (obj fs) names e = tt

active-Has :
    (name : String) (requested : Json) (names : List Json)
    → requested ≡ str name
    → is_active requested names ≡ true
    → Has name names
unfolding is_active
active-Has name requested names named e =
    exists-Has name names (subst (λ j. is_active j names ≡ true) named e)

-- The choices that a run with the skills `names` allows: no skill where it has none; else the skill
-- that was asked for, which it has; or an error, where it has not.
pub data IsAllowed (requested : Json) : List Json → Option String → Option String → Type 0 where
  free : IsAllowed requested [] (some "") none
  active :
      (names : List Json) (name : String)
      → requested ≡ str name
      → Has name names
      → IsAllowed requested names (some name) none
  refused :
      (first : Json) (others : List Json) (error : String)
      → Lacks requested (first ∷ others)
      → IsAllowed requested (first ∷ others) none (some error)

module _ (render : Json → String) (requested n : Json) (ns : List Json)
    (choice : Option String × Option String) where
  refused_of :
      (all : Result String)
      → is_active requested (n ∷ ns) ≡ false
      → (all >>= λ s. ok (none, some (inactive_text render requested s))) ≡ ok choice
      → IsAllowed requested (n ∷ ns) choice.0 choice.1
  refused_of (ok s) out h =
      subst (λ c. IsAllowed requested (n ∷ ns) c.0 c.1) (ok-inj h)
        (refused n ns _ (inactive-Lacks requested (n ∷ ns) out))
  refused_of (err x) out h = absurd (ground arith)

  chosen_of :
      (b : Bool)
      → is_active requested (n ∷ ns) ≡ b
      → ((name : String) × (requested ≡ str name)) ⊎ (b ≡ false)
      → (if b then ok (some (text_of requested), none) else not_active render requested (n ∷ ns))
        ≡ ok choice
      → IsAllowed requested (n ∷ ns) choice.0 choice.1
  chosen_of true e (inl named) h =
      subst (λ c. IsAllowed requested (n ∷ ns) c.0 c.1)
        (ap (λ j. (some (text_of j), none)) (sym named.1) ∙ ok-inj h)
        (active (n ∷ ns) named.0 named.1 (active-Has named.0 requested (n ∷ ns) named.1 e))
  chosen_of true e (inr wrong) h = absurd (ground arith)
  chosen_of false e named h = refused_of (joined (n ∷ ns)) e h

named_of :
    (requested : Json) (names : List Json)
    → ((name : String) × (requested ≡ str name)) ⊎ (is_active requested names ≡ false)
unfolding is_active
named_of (str s) names = inl (s, refl)
named_of null names = inr refl
named_of (bool b) names = inr refl
named_of (num n) names = inr refl
named_of (arr js) names = inr refl
named_of (obj fs) names = inr refl

choose-IsAllowed :
    (render : Json → String) (requested : Json) (names : List Json)
    (choice : Option String × Option String)
    → choose render requested names ≡ ok choice
    → IsAllowed requested names choice.0 choice.1
unfolding choose
choose-IsAllowed render requested [] choice h =
    subst (λ c. IsAllowed requested [] c.0 c.1) (ok-inj h) free
choose-IsAllowed render requested (n ∷ ns) choice h =
    chosen_of render requested n ns choice (is_active requested (n ∷ ns)) refl
      (named_of requested (n ∷ ns)) h

-- Where a choice is made for a run with the skills `names`, it is no skill only if the run has none,
-- it is a skill only if that is the text asked for and the run has it, and it is an error only if the
-- run has skills and not the one asked for; a name and an error are never given together.
pub select_active_skill-IsAllowed :
    (render : Json → String) (snapshot : Option Json) (requested : Json) (names : List Json)
    (choice : Option String × Option String)
    → active_skill_names snapshot ≡ ok names
    → select_active_skill render snapshot requested ≡ ok choice
    → IsAllowed requested names choice.0 choice.1
unfolding select_active_skill
select_active_skill-IsAllowed render snapshot requested names choice found h =
    choose-IsAllowed render requested names choice
      (sym (ap (λ r. r >>= λ ns. choose render requested ns) found) ∙ h)

-- ===== src/Store/Pages/Numbers.antt =====
-- Rows that are numbered without gaps, and the parts of them that pages give.
use mathlib.Core.Path.{subst}
use code_forge.Prelude.{
  ℕ, zero, suc, ◌+◌, ◌≤◌, ◌≡◌, ◌∙◌, ap, refl, sym, Option, none, some, List, [], ◌∷◌, ◌++◌, arith,
  map, ltb, Bool-cases, inl, inr,
}
use code_forge.Prelude.Tables.{length, take, select_where}
use code_forge.Prelude.Order.{last, is_above}
use code_forge.Store.Numbering.{first_numbers}

-- b + 1, b + 2, ..., b + n
abbrev pub count_up : ℕ → ℕ → List ℕ
count_up b zero = []
count_up b (suc n) = suc b ∷ count_up (suc b) n

pub count_up-append : (b m n : ℕ) → count_up b m ++ count_up (b + m) n ≡ count_up b (m + n)
count_up-append b zero n =
    ap (λ k. count_up k n) (omega arith) ∙ ap (λ k. count_up b k) (omega arith)
count_up-append b (suc m) n =
    let step : b + suc m ≡ suc b + m = omega arith in
    let size : suc (m + n) ≡ suc m + n = omega arith in
    ap (λ ns. suc b ∷ ns)
      (ap (λ c. count_up (suc b) m ++ count_up c n) step ∙ count_up-append (suc b) m n)
    ∙ ap (λ k. count_up b k) size

pub first_numbers-count_up : (n : ℕ) → first_numbers n ≡ count_up 0 n
unfolding first_numbers
first_numbers-count_up zero = refl
first_numbers-count_up (suc n) =
    let start : n ≡ 0 + n = omega arith in
    let size : n + 1 ≡ suc n = omega arith in
    ap (λ ns. ns ++ suc n ∷ []) (first_numbers-count_up n)
    ∙ ap (λ k. count_up 0 n ++ suc k ∷ []) start
    ∙ count_up-append 0 n 1
    ∙ ap (λ k. count_up 0 k) size

abbrev head_or : List ℕ → ℕ
head_or [] = 0
head_or (n ∷ ns) = n

abbrev tail : List ℕ → List ℕ
tail [] = []
tail (n ∷ ns) = ns

length-count_up : (b n : ℕ) → length (count_up b n) ≡ n
length-count_up b zero = refl
length-count_up b (suc n) = ap suc (length-count_up (suc b) n)

length-map {ℓ κ} :
    {A : Type ℓ} {B : Type κ} (f : A → B) (xs : List A) → length (map f xs) ≡ length xs
length-map f [] = refl
length-map f (x ∷ xs) = ap suc (length-map f xs)

module _ {ℓ} {A : Type ℓ} (key : A → ℕ) where
  -- Numbered b + 1, b + 2, ... without gaps.
  abbrev pub IsRun : ℕ → List A → Type 0
  IsRun b xs = map key xs ≡ count_up b (length xs)

  IsRun-tail : (b : ℕ) (x : A) (xs : List A) → IsRun b (x ∷ xs) → (key x ≡ suc b) × IsRun (suc b) xs
  IsRun-tail b x xs h = (ap head_or h, ap tail h)

  IsRun-cons : (b : ℕ) (x : A) (xs : List A) → key x ≡ suc b → IsRun (suc b) xs → IsRun b (x ∷ xs)
  IsRun-cons b x xs e h = rw (e, h) refl

  pub IsRun-of : (b n : ℕ) (xs : List A) → map key xs ≡ count_up b n → IsRun b xs
  IsRun-of b n xs h =
      h ∙ ap (count_up b) (sym (length-count_up b n) ∙ sym (ap length h) ∙ length-map key xs)

  pub IsRun-append :
      (b : ℕ) (xs ys : List A) → IsRun b xs → IsRun (b + length xs) ys → IsRun b (xs ++ ys)
  IsRun-append b [] ys h g = subst (λ c. IsRun c ys) (omega arith) g
  IsRun-append b (x ∷ xs) ys h g =
      let (e, rest) = IsRun-tail b x xs h in
      IsRun-cons b x (xs ++ ys) e
        (IsRun-append (suc b) xs ys rest (subst (λ c. IsRun c ys) (omega arith) g))

  pub IsRun-take : (b k : ℕ) (xs : List A) → IsRun b xs → IsRun b (take k xs)
  IsRun-take b zero xs h = refl
  IsRun-take b (suc k) [] h = refl
  IsRun-take b (suc k) (x ∷ xs) h =
      let (e, rest) = IsRun-tail b x xs h in
      IsRun-cons b x (take k xs) e (IsRun-take (suc b) k xs rest)

  whole_above : (a b : ℕ) (xs : List A) → a ≤ b → IsRun b xs → select_where (is_above key a) xs ≡ xs
  unfolding select_where
  whole_above a b [] h r = refl
  whole_above a b (x ∷ xs) h r =
      let (e, rest) = IsRun-tail b x xs r in
      ground (arith, e, whole_above a (suc b) xs (omega (arith, h)) rest)

  pub IsRun-above :
      (a b : ℕ) (xs : List A) → b ≤ a → IsRun b xs → IsRun a (select_where (is_above key a) xs)
  unfolding select_where
  IsRun-above a b [] h r = refl
  IsRun-above a b (x ∷ xs) h r =
      let (e, rest) = IsRun-tail b x xs r in
      elim (Bool-cases (ltb a (key x))) [
        | inl above ↦
            let here : suc b ≡ suc a = ground (arith, above, e, h) in
            rw above (
              IsRun-cons a x (select_where (is_above key a) xs) (e ∙ here) (
                subst (IsRun (suc a)) (sym (whole_above a (suc b) xs (omega (arith, h)) rest))
                  (subst (λ c. IsRun c xs) here rest)))
        | inr below ↦ rw below (IsRun-above a (suc b) xs (ground (arith, below, e)) rest)
      ]

  last-some : (x : A) (xs : List A) → (y : A) × (last (x ∷ xs) ≡ some y)
  last-some x [] = (x, refl)
  last-some x (y ∷ ys) = last-some y ys

  pub next_of_run :
      (b : ℕ) (xs : List A) (next : Option A → ℕ → ℕ)
      → ((c : ℕ) → next none c ≡ c)
      → ((x : A) (c : ℕ) → next (some x) c ≡ key x)
      → IsRun b xs
      → next (last xs) b ≡ b + length xs
  next_of_run b [] next empty full r = empty b ∙ omega arith
  next_of_run b (x ∷ []) next empty full r = full x b ∙ (IsRun-tail b x [] r).0 ∙ omega arith
  next_of_run b (x ∷ y ∷ ys) next empty full r =
      let (z, at_end) = last-some y ys in
      let size : suc b + length (y ∷ ys) ≡ b + length (x ∷ y ∷ ys) = omega arith in
      ap (λ o. next o b) at_end
      ∙ full z b
      ∙ sym (full z (suc b))
      ∙ ap (λ o. next o (suc b)) (sym at_end)
      ∙ next_of_run (suc b) (y ∷ ys) next empty full (IsRun-tail b x (y ∷ ys) r).1
      ∙ size

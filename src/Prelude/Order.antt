-- ===== src/Prelude/Order.antt =====
-- SELECT ... ORDER BY a number, LIMIT, and reading a table page by page.
use code_forge.Prelude.{
  ℕ, zero, suc, ◌+◌, ◌-◌, ◌≤◌, ◌<◌, ◌≡◌, ◌∙◌, ap, refl, Bool, false, ◌&&◌, ◌||◌, Option, none, some,
  List, [], ◌∷◌, ◌++◌, arith, ltb, nat_eq, Bool-cases, inl, inr, if◌then◌else◌,
}
use code_forge.Prelude.Tables.{length, take, select_where, exists}

module _ {ℓ} {A : Type ℓ} where
  abbrev pub drop : ℕ → List A → List A
  drop zero xs = xs
  drop (suc n) [] = []
  drop (suc n) (x ∷ xs) = drop n xs

  -- `rows[-1]`
  abbrev pub last : List A → Option A
  last [] = none
  last (x ∷ []) = some x
  last (x ∷ y ∷ ys) = last (y ∷ ys)

  abbrev pub get_elem? : List A → ℕ → Option A
  get_elem? [] n = none
  get_elem? (x ∷ xs) zero = some x
  get_elem? (x ∷ xs) (suc n) = get_elem? xs n

  pub length-append : (xs ys : List A) → length (xs ++ ys) ≡ length xs + length ys
  length-append [] ys = omega arith
  length-append (x ∷ xs) ys = omega (arith, length-append xs ys)

  pub last-append : (xs : List A) (y : A) → last (xs ++ y ∷ []) ≡ some y
  last-append [] y = refl
  last-append (x ∷ []) y = refl
  last-append (x ∷ z ∷ zs) y = last-append (z ∷ zs) y

  pub take-append-drop : (n : ℕ) (xs : List A) → take n xs ++ drop n xs ≡ xs
  take-append-drop zero xs = refl
  take-append-drop (suc n) [] = refl
  take-append-drop (suc n) (x ∷ xs) = ap (λ ys. x ∷ ys) (take-append-drop n xs)

  pub take_all : (n : ℕ) (xs : List A) → length xs ≤ n → take n xs ≡ xs
  take_all zero [] h = refl
  take_all zero (x ∷ xs) h = absurd (omega arith)
  take_all (suc n) [] h = refl
  take_all (suc n) (x ∷ xs) h = ap (λ ys. x ∷ ys) (take_all n xs (omega arith))

  pub take-take : (n : ℕ) (xs : List A) → take n (take (suc n) xs) ≡ take n xs
  take-take zero xs = refl
  take-take (suc n) [] = refl
  take-take (suc n) (x ∷ xs) = ap (λ ys. x ∷ ys) (take-take n xs)

  pub length-take : (n : ℕ) (xs : List A) → n ≤ length xs → length (take n xs) ≡ n
  length-take zero xs h = refl
  length-take (suc n) [] h = absurd (omega arith)
  length-take (suc n) (x ∷ xs) h = ap suc (length-take n xs (omega arith))

  pub length-drop : (n : ℕ) (xs : List A) → length (drop n xs) ≡ length xs - n
  length-drop zero xs = omega arith
  length-drop (suc n) [] = omega arith
  length-drop (suc n) (x ∷ xs) = omega (arith, length-drop n xs)

  -- The element before a cut.
  pub get_elem?-split :
      (n : ℕ) (xs : List A)
      → n < length xs
      → (x : A) × (get_elem? xs n ≡ some x) × (xs ≡ take n xs ++ x ∷ drop (suc n) xs)
  get_elem?-split n [] h = absurd (omega arith)
  get_elem?-split zero (x ∷ xs) h = (x, refl, refl)
  get_elem?-split (suc n) (x ∷ xs) h =
      let (y, e, split) = get_elem?-split n xs (omega arith) in (y, e, ap (λ ys. x ∷ ys) split)

module _ {ℓ} {A : Type ℓ} (key : A → ℕ) where
  unfoldable pub insert_by : A → List A → List A
  insert_by x [] = x ∷ []
  insert_by x (y ∷ ys) =
      let rest = insert_by x ys in if ltb (key y) (key x) then y ∷ rest else x ∷ y ∷ ys

  -- ORDER BY key
  unfoldable pub order_by : List A → List A
  unfolding insert_by
  order_by [] = []
  order_by (x ∷ xs) = insert_by x (order_by xs)

  abbrev pub is_above : ℕ → A → Bool
  is_above n x = ltb n (key x)

  abbrev pub has_key : ℕ → A → Bool
  has_key n x = nat_eq (key x) n

  -- Every key of the list is above a number.
  abbrev pub AllAbove : ℕ → List A → Type 0
  AllAbove n [] = Unit {0}
  AllAbove n (x ∷ xs) = (n < key x) × AllAbove n xs

  abbrev pub IsAscending : List A → Type 0
  IsAscending [] = Unit {0}
  IsAscending (x ∷ xs) = AllAbove (key x) xs × IsAscending xs

  -- No two rows have one key.
  abbrev pub HasNoTies : List A → Type 0
  HasNoTies [] = Unit {0}
  HasNoTies (x ∷ xs) = (exists (has_key (key x)) xs ≡ false) × HasNoTies xs

  pub AllAbove-trans : (m n : ℕ) (xs : List A) → m ≤ n → AllAbove n xs → AllAbove m xs
  AllAbove-trans m n [] h a = tt
  AllAbove-trans m n (x ∷ xs) h a = (omega arith, AllAbove-trans m n xs h a.1)

  AllAbove-insert_by :
      (n : ℕ) (x : A) (xs : List A) → n < key x → AllAbove n xs → AllAbove n (insert_by x xs)
  unfolding insert_by
  AllAbove-insert_by n x [] h a = (h, tt)
  AllAbove-insert_by n x (y ∷ ys) h a = elim (Bool-cases (ltb (key y) (key x))) [
    | inl e ↦ rw e (a.0, AllAbove-insert_by n x ys h a.1)
    | inr e ↦ rw e (h, a)
  ]

  insert_by-IsAscending :
      (x : A) (xs : List A)
      → exists (has_key (key x)) xs ≡ false
      → IsAscending xs
      → IsAscending (insert_by x xs)
  unfolding insert_by exists
  insert_by-IsAscending x [] h a = (tt, tt)
  insert_by-IsAscending x (y ∷ ys) h a = elim (Bool-cases (ltb (key y) (key x))) [
    | inl e ↦ rw e (
      AllAbove-insert_by (key y) x ys (ground arith) a.0,
      insert_by-IsAscending x ys (ground arith) a.1,
    )
    | inr e ↦
        let above : key x < key y = ground arith in
        rw e ((above, AllAbove-trans (key x) (key y) ys (omega arith) a.0), a)
  ]

  exists-insert_by :
      (n : ℕ) (x : A) (xs : List A)
      → exists (has_key n) (insert_by x xs) ≡ (has_key n x || exists (has_key n) xs)
  unfolding insert_by exists
  exists-insert_by n x [] = refl
  exists-insert_by n x (y ∷ ys) = ground (arith, exists-insert_by n x ys)

  exists-order_by : (n : ℕ) (xs : List A) → exists (has_key n) (order_by xs) ≡ exists (has_key n) xs
  unfolding order_by exists
  exists-order_by n [] = refl
  exists-order_by n (x ∷ xs) =
      ground (arith, exists-insert_by n x (order_by xs), exists-order_by n xs)

  -- Rows without ties are in strict order after ORDER BY.
  pub order_by-IsAscending : (xs : List A) → HasNoTies xs → IsAscending (order_by xs)
  unfolding order_by
  order_by-IsAscending [] h = tt
  order_by-IsAscending (x ∷ xs) h =
      insert_by-IsAscending x (order_by xs) (exists-order_by (key x) xs ∙ h.0)
        (order_by-IsAscending xs h.1)

  pub select_where_above : (n : ℕ) (xs : List A) → AllAbove n xs → select_where (is_above n) xs ≡ xs
  unfolding select_where
  select_where_above n [] a = refl
  select_where_above n (x ∷ xs) a = ground (arith, select_where_above n xs)

  -- In an ascending list, the rows above one row are those after it.
  pub select_where_after :
      (before : List A) (x : A) (after : List A)
      → IsAscending (before ++ x ∷ after)
      → select_where (is_above (key x)) (before ++ x ∷ after) ≡ after
  unfolding select_where
  select_where_after [] x after a = ground (arith, select_where_above (key x) after a.0)
  select_where_after (y ∷ ys) x after a =
      ground (arith, below_last ys (key y) a.0, select_where_after ys x after a.1)
    where
      below_last : (ys : List A) (n : ℕ) → AllAbove n (ys ++ x ∷ after) → n < key x
      below_last [] n h = h.0
      below_last (z ∷ zs) n h = below_last zs n h.1

  insert_by_least : (x : A) (xs : List A) → AllAbove (key x) xs → insert_by x xs ≡ x ∷ xs
  unfolding insert_by
  insert_by_least x [] a = refl
  insert_by_least x (y ∷ ys) a = ground arith

  pub AllAbove-select_where :
      (n : ℕ) (q : A → Bool) (xs : List A) → AllAbove n xs → AllAbove n (select_where q xs)
  unfolding select_where
  AllAbove-select_where n q [] a = tt
  AllAbove-select_where n q (x ∷ xs) a = elim (Bool-cases (q x)) [
    | inl e ↦ rw e (a.0, AllAbove-select_where n q xs a.1)
    | inr e ↦ rw e (AllAbove-select_where n q xs a.1)
  ]

  select_where-insert_by :
      (q : A → Bool) (x : A) (xs : List A)
      → exists (has_key (key x)) xs ≡ false
      → IsAscending xs
      → select_where q (insert_by x xs)
        ≡ (if q x then insert_by x (select_where q xs) else select_where q xs)
  unfolding select_where insert_by exists
  select_where-insert_by q x [] h a = refl
  select_where-insert_by q x (y ∷ ys) h a = ground (
    arith,
    select_where-insert_by q x ys,
    insert_by_least x (select_where q ys),
    AllAbove-trans (key x) (key y) (select_where q ys),
    AllAbove-select_where (key y) q ys,
  )

  -- WHERE and ORDER BY may be exchanged.
  pub select_where-order_by :
      (q : A → Bool) (xs : List A)
      → HasNoTies xs
      → order_by (select_where q xs) ≡ select_where q (order_by xs)
  unfolding select_where order_by
  select_where-order_by q [] h = refl
  select_where-order_by q (x ∷ xs) h =
      let fresh = exists-order_by (key x) xs ∙ h.0 in
      rw
        (
          select_where-insert_by q x (order_by xs) fresh (order_by-IsAscending xs h.1),
          ← select_where-order_by q xs h.1,
        )
        (elim (Bool-cases (q x)) [ inl e ↦ rw e refl | inr e ↦ rw e refl ])

  -- Rows in the order of their keys are left as they are.
  pub order_by_of_IsAscending : (xs : List A) → IsAscending xs → order_by xs ≡ xs
  unfolding order_by
  order_by_of_IsAscending [] a = refl
  order_by_of_IsAscending (x ∷ xs) a =
      rw (order_by_of_IsAscending xs a.1) (insert_by_least x xs a.0)

pub select_where-and {ℓ} :
    {A : Type ℓ} (p q : A → Bool) (xs : List A)
    → select_where (λ x. p x && q x) xs ≡ select_where q (select_where p xs)
unfolding select_where
select_where-and p q [] = refl
select_where-and p q (x ∷ xs) = ground (arith, select_where-and p q xs)

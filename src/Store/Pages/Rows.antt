-- ===== src/Store/Pages/Rows.antt =====
-- Rows in the order of a number: the last one of a page, and those after it.
use mathlib.Core.Path.{subst}
use code_forge.Prelude.{
  ℕ, suc, zero, ◌≤◌, ◌<◌, ◌≡◌, ◌∙◌, ap, refl, sym, Bool, some, List, [], ◌∷◌, ◌++◌, arith,
  Bool-cases, inl, inr,
}
use code_forge.Prelude.Tables.{length, take, select_where}
use code_forge.Prelude.Order.{
  get_elem?, drop, last, is_above, AllAbove, IsAscending, AllAbove-select_where, select_where_after,
}

module _ {ℓ} {A : Type ℓ} (key : A → ℕ) where
  IsAscending-select_where :
      (q : A → Bool) (xs : List A) → IsAscending key xs → IsAscending key (select_where q xs)
  unfolding select_where
  IsAscending-select_where q [] a = tt
  IsAscending-select_where q (x ∷ xs) a = elim (Bool-cases (q x)) [
    | inl e ↦ rw e (AllAbove-select_where key (key x) q xs a.0, IsAscending-select_where q xs a.1)
    | inr e ↦ rw e (IsAscending-select_where q xs a.1)
  ]

  all_above : (n : ℕ) (xs : List A) → AllAbove key n (select_where (is_above key n) xs)
  unfolding select_where
  all_above n [] = tt
  all_above n (x ∷ xs) = elim (Bool-cases (is_above key n x)) [
    | inl e ↦ rw e (ground arith, all_above n xs)
    | inr e ↦ rw e (all_above n xs)
  ]

  above_twice :
      (a b : ℕ) (xs : List A)
      → a ≤ b
      → select_where (is_above key b) (select_where (is_above key a) xs)
        ≡ select_where (is_above key b) xs
  unfolding select_where
  above_twice a b [] h = refl
  above_twice a b (x ∷ xs) h = ground (arith, above_twice a b xs)

  AllAbove-last :
      (n : ℕ) (before : List A) (y : A) (after : List A)
      → AllAbove key n (before ++ y ∷ after)
      → n < key y
  AllAbove-last n [] y after h = h.0
  AllAbove-last n (x ∷ xs) y after h = AllAbove-last n xs y after h.1

  -- The last row of a page.
  pub record PageEnd (k : ℕ) (rows : List A) : Type ℓ where
    pub before : List A
    pub row : A
    pub page : take (suc k) rows ≡ before ++ row ∷ []
    pub at_end : last (take (suc k) rows) ≡ some row
    pub whole : rows ≡ before ++ row ∷ drop (suc k) rows

  unfoldable pub page_end : (k : ℕ) (x : A) (xs : List A) → PageEnd k (x ∷ xs)
  page_end zero x xs = record { before = []; row = x; page = refl; at_end = refl; whole = refl }
  page_end (suc k) x [] = record { before = []; row = x; page = refl; at_end = refl; whole = refl }
  page_end (suc k) x (y ∷ ys) =
      let e = page_end k y ys in
      record {
        before = x ∷ e.before;
        row = e.row;
        page = ap (λ zs. x ∷ zs) e.page;
        at_end = e.at_end;
        whole = ap (λ zs. x ∷ zs) e.whole;
      }

  -- The rows above the last row of a page are those after the page.
  pub rows_after_page :
      (n k : ℕ) (rows : List A) (x : A) (xs : List A)
      → IsAscending key rows
      → select_where (is_above key n) rows ≡ x ∷ xs
      → select_where (is_above key (key (page_end k x xs).row)) rows ≡ drop (suc k) (x ∷ xs)
  rows_after_page n k rows x xs a h =
      let e = page_end k x xs in
      let ascending : IsAscending key (e.before ++ e.row ∷ drop (suc k) (x ∷ xs)) =
        subst (IsAscending key) (h ∙ e.whole) (IsAscending-select_where (is_above key n) rows a) in
      let above : n < key e.row =
        AllAbove-last n e.before e.row (drop (suc k) (x ∷ xs))
          (subst (AllAbove key n) (h ∙ e.whole) (all_above n rows)) in
      sym (above_twice n (key e.row) rows (omega (arith, above)))
      ∙ ap (select_where (is_above key (key e.row))) (h ∙ e.whole)
      ∙ select_where_after key e.before e.row (drop (suc k) (x ∷ xs)) ascending

  -- The last row of a full page is found by its place in a longer one.
  pub get_elem?-page_end :
      (k : ℕ) (x : A) (xs : List A)
      → suc k ≤ length (x ∷ xs)
      → get_elem? (take (suc (suc k)) (x ∷ xs)) k ≡ some (page_end k x xs).row
  unfolding page_end
  get_elem?-page_end zero x xs h = refl
  get_elem?-page_end (suc k) x [] h = absurd (omega arith)
  get_elem?-page_end (suc k) x (y ∷ ys) h = get_elem?-page_end k y ys (omega arith)

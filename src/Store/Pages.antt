-- ===== src/Store/Pages.antt =====
-- src/code_forge/persistence/sqlite_store.py: reading rows in the order of a number, page by page.
pub mod Rows
pub mod Events
pub mod Messages
pub mod Sessions
pub mod Thread
pub mod Feed
pub mod Numbers
pub mod Whole
use mathlib.Core.Path.{subst}
use code_forge.Prelude.{
  map, ℕ, suc, zero, ◌≤◌, ◌<◌, ◌≡◌, ◌∙◌, ap, refl, sym, Bool, Option, none, some, List, [], ◌∷◌,
  ◌++◌, arith, Bool-cases, inl, inr, true, false, String, if◌then◌else◌,
}
use code_forge.Prelude.Tables.{length, take, select_where}
use code_forge.Prelude.Order.{
  drop, last, is_above, AllAbove, IsAscending, AllAbove-select_where, select_where_after,
}
use code_forge.Contracts.Result.{Result, ok, err, Failure, ErrorCode}
use code_forge.Store.Monad.{
  Tx, World, Env, File, pure, fail, lift, select, or_raise, check, continue, ◌>>=◌, ◌>>◌,
}
use code_forge.Prelude.Order.{last, last-append}
use code_forge.Store.Ran.{ok-inj}
use code_forge.Store.Schema.{Db}
use code_forge.Store.Content.{read_message, read_object_json}
use code_forge.Store.Events.{base_for_session}

-- A SELECT's rows, each decoded: `[f(row) for row in rows]`.
unfoldable pub each {ℓ κ} : {A : Type ℓ} {B : Type κ} → (A → Tx B) → List A → Tx (List B)
unfolding pure
each f [] = pure []
each f (x ∷ xs) = do y ← f x; ys ← each f xs; pure (y ∷ ys)

-- A result that is computed from content files.
unfoldable pub from_files {ℓ} : {A : Type ℓ} → (List File → Result A) → Tx A
from_files f w = (f w.files, w)

abbrev pub cons_ok {ℓ} : {B : Type ℓ} → Result B → Result (List B) → Result (List B)
cons_ok (ok y) (ok ys) = ok (y ∷ ys)
cons_ok (ok y) (err e) = err e
cons_ok (err e) _ = err e

-- Every result of a list, or the first exception.
unfoldable pub all_ok {ℓ κ} : {A : Type ℓ} {B : Type κ} → (A → Result B) → List A → Result (List B)
all_ok f [] = ok []
all_ok f (x ∷ xs) = cons_ok (f x) (all_ok f xs)

abbrev pub append_ok {ℓ} : {B : Type ℓ} → Result (List B) → Result (List B) → Result (List B)
append_ok (ok us) (ok vs) = ok (us ++ vs)
append_ok (ok us) (err e) = err e
append_ok (err e) _ = err e

-- A method that changes nothing.
pub record IsRead {ℓ} {A : Type ℓ} (m : Tx A) : Type ℓ where
  pub same : (w : World) → (m w).1 ≡ w

module _ {ℓ κ} {A : Type ℓ} {B : Type κ} where
  continue_same :
      (w v : World) (r : Result A) (f : A → Tx B)
      → v ≡ w
      → ((a : A) → IsRead (f a))
      → (continue r f v).1 ≡ w
  continue_same w v (ok a) f e h = (h a).same v ∙ e
  continue_same w v (err x) f e h = e

  pub IsRead-bind :
      (m : Tx A) (f : A → Tx B) → IsRead m → ((a : A) → IsRead (f a)) → IsRead (m >>= f)
  IsRead-bind m f p q = record { same = λ w. continue_same w (m w).1 (m w).0 f (p.same w) q }

module _ {ℓ} {A : Type ℓ} where
  pub IsRead-pure : (a : A) → IsRead (pure a)
  unfolding pure
  IsRead-pure a = record { same = λ w. refl }

  pub IsRead-fail : (e : Failure) → IsRead (fail {A = A} e)
  unfolding fail
  IsRead-fail e = record { same = λ w. refl }

  pub IsRead-lift : (r : Result A) → IsRead (lift r)
  unfolding lift
  IsRead-lift r = record { same = λ w. refl }

  pub IsRead-select : (f : Db → A) → IsRead (select f)
  unfolding select
  IsRead-select f = record { same = λ w. refl }

  pub IsRead-from_files : (f : List File → Result A) → IsRead (from_files f)
  unfolding from_files
  IsRead-from_files f = record { same = λ w. refl }

  pub IsRead-if : (b : Bool) (m n : Tx A) → IsRead m → IsRead n → IsRead (if b then m else n)
  IsRead-if true m n p q = p
  IsRead-if false m n p q = q

pub IsRead-or_raise {ℓ} : {A : Type ℓ} (o : Option A) (c : ErrorCode) → IsRead (or_raise o c)
unfolding or_raise
IsRead-or_raise o c = record { same = λ w. refl }

pub IsRead-check : (b : Bool) (e : Failure) → IsRead (check b e)
unfolding check
IsRead-check b e = record { same = λ w. refl }

pub IsRead-then {ℓ κ} :
    {A : Type ℓ} {B : Type κ} (m : Tx A) (n : Tx B) → IsRead m → IsRead n → IsRead (m >> n)
IsRead-then m n p q = IsRead-bind m (λ _. n) p (λ _. q)

pub IsRead-each {ℓ κ} :
    {A : Type ℓ} {B : Type κ} (f : A → Tx B) (xs : List A)
    → ((x : A) → IsRead (f x))
    → IsRead (each f xs)
unfolding each
IsRead-each f [] h = IsRead-pure []
IsRead-each f (x ∷ xs) h =
    IsRead-bind (f x) _ (h x)
      (λ y. IsRead-bind (each f xs) _ (IsRead-each f xs h) (λ ys. IsRead-pure (y ∷ ys)))

module _ (env : Env) where
  pub IsRead-base : (session_id : String) → IsRead (base_for_session env session_id)
  unfolding base_for_session
  IsRead-base session_id = IsRead-select _

  pub IsRead-read_message :
      (base : String) (ref : Option String) → IsRead (read_message env base ref)
  unfolding read_message
  IsRead-read_message base none = record { same = λ w. refl }
  IsRead-read_message base (some ref) = record { same = λ w. refl }

  pub IsRead-read_object_json :
      (base : String) (ref : Option String) → IsRead (read_object_json env base ref)
  unfolding read_object_json
  IsRead-read_object_json base none = record { same = λ w. refl }
  IsRead-read_object_json base (some ref) = record { same = λ w. refl }

pub ruleset read_rules = (
  IsRead-bind, IsRead-pure, IsRead-fail, IsRead-lift, IsRead-select, IsRead-from_files, IsRead-if,
  IsRead-base, IsRead-read_message, IsRead-read_object_json, IsRead-or_raise, IsRead-check,
  IsRead-then, IsRead-each,
)

module _ {κ} {B : Type κ} where
  pub cons_ok-parts :
      (r : Result B) (rs : Result (List B)) (ys : List B)
      → cons_ok r rs ≡ ok ys
      → (y : B) × (zs : List B) × (r ≡ ok y) × (rs ≡ ok zs) × (y ∷ zs ≡ ys)
  cons_ok-parts (ok y) (ok zs) ys h = (y, zs, refl, refl, ok-inj h)
  cons_ok-parts (ok y) (err e) ys h = absurd (ground arith)
  cons_ok-parts (err e) rs ys h = absurd (ground arith)

  cons-append_ok :
      (r : Result B) (us vs : Result (List B))
      → cons_ok r (append_ok us vs) ≡ append_ok (cons_ok r us) vs
  cons-append_ok (ok y) (ok us) (ok vs) = refl
  cons-append_ok (ok y) (ok us) (err e) = refl
  cons-append_ok (ok y) (err e) vs = refl
  cons-append_ok (err e) us vs = refl

  append_ok-nil : (r : Result (List B)) → append_ok (ok []) r ≡ r
  append_ok-nil (ok vs) = refl
  append_ok-nil (err e) = refl

  pub last_ok :
      (us : Result (List B)) (v : Result B) (items : List B)
      → append_ok us (cons_ok v (ok [])) ≡ ok items
      → (item : B) × (last items ≡ some item) × (v ≡ ok item)
  last_ok (ok us) (ok y) items h =
      (y, subst (λ ys. last ys ≡ some y) (ok-inj h) (last-append us y), refl)
  last_ok (ok us) (err e) items h = absurd (ground arith)
  last_ok (err e) v items h = absurd (ground arith)

  continue-pure :
      (y : B) (r : Result (List B)) (w : World)
      → continue r (λ ys. pure (y ∷ ys)) w ≡ (cons_ok (ok y) r, w)
  unfolding pure
  continue-pure y (ok ys) w = refl
  continue-pure y (err e) w = refl

module _ {ℓ κ} {A : Type ℓ} {B : Type κ} where
  pub all_ok-length :
      (f : A → Result B) (xs : List A) (ys : List B) → all_ok f xs ≡ ok ys → length ys ≡ length xs
  unfolding all_ok
  all_ok-length f [] ys h = ap length (sym (ok-inj h))
  all_ok-length f (x ∷ xs) ys h =
      let (y, zs, first, rest, whole) = cons_ok-parts (f x) (all_ok f xs) ys h in
      ap length (sym whole) ∙ ap suc (all_ok-length f xs zs rest)

  -- Results that tell what they were computed from are of the rows, in their order.
  pub map-all_ok :
      (f : A → Result B) (back : B → A) (xs : List A) (ys : List B)
      → ((x : A) (y : B) → f x ≡ ok y → back y ≡ x)
      → all_ok f xs ≡ ok ys
      → map back ys ≡ xs
  unfolding all_ok
  map-all_ok f back [] ys of h = ap (map back) (sym (ok-inj h))
  map-all_ok f back (x ∷ xs) ys of h =
      let (y, zs, first, rest, whole) = cons_ok-parts (f x) (all_ok f xs) ys h in
      ap (map back) (sym whole)
      ∙ ap (λ z. z ∷ map back zs) (of x y first)
      ∙ ap (λ zs. x ∷ zs) (map-all_ok f back xs zs of rest)

  -- Two parts of a list, one after the other.
  pub all_ok-append :
      (f : A → Result B) (xs ys : List A)
      → all_ok f (xs ++ ys) ≡ append_ok (all_ok f xs) (all_ok f ys)
  unfolding all_ok
  all_ok-append f [] ys = sym (append_ok-nil (all_ok f ys))
  all_ok-append f (x ∷ xs) ys =
      ap (cons_ok (f x)) (all_ok-append f xs ys) ∙ cons-append_ok (f x) (all_ok f xs) (all_ok f ys)

  continue-each :
      (f : A → Tx B) (xs : List A) (r : Result B) (v w : World) (rest : Result (List B))
      → v ≡ w
      → each f xs w ≡ (rest, w)
      → continue r (λ y. each f xs >>= λ ys. pure (y ∷ ys)) v ≡ (cons_ok r rest, w)
  unfolding each pure
  continue-each f xs (err e) v w rest same h = rw same refl
  continue-each f xs (ok y) v w rest same h =
      subst (λ u. (each f xs >>= λ ys. pure (y ∷ ys)) u ≡ (cons_ok (ok y) rest, w)) (sym same)
        (ap (λ (p : Result (List B) × World). continue p.0 (λ ys. pure (y ∷ ys)) p.1) h
          ∙ continue-pure y rest w)

  -- Rows that are read one by one leave the world, and give all results or the first exception.
  pub each_reads :
      (f : A → Tx B) (xs : List A) (w : World)
      → ((x : A) → IsRead (f x))
      → each f xs w ≡ (all_ok (λ x. (f x w).0) xs, w)
  unfolding each all_ok pure
  each_reads f [] w h = refl
  each_reads f (x ∷ xs) w h =
      continue-each f xs (f x w).0 (f x w).1 w (all_ok (λ x. (f x w).0) xs) ((h x).same w)
        (each_reads f xs w h)

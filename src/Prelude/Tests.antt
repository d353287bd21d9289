-- ===== src/Prelude/Tests.antt =====
-- Boolean tests on numbers and texts, as the source's conditions use them.
use Prim.Native.Nat.{ℕ, ◌<◌, ◌≤◌, compare, Ordering}
use Prim.Native.String.{String, compare as compare_text}
use mathlib.Core.Path.{◌≡◌, refl}
use mathlib.Core.Logic.{◌⊎◌, inl, inr}
use mathlib.Core.Bool.{Bool, true, false}
use mathlib.Core.Option.{Option, none, some}
use native.Mathlib.Omega.{arith}
use text.Mathlib.Text.{◌==◌}

abbrev pub ltb : ℕ → ℕ → Bool
ltb a b = elim (compare a b) [ Ordering.lt ↦ true | _ ↦ false ]

abbrev pub leb : ℕ → ℕ → Bool
leb a b = elim (compare a b) [ Ordering.gt ↦ false | _ ↦ true ]

-- Equality of numbers; `==` is that of texts.
abbrev pub nat_eq : ℕ → ℕ → Bool
nat_eq a b = elim (compare a b) [ Ordering.eq ↦ true | _ ↦ false ]

-- Python's integers
pub data ℤ : Type 0 where
  pos negsuc : ℕ → ℤ

-- min(a, b)
abbrev pub least : ℕ → ℕ → ℕ
least a b = elim (compare a b) [ Ordering.gt ↦ b | _ ↦ a ]

infix 1 if◌then◌else◌
abbrev pub if◌then◌else◌ {ℓ} : {A : Type ℓ} → Bool → A → A → A
if true then x else y = x
if false then x else y = y

-- `a <= b` and `a < b` on texts, code point by code point, as Python and SQLite's BINARY collation.
abbrev pub text_le : String → String → Bool
text_le a b = elim (compare_text a b) [ Ordering.gt ↦ false | _ ↦ true ]

abbrev pub text_lt : String → String → Bool
text_lt a b = elim (compare_text a b) [ Ordering.lt ↦ true | _ ↦ false ]

-- Python's truth value of a text.
abbrev pub nonempty : String → Bool
nonempty s = if s == "" then false else true

-- SQL's `a = b` where a column or an argument may be NULL: NULL equals nothing.
abbrev pub sql_eq : Option String → Option String → Bool
sql_eq (some a) (some b) = a == b
sql_eq _ _ = false

-- SQL's `a IS b`, and Python's `==` on `str | None`.
abbrev pub sql_is : Option String → Option String → Bool
sql_is none none = true
sql_is (some a) (some b) = a == b
sql_is _ _ = false

abbrev pub is_none {ℓ} : {A : Type ℓ} → Option A → Bool
is_none none = true
is_none (some _) = false

abbrev pub is_some {ℓ} : {A : Type ℓ} → Option A → Bool
is_some none = false
is_some (some _) = true

-- Python's `a or b` on `str | None`, where the empty text counts as missing.
abbrev pub or_text : Option String → String → String
or_text none d = d
or_text (some a) d = if nonempty a then a else d

-- SQL's `COALESCE(a, b)`.
abbrev pub coalesce {ℓ} : {A : Type ℓ} → Option A → Option A → Option A
coalesce none b = b
coalesce (some a) _ = some a

pub Bool-cases : (b : Bool) → (b ≡ true) ⊎ (b ≡ false)
Bool-cases true = inl refl
Bool-cases false = inr refl

pub ltb→lt : (a b : ℕ) → ltb a b ≡ true → a < b
ltb→lt a b h = ground arith

pub leb→le : (a b : ℕ) → leb a b ≡ true → a ≤ b
leb→le a b h = ground arith

pub nat_eq→eq : (a b : ℕ) → nat_eq a b ≡ true → a ≡ b
nat_eq→eq a b h = ground arith

pub nat_eq_refl : (a : ℕ) → nat_eq a a ≡ true
nat_eq_refl a = ground arith

pub ruleset tests = (arith, ltb→lt, leb→le, nat_eq→eq)

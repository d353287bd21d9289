-- ===== src/Store/Ran.antt =====
-- What a method that returned, or that raised, has done.
use code_forge.Prelude.{arith, ◌≡◌, refl, Bool, true, false}
use mathlib.Core.Path.{subst}
use code_forge.Contracts.Result.{Result, ok, err, Failure}
use code_forge.Store.Schema.{Db}
use code_forge.Store.Monad.{Tx, World, transaction, ok_if, continue, pure, ◌>>=◌, ◌>>◌}

module _ {ℓ κ} {A : Type ℓ} {B : Type κ} where
  -- A chain that returned: what its first part returned, and the rest from there.
  pub record Chain (m : Tx A) (f : A → Tx B) (w : World) (b : B) : Type (ℓ ⊔ κ) where
    pub value : A
    pub first : (m w).0 ≡ ok value
    pub then_ok : (f value (m w).1).0 ≡ ok b
    pub whole : (m >>= f) w ≡ f value (m w).1

  run-Chain :
      (m : Tx A) (f : A → Tx B) (w : World) (b : B) (r : Result A)
      → (m w).0 ≡ r
      → (continue r f (m w).1).0 ≡ ok b
      → Chain m f w b
  run-Chain m f w b (ok a) e h = record { value = a; first = e; then_ok = h; whole = rw e refl }
  run-Chain m f w b (err x) e h = absurd (ground arith)

  pub bind-ok :
      (m : Tx A) (f : A → Tx B) (w : World) (b : B) → ((m >>= f) w).0 ≡ ok b → Chain m f w b
  bind-ok m f w b h = run-Chain m f w b (m w).0 refl h

module _ {ℓ} {A : Type ℓ} where
  transaction_of :
      (m : Tx A) (w : World) (a : A) (r : Result A × World)
      → (transaction (λ _. r) w).0 ≡ ok a
      → transaction (λ _. r) w ≡ r
  unfolding transaction
  transaction_of m w a (ok b, w') h = refl
  transaction_of m w a (err e, w') h = absurd (ground arith)

  -- A transaction that returned has done what its body did.
  pub transaction-ok :
      (m : Tx A) (w : World) (a : A) → (transaction m w).0 ≡ ok a → transaction m w ≡ m w
  unfolding transaction
  transaction-ok m w a h = transaction_of m w a (m w) h

pub check-ok : (b : Bool) (e : Failure) {u : Unit {0}} → ok_if b e ≡ ok u → b ≡ true
check-ok true e h = refl
check-ok false e h = absurd (ground arith)

-- What every return of a method says of its value and the database that it leaves.
pub record Returns {ℓ} {A : Type ℓ} (Q : A → Db → Type 0) (m : Tx A) : Type ℓ where
  pub holds : (w : World) (a : A) → (m w).0 ≡ ok a → Q a (m w).1.db

module _ {ℓ κ} {A : Type ℓ} {B : Type κ} {Q : B → Db → Type 0} where
  pub Returns-bind : (m : Tx A) (f : A → Tx B) → ((a : A) → Returns Q (f a)) → Returns Q (m >>= f)
  Returns-bind m f h = record {
    holds =
        λ w b e. let c = bind-ok m f w b e in rw c.whole ((h c.value).holds (m w).1 b c.then_ok);
  }

  pub Returns-then : (m : Tx A) (n : Tx B) → Returns Q n → Returns Q (m >> n)
  Returns-then m n h = Returns-bind m (λ _. n) (λ _. h)

pub Returns-transaction {ℓ} :
    {A : Type ℓ} {Q : A → Db → Type 0} (m : Tx A) → Returns Q m → Returns Q (transaction m)
Returns-transaction m h = record {
  holds = λ w a e. rw (transaction-ok m w a e) (h.holds w a (rw (← transaction-ok m w a e) e));
}

pub ok-inj {ℓ} : {A : Type ℓ} {a b : A} → ok a ≡ ok b → a ≡ b
ok-inj e = cc

pub Returns-pure {ℓ} :
    {A : Type ℓ} {Q : A → Db → Type 0} (a : A) → ((d : Db) → Q a d) → Returns Q (pure a)
unfolding pure
Returns-pure {Q = Q} a q = record { holds = λ w b e. subst (λ c. Q c w.db) (ok-inj e) (q w.db) }

pub ruleset returns_rules = (Returns-bind, Returns-then, Returns-transaction)

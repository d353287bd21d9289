-- ===== src/Store/Preserves.antt =====
-- Relations between the database before and after a method, on every branch: one rule for each way
-- to build a method. A rolled back transaction, and anything that only touches files, is at rest.
use code_forge.Prelude.{ℕ, String, ◌≡◌, refl, Bool, true, false, Option, none, some, if◌then◌else◌}
use code_forge.Json.{Json}
use code_forge.Contracts.Result.{Result, ok, err, Failure, ErrorCode}
use code_forge.Store.Schema.{Db}
use code_forge.Store.Monad.{
  Tx, World, Env, pure, fail, lift, select, or_raise, transaction, now, uuid4, update, check,
  continue, ◌>>=◌, ◌>>◌,
}
use code_forge.Store.Content.{
  append_record, write_object, write_message, write_snapshot, read_message, read_object_json,
}

-- A relation that holds from a database to itself and along two steps.
pub record Closed (R : Db → Db → Type 0) : Type 0 where
  pub same : (d : Db) → R d d
  pub two : (a b c : Db) → R a b → R b c → R a c

pub record Preserves {ℓ} {A : Type ℓ} (R : Db → Db → Type 0) (m : Tx A) : Type ℓ where
  pub at : (w : World) → R w.db (m w).1.db

module _ {ℓ} {A : Type ℓ} (R : Db → Db → Type 0) ⦃c : Closed R⦄ where
  rolled_back :
      (before : Db) (r : Result A) (w : World)
      → R before w.db
      → R before (transaction (λ _. (r, w)) (record w { db = before })).1.db
  unfolding transaction
  rolled_back before (ok a) w h = h
  rolled_back before (err e) w h = c.same before

module _ {ℓ κ} {A : Type ℓ} {B : Type κ} (R : Db → Db → Type 0) where
  -- what comes after may use the result and the world that led to it
  pub continue_at :
      (before : Db) (r : Result A) (w : World) (f : A → Tx B)
      → R before w.db
      → ((a : A) → r ≡ ok a → R before (f a w).1.db)
      → R before (continue r f w).1.db
  continue_at before (ok a) w f h k = k a refl
  continue_at before (err e) w f h k = h

  pub bind_at :
      (w : World) (m : Tx A) (f : A → Tx B)
      → R w.db (m w).1.db
      → ((a : A) → (m w).0 ≡ ok a → R w.db (f a (m w).1).1.db)
      → R w.db ((m >>= f) w).1.db
  bind_at w m f h k = continue_at w.db (m w).0 (m w).1 f h k

module _ {ℓ} {A : Type ℓ} {R : Db → Db → Type 0} ⦃c : Closed R⦄ where
  pub Preserves-pure : (a : A) → Preserves R (pure a)
  unfolding pure
  Preserves-pure a = record { at = λ w. c.same w.db }

  pub Preserves-fail : (e : Failure) → Preserves R (fail {A = A} e)
  unfolding fail
  Preserves-fail e = record { at = λ w. c.same w.db }

  pub Preserves-lift : (r : Result A) → Preserves R (lift r)
  unfolding lift
  Preserves-lift r = record { at = λ w. c.same w.db }

  pub Preserves-select : (f : Db → A) → Preserves R (select f)
  unfolding select
  Preserves-select f = record { at = λ w. c.same w.db }

  pub Preserves-or_raise : (o : Option A) (e : ErrorCode) → Preserves R (or_raise o e)
  unfolding or_raise
  Preserves-or_raise o e = record { at = λ w. c.same w.db }

  pub Preserves-transaction : (m : Tx A) → Preserves R m → Preserves R (transaction m)
  unfolding transaction
  Preserves-transaction m p = record {
    at = λ w. let (r, w') = m w in rolled_back R w.db r w' (p.at w);
  }

  pub Preserves-if :
      (b : Bool) (m n : Tx A) → Preserves R m → Preserves R n → Preserves R (if b then m else n)
  Preserves-if true m n p q = p
  Preserves-if false m n p q = q

module _ {R : Db → Db → Type 0} ⦃c : Closed R⦄ where
  pub Preserves-now : (env : Env) → Preserves R (now env)
  unfolding now
  Preserves-now env = record { at = λ w. c.same w.db }

  pub Preserves-uuid4 : (env : Env) → Preserves R (uuid4 env)
  unfolding uuid4
  Preserves-uuid4 env = record { at = λ w. c.same w.db }

  pub Preserves-check : (b : Bool) (e : Failure) → Preserves R (check b e)
  unfolding check
  Preserves-check b e = record { at = λ w. c.same w.db }

  pub Preserves-update : (f : Db → Db) → ((d : Db) → R d (f d)) → Preserves R (update f)
  unfolding update
  Preserves-update f h = record { at = λ w. h w.db }

  pub Preserves-append_record :
      (env : Env) (base directory : String) (j : Json)
      → Preserves R (append_record env base directory j)
  unfolding append_record
  Preserves-append_record env base directory j = record { at = λ w. c.same w.db }

  pub Preserves-write_object :
      (env : Env) (base relative payload : String)
      → Preserves R (write_object env base relative payload)
  unfolding write_object
  Preserves-write_object env base relative payload = record { at = λ w. c.same w.db }

  pub Preserves-write_message :
      (env : Env) (base session_id run_id role content : String) (run_seq : ℕ)
      → Preserves R (write_message env base session_id run_id role content run_seq)
  unfolding write_message
  Preserves-write_message env base session_id run_id role content run_seq = record {
    at = λ w. c.same w.db;
  }

  pub Preserves-write_snapshot :
      (env : Env) (base session_id run_id encoded : String)
      → Preserves R (write_snapshot env base session_id run_id encoded)
  unfolding write_snapshot
  Preserves-write_snapshot env base session_id run_id encoded = record { at = λ w. c.same w.db }

  pub Preserves-read_message :
      (env : Env) (base : String) (ref : Option String) → Preserves R (read_message env base ref)
  unfolding read_message
  Preserves-read_message env base none = record { at = λ w. c.same w.db }
  Preserves-read_message env base (some ref) = record { at = λ w. c.same w.db }

  pub Preserves-read_object_json :
      (env : Env) (base : String) (ref : Option String)
      → Preserves R (read_object_json env base ref)
  unfolding read_object_json
  Preserves-read_object_json env base none = record { at = λ w. c.same w.db }
  Preserves-read_object_json env base (some ref) = record { at = λ w. c.same w.db }

module _ {ℓ κ} {A : Type ℓ} {B : Type κ} {R : Db → Db → Type 0} ⦃c : Closed R⦄ where
  pub Preserves-bind :
      (m : Tx A) (f : A → Tx B)
      → Preserves R m
      → ((a : A) → Preserves R (f a))
      → Preserves R (m >>= f)
  Preserves-bind m f p q = record {
    at = λ w.
        bind_at R w m f (p.at w)
          (λ a e. c.two w.db (m w).1.db (f a (m w).1).1.db (p.at w) ((q a).at (m w).1));
  }

  pub Preserves-then : (m : Tx A) (n : Tx B) → Preserves R m → Preserves R n → Preserves R (m >> n)
  Preserves-then m n p q = Preserves-bind m (λ _. n) p (λ _. q)

pub ruleset preserves_rules = (
  Preserves-pure, Preserves-fail, Preserves-lift, Preserves-select, Preserves-or_raise,
  Preserves-transaction, Preserves-if, Preserves-now, Preserves-uuid4, Preserves-check,
  Preserves-append_record, Preserves-write_object, Preserves-write_message,
  Preserves-write_snapshot, Preserves-read_message, Preserves-read_object_json, Preserves-bind,
  Preserves-then,
)

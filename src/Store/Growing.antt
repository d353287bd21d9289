-- ===== src/Store/Growing.antt =====
-- src/code_forge/persistence/sqlite_store.py: what the methods do to content files, on every branch.
pub mod Writers
pub mod Methods
pub mod Calls
use code_forge.Prelude.{
  List, ◌≡◌, ℕ, String, refl, Bool, true, false, Option, none, some, if◌then◌else◌,
}
use code_forge.Json.{Json}
use code_forge.Contracts.Result.{Result, ok, err, Failure, ErrorCode}
use code_forge.Store.Schema.{Db}
use code_forge.Store.Monad.{
  Tx, World, Env, pure, fail, lift, select, or_raise, transaction, now, uuid4, update, check,
  continue, ◌>>=◌, ◌>>◌, File,
}
use code_forge.Store.Content.{
  append_record, write_object, write_message, write_snapshot, read_message, read_object_json,
  read_file, under, keep_or_put,
}
use code_forge.Store.Content.Growth.{
  Extends, Extends-refl, Extends-trans, append_record_grows, put_new,
}

-- A method that leaves every file with what it held at its start.
pub record Grows {ℓ} {A : Type ℓ} (m : Tx A) : Type ℓ where
  pub at : (w : World) → Extends w.files (m w).1.files

module _ {ℓ} {A : Type ℓ} where
  pub Grows-pure : (a : A) → Grows (pure a)
  unfolding pure
  Grows-pure a = record { at = λ w. Extends-refl w.files }

  pub Grows-fail : (e : Failure) → Grows (fail {A = A} e)
  unfolding fail
  Grows-fail e = record { at = λ w. Extends-refl w.files }

  pub Grows-lift : (r : Result A) → Grows (lift r)
  unfolding lift
  Grows-lift r = record { at = λ w. Extends-refl w.files }

  pub Grows-select : (f : Db → A) → Grows (select f)
  unfolding select
  Grows-select f = record { at = λ w. Extends-refl w.files }

  pub Grows-or_raise : (o : Option A) (e : ErrorCode) → Grows (or_raise o e)
  unfolding or_raise
  Grows-or_raise o e = record { at = λ w. Extends-refl w.files }

  kept_files :
      (before : Db) (fs : List File) (r : Result A) (w : World)
      → Extends fs w.files
      → Extends fs (transaction (λ _. (r, w)) (record w { db = before })).1.files
  unfolding transaction
  kept_files before fs (ok a) w h = h
  kept_files before fs (err e) w h = h

  -- Files are not rolled back.
  pub Grows-transaction : (m : Tx A) → Grows m → Grows (transaction m)
  unfolding transaction
  Grows-transaction m p = record {
    at = λ w. let (r, w') = m w in kept_files w.db w.files r w' (p.at w);
  }

  pub Grows-if : (b : Bool) (m n : Tx A) → Grows m → Grows n → Grows (if b then m else n)
  Grows-if true m n p q = p
  Grows-if false m n p q = q

pub Grows-now : (env : Env) → Grows (now env)
unfolding now
Grows-now env = record { at = λ w. Extends-refl w.files }

pub Grows-uuid4 : (env : Env) → Grows (uuid4 env)
unfolding uuid4
Grows-uuid4 env = record { at = λ w. Extends-refl w.files }

pub Grows-check : (b : Bool) (e : Failure) → Grows (check b e)
unfolding check
Grows-check b e = record { at = λ w. Extends-refl w.files }

pub Grows-update : (f : Db → Db) → Grows (update f)
unfolding update
Grows-update f = record { at = λ w. Extends-refl w.files }

module _ (env : Env) (base : String) where
  pub Grows-append_record :
      (directory : String) (j : Json) → Grows (append_record env base directory j)
  Grows-append_record directory j = record { at = λ w. append_record_grows env base directory j w }

  pub Grows-write_object :
      (relative payload : String) → Grows (write_object env base relative payload)
  unfolding write_object
  Grows-write_object relative payload = record {
    at = λ w.
        kept_or_put (under base relative) w.files (read_file (under base relative) w.files) refl;
  }
    where
      kept_or_put :
          (path : String) (fs : List File) (o : Option String)
          → read_file path fs ≡ o
          → Extends fs (keep_or_put env o path payload fs)
      kept_or_put path fs none h = put_new path payload fs h
      kept_or_put path fs (some old) h = Extends-refl fs

  pub Grows-write_message :
      (session_id run_id role content : String) (run_seq : ℕ)
      → Grows (write_message env base session_id run_id role content run_seq)
  unfolding write_message
  Grows-write_message session_id run_id role content run_seq = Grows-write_object _ _

  pub Grows-write_snapshot :
      (session_id run_id encoded : String)
      → Grows (write_snapshot env base session_id run_id encoded)
  unfolding write_snapshot
  Grows-write_snapshot session_id run_id encoded = Grows-write_object _ _

  pub Grows-read_message : (ref : Option String) → Grows (read_message env base ref)
  unfolding read_message
  Grows-read_message none = record { at = λ w. Extends-refl w.files }
  Grows-read_message (some ref) = record { at = λ w. Extends-refl w.files }

  pub Grows-read_object_json : (ref : Option String) → Grows (read_object_json env base ref)
  unfolding read_object_json
  Grows-read_object_json none = record { at = λ w. Extends-refl w.files }
  Grows-read_object_json (some ref) = record { at = λ w. Extends-refl w.files }

module _ {ℓ κ} {A : Type ℓ} {B : Type κ} where
  continued :
      (fs : List File) (r : Result A) (w : World) (f : A → Tx B)
      → Extends fs w.files
      → ((a : A) → Grows (f a))
      → Extends fs (continue r f w).1.files
  continued fs (ok a) w f h q = Extends-trans fs w.files _ h ((q a).at w)
  continued fs (err e) w f h q = h

  pub Grows-bind : (m : Tx A) (f : A → Tx B) → Grows m → ((a : A) → Grows (f a)) → Grows (m >>= f)
  Grows-bind m f p q = record { at = λ w. continued w.files (m w).0 (m w).1 f (p.at w) q }

  pub Grows-then : (m : Tx A) (n : Tx B) → Grows m → Grows n → Grows (m >> n)
  Grows-then m n p q = Grows-bind m (λ _. n) p (λ _. q)

pub ruleset grows_rules = (
  Grows-pure, Grows-fail, Grows-lift, Grows-select, Grows-or_raise, Grows-transaction, Grows-if,
  Grows-now, Grows-uuid4, Grows-check, Grows-update, Grows-append_record, Grows-write_object,
  Grows-write_message, Grows-write_snapshot, Grows-read_message, Grows-read_object_json, Grows-bind,
  Grows-then,
)

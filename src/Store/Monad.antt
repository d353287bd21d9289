-- ===== src/Store/Monad.antt =====
-- src/code_forge/persistence/sqlite_store.py: the state that a method changes, and `_transaction`.
-- What a method wrote to content files before an exception stays written; the database is restored.
use code_forge.Prelude.{ℤ, ℕ, ◌+◌, String, Bool, true, false, Option, none, some, List}
use code_forge.Json.{Json}
use code_forge.Contracts.Result.{Result, ok, err, Failure, domain, ErrorCode}
use code_forge.Contracts.Binding.{PathLib}
use code_forge.Store.Schema.{Db}

-- A content file by its path.
pub record File : Type 0 where
  pub path : String
  pub body : String

-- `calls` counts the calls of `_now` and `uuid4`.
pub record World : Type 0 where
  pub db : Db
  pub files : List File
  pub calls : ℕ

-- Python's standard library as far as the store uses it, and what the store is built with.
-- `clock n` and `uuid n` are what the call after `n` calls returns, whatever that is.
-- `pad6 n` is f"{n:06d}"; `dumps` is json.dumps with sorted keys, `dumps_compact` with the
-- separators of `canonical_json` besides; `loads` is `none` where it raises.
-- `show` is `str` of a number, `int` is `none` where Python's raises.
pub record Env : Type 0 where
  pub clock : ℕ → String
  pub uuid : ℕ → String
  pub sha256 : String → String
  pub dumps : Json → String
  pub dumps_compact : Json → String
  pub loads : String → Option Json
  pub pad6 : ℕ → String
  pub show : ℕ → String
  pub int : String → Option ℤ
  pub paths : PathLib
  pub legacy_root : String
  pub max_file_bytes : ℕ

abbrev pub Tx {ℓ} : Type ℓ → Type ℓ
Tx A = World → Result A × World

module _ {ℓ} {A : Type ℓ} where
  unfoldable pub pure : A → Tx A
  pure a w = (ok a, w)

  unfoldable pub fail : Failure → Tx A
  fail e w = (err e, w)

  unfoldable pub lift : Result A → Tx A
  lift r w = (r, w)

  -- a SELECT
  unfoldable pub select : (Db → A) → Tx A
  select f w = (ok (f w.db), w)

  abbrev pub found_or : Option A → ErrorCode → Result A
  found_or (some a) c = ok a
  found_or none c = err (domain c)

  -- the row of a SELECT, or the exception for a missing one
  unfoldable pub or_raise : Option A → ErrorCode → Tx A
  or_raise o c w = (found_or o c, w)

  abbrev commit_or_rollback : Db → Result A × World → Result A × World
  commit_or_rollback before (ok a, w) = (ok a, w)
  commit_or_rollback before (err e, w) = (err e, record w { db = before })

  -- BEGIN IMMEDIATE; COMMIT, or ROLLBACK on an exception
  unfoldable pub transaction : Tx A → Tx A
  transaction m w = commit_or_rollback w.db (m w)

-- `_now()` and `str(uuid4())`
unfoldable pub now : Env → Tx String
now env w = (ok (env.clock w.calls), record w { calls = w.calls + 1 })

unfoldable pub uuid4 : Env → Tx String
uuid4 env w = (ok (env.uuid w.calls), record w { calls = w.calls + 1 })

-- an UPDATE or an INSERT
unfoldable pub update : (Db → Db) → Tx (Unit {0})
update f w = (ok tt, record w { db = f w.db })

abbrev pub ok_if : Bool → Failure → Result (Unit {0})
ok_if true e = ok tt
ok_if false e = err e

-- `if not test: raise e`
unfoldable pub check : Bool → Failure → Tx (Unit {0})
check b e w = (ok_if b e, w)

module _ {ℓ κ} {A : Type ℓ} {B : Type κ} where
  abbrev pub continue : Result A → (A → World → Result B × World) → World → Result B × World
  continue (ok a) f w = f a w
  continue (err e) f w = (err e, w)

  infixl 5 ◌>>=◌ ◌>>◌
  abbrev pub ◌>>=◌ :
      (World → Result A × World) → (A → World → Result B × World) → World → Result B × World
  ◌>>=◌ m f w = continue (m w).0 f (m w).1

  abbrev pub ◌>>◌ :
      (World → Result A × World) → (World → Result B × World) → World → Result B × World
  m >> n = m >>= λ _. n

-- ===== src/Store/Content/Reading.antt =====
-- src/code_forge/persistence/content_store.py: reading a record of a log file back.
use Prim.Native.String.{len}
use text.Mathlib.Text.{get?}
use code_forge.Prelude.{
  ℕ, ◌+◌, String, Option, none, some, List, least, nonempty, ◌&&◌, not, ◌==◌, if◌then◌else◌,
}
use code_forge.Json.{Json}
use code_forge.Contracts.Result.{
  Result, ok, err, os_error, value_error, domain, dependency_unavailable, ◌>>=◌,
}
use code_forge.Store.Monad.{File, Env}
use code_forge.Store.Content.{under, read_file}

-- `raw.decode("utf-8")` of the bytes from `offset`, which may end inside a character.
unfoldable pub bytes_at : String → ℕ → ℕ → Option String
bytes_at body offset length =
    get? body (least offset (len body)) (least (offset + length) (len body))

module _ (env : Env) where
  abbrev pub or_os_error : Option String → Result String
  or_os_error none = err os_error
  or_os_error (some body) = ok body

  abbrev pub or_value_error {ℓ} : {A : Type ℓ} → Option A → Result A
  or_value_error none = err value_error
  or_value_error (some a) = ok a

  -- `read_record`
  unfoldable pub read_record : String → String → ℕ → ℕ → List File → Result Json
  unfolding read_file
  read_record base ref offset length files = do
    body ← or_os_error (read_file (under base ref) files)
    raw ← or_value_error (bytes_at body offset length)
    or_value_error (env.loads raw)

  -- `digest_json`
  abbrev pub digest_json : Json → String
  digest_json j = env.sha256 (env.dumps_compact j)

  -- `read_verified`; ContentUnavailable is reported by the store as an unavailable dependency.
  unfoldable pub read_verified : String → String → ℕ → ℕ → String → List File → Result Json
  read_verified base ref offset length expected files = do
    found ← read_record base ref offset length files
    if nonempty expected && not (digest_json found == expected)
        then err (domain dependency_unavailable)
        else ok found

-- ===== src/Store/Objects.antt =====
-- src/code_forge/persistence/content_store.py: object files are written once.
use Prim.Native.String.{len}
use code_forge.Prelude.{
  String, ◌≡◌, ◌≢◌, ap, refl, Option, none, some, List, [], ◌∷◌, arith, eq_iff, eq_refl,
}
use code_forge.Contracts.Result.{ok}
use code_forge.Store.Monad.{World, Env, File}
use code_forge.Store.Content.{
  write_object, read_object, read_file, put_file, under, keep_or_put, or_unavailable,
}

pub put_file-read_file :
    (path body : String) (fs : List File) → read_file path (put_file path body fs) ≡ some body
unfolding read_file put_file
put_file-read_file path body [] = rw (eq_refl path) refl
put_file-read_file path body (f ∷ fs) = ground (arith, put_file-read_file path body fs)

pub put_file-other :
    (path other body : String) (fs : List File)
    → path ≢ other
    → read_file other (put_file path body fs) ≡ read_file other fs
unfolding read_file put_file
put_file-other path other body [] apart = ground (arith, eq_iff path other)
put_file-other path other body (f ∷ fs) apart = ground (
  arith,
  put_file-other path other body fs,
  eq_iff path other,
  eq_iff f.path path,
  eq_iff f.path other,
)

abbrev or_payload : Option String → String → String
or_payload none payload = payload
or_payload (some old) payload = old

kept_or_put :
    (env : Env) (path payload : String) (fs : List File) (o : Option String)
    → read_file path fs ≡ o
    → read_file path (keep_or_put env o path payload fs) ≡ some (or_payload o payload)
kept_or_put env path payload fs none h = put_file-read_file path payload fs
kept_or_put env path payload fs (some old) h = h

kept_or_put-other :
    (env : Env) (path other payload : String) (fs : List File) (o : Option String)
    → path ≢ other
    → read_file other (keep_or_put env o path payload fs) ≡ read_file other fs
kept_or_put-other env path other payload fs none h = put_file-other path other payload fs h
kept_or_put-other env path other payload fs (some old) h = refl

module _ (env : Env) (base ref payload : String) (w : World) where
  -- After an object is written its path holds what it held before, where there was a file, and the
  -- payload otherwise; the reference that is returned is that of the payload in both cases.
  pub write_object-read_object :
      (read_object env base ref (write_object env base ref payload w).1.files
        ≡ ok (or_payload (read_file (under base ref) w.files) payload))
      × ((write_object env base ref payload w).0
          ≡ ok (record { ref = ref; bytes = len payload; digest = env.sha256 payload }))
  unfolding write_object read_object
  write_object-read_object =
      (ap (or_unavailable env) (kept_or_put env (under base ref) payload w.files _ refl), refl)

  -- A write of an object leaves every other path alone.
  pub write_object-other :
      (other : String)
      → under base ref ≢ other
      → read_file other (write_object env base ref payload w).1.files ≡ read_file other w.files
  unfolding write_object
  write_object-other other apart =
      kept_or_put-other env (under base ref) other payload w.files _ apart

-- ===== src/Store/Content/Growth.antt =====
-- src/code_forge/persistence/content_store.py: files only grow, so a record stays where it is.
use Prim.Native.String.{len, ◌++◌}
use Prim.Native.String.append
use mathlib.Core.Path.{subst}
use text.Mathlib.Text.{get?}
use text.Mathlib.TextLemmas.{append-nil, append_assoc}
use text.Mathlib.TextPositions.{get?-append_middle, len-append}
use code_forge.Prelude.{
  ◌+◌, ◌≡◌, ◌∙◌, ap, refl, sym, String, none, some, List, least, arith, eq_refl, eq_iff, Bool-cases,
  inl, inr, ◌==◌, ◌&&◌, not, nonempty, if◌then◌else◌,
}
use code_forge.Json.{Json}
use code_forge.Contracts.Result.{ok, err, domain, dependency_unavailable}
use code_forge.Store.Monad.{File, Env, World}
use code_forge.Store.Content.{
  ContentRef, under, read_file, put_file, append_record, next_file, old_body,
}
use code_forge.Store.Objects.{put_file-read_file, put_file-other}
use code_forge.Store.Content.Reading.{bytes_at, read_record, read_verified}

-- Every file is still there and starts with what it held.
pub record Extends (before after : List File) : Type 0 where
  pub at :
      (path body : String)
      → read_file path before ≡ some body
      → (more : String) × (read_file path after ≡ some (body ++ more))

pub Extends-refl : (fs : List File) → Extends fs fs
Extends-refl fs = record { at = λ path body h. ("", rw (append-nil body) h) }

pub Extends-trans : (a b c : List File) → Extends a b → Extends b c → Extends a c
Extends-trans a b c p q = record {
  at = λ path body h.
      let (more, e) = p.at path body h in
      let (rest, f) = q.at path (body ++ more) e in
      (more ++ rest, rw (f, append_assoc body more rest) refl);
}

-- A file that is written again with more at its end, and the others left.
put_file_grows :
    (path more : String) (fs : List File)
    → Extends fs (put_file path (old_body (read_file path fs) ++ more) fs)
put_file_grows path more fs = record {
  at = λ other body e. elim (Bool-cases (path == other)) [
    | inl same ↦ (more, grown other body ((eq_iff path other).0 same) e)
    | inr apart ↦ (
      "",
      put_file-other path other (old_body (read_file path fs) ++ more) fs
            (λ same. ground (arith, eq_iff path other))
          ∙ e
          ∙ ap some (sym (append-nil body)),
    )
  ];
}
  where
    grown :
        (other body : String)
        → path ≡ other
        → read_file other fs ≡ some body
        → read_file other (put_file path (old_body (read_file path fs) ++ more) fs)
          ≡ some (body ++ more)
    grown other body same e =
        subst
          (λ p.
            read_file p (put_file path (old_body (read_file path fs) ++ more) fs)
            ≡ some (body ++ more))
          same
          (put_file-read_file path (old_body (read_file path fs) ++ more) fs
            ∙ ap (λ o. some (old_body o ++ more))
                (subst (λ p. read_file p fs ≡ some body) (sym same) e))

-- A file that was not there.
pub put_new :
    (path body : String) (fs : List File)
    → read_file path fs ≡ none
    → Extends fs (put_file path body fs)
put_new path body fs h =
    subst (λ s. Extends fs (put_file path s fs)) (ap (λ o. old_body o ++ body) h ∙ append.nil body)
      (put_file_grows path body fs)

-- Where the file grew, a span of it reads as before.
bytes_at_grown : (a b more : String) → bytes_at ((a ++ b) ++ more) (len a) (len b) ≡ some b
unfolding bytes_at
bytes_at_grown a b more =
    let whole = (a ++ b) ++ more in
    let from : least (len a) (len whole) ≡ len a =
      ground (arith, len-append (a ++ b) more, len-append a b) in
    let to : least (len a + len b) (len whole) ≡ len a + len b =
      ground (arith, len-append (a ++ b) more, len-append a b) in
    ap (λ k. get? whole k (least (len a + len b) (len whole))) from
    ∙ ap (λ k. get? whole (len a) k) to
    ∙ ap (λ s. get? s (len a) (len a + len b)) (append_assoc a b more)
    ∙ get?-append_middle a b more

pub append_record_grows :
    (env : Env) (base directory : String) (j : Json) (w : World)
    → Extends w.files (append_record env base directory j w).1.files
unfolding append_record
append_record_grows env base directory j w = put_file_grows _ _ w.files

module _ (env : Env) (base : String) (j : Json)
    (parses : env.loads (env.dumps_compact j ++ "\n") ≡ some j) where
  digest_agrees :
      (s : String) (k : Json)
      → (if nonempty s && not (s == s) then err (domain dependency_unavailable) else ok k) ≡ ok k
  digest_agrees s k =
      rw (eq_refl s) (elim (Bool-cases (nonempty s)) [ inl e ↦ rw e refl | inr e ↦ rw e refl ])

  read_grown :
      (ref old more : String) (fs : List File)
      → read_file (under base ref) fs ≡ some ((old ++ (env.dumps_compact j ++ "\n")) ++ more)
      → read_verified env base ref
          (len old)
          (len (env.dumps_compact j ++ "\n"))
          (env.sha256 (env.dumps_compact j))
          fs
        ≡ ok j
  unfolding read_verified read_record
  read_grown ref old more fs h =
      rw (h, bytes_at_grown old (env.dumps_compact j ++ "\n") more, parses)
        (digest_agrees (env.sha256 (env.dumps_compact j)) j)

  pub append_record-read_verified :
      (directory : String) (w : World) (fs : List File)
      → Extends (append_record env base directory j w).1.files fs
      → (c : ContentRef) × ((append_record env base directory j w).0 ≡ ok c)
        × (read_verified env base c.ref c.offset c.bytes c.digest fs ≡ ok j)
  unfolding append_record
  append_record-read_verified directory w fs grows =
      let encoded = env.dumps_compact j ++ "\n" in
      let ref = next_file env base directory (len encoded) w.files in
      let old = old_body (read_file (under base ref) w.files) in
      let (more, h) =
        grows.at (under base ref) (old ++ encoded)
          (put_file-read_file (under base ref) (old ++ encoded) w.files) in
      (
        record {
          ref = ref;
          offset = len old;
          bytes = len encoded;
          digest = env.sha256 (env.dumps_compact j);
        },
        refl,
        read_grown ref old more fs h,
      )

-- ===== src/Store/Content.antt =====
-- src/code_forge/persistence/content_store.py, and the methods of
-- src/code_forge/persistence/sqlite_store.py that write and read bodies through it.
-- Files are whole texts by path; a length is that of the UTF-8 bytes.
pub mod Reading
pub mod Growth
use Prim.Native.String.{len, slice, ◌++◌}
use text.Mathlib.Text.{starts_with}
use code_forge.Prelude.{
  ℕ, ◌+◌, ◌-◌, String, Bool, ◌&&◌, Option, none, some, List, [], ◌∷◌, ltb, text_lt, nonempty,
  if◌then◌else◌, ◌==◌,
}
use code_forge.Prelude.Tables.{count_where}
use code_forge.Json.{Json, null, obj, end, field, str, num, get_field}
use code_forge.Contracts.Result.{Result, ok, err, domain, attribute_error, dependency_unavailable}
use code_forge.Store.Schema.{TextRef}
use code_forge.Store.Monad.{File, Env, Tx}

pub record ContentRef : Type 0 where
  pub ref : String
  pub offset : ℕ
  pub bytes : ℕ
  pub digest : String

pub record ObjectRef : Type 0 where
  pub ref : String
  pub bytes : ℕ
  pub digest : String

-- `base / relative`
abbrev pub under : String → String → String
under base relative = base ++ "/" ++ relative

abbrev is_at : String → File → Bool
is_at path f = f.path == path

-- The body of the file at a path, if there is one.
unfoldable pub read_file : String → List File → Option String
read_file path [] = none
read_file path (f ∷ fs) = if f.path == path then some f.body else read_file path fs

unfoldable pub put_file : String → String → List File → List File
put_file path body [] = record { path = path; body = body } ∷ []
put_file path body (f ∷ fs) =
    if f.path == path then record f { body = body } ∷ fs else f ∷ put_file path body fs

abbrev ends_with : String → String → Bool
ends_with s t = slice s (len s - len t) (len s) == t

-- `directory.glob("content-*.jsonl")`
abbrev is_log : String → File → Bool
is_log prefix f = starts_with f.path prefix && ends_with f.path ".jsonl"

-- `sorted(...)[-1]`
latest : String → List File → Option File
latest prefix [] = none
latest prefix (f ∷ fs) = pick (latest prefix fs)
  where
    pick : Option File → Option File
    pick none = if is_log prefix f then some f else none
    pick (some g) = if is_log prefix f && text_lt g.path f.path then some f else some g

-- The bytes of a file that may not be there.
abbrev pub old_body : Option String → String
old_body none = ""
old_body (some s) = s

module _ (env : Env) where
  -- The log file that takes the next record, relative to the base.
  unfoldable pub next_file : String → String → ℕ → List File → String
  unfolding latest count_where
  next_file base directory incoming files =
      let prefix = under base (directory ++ "/content-") in
      elim (latest prefix files) [
        | none ↦ directory ++ "/content-000001.jsonl"
        | some f ↦
            if nonempty f.body && ltb env.max_file_bytes (len f.body + incoming)
            then directory
              ++ "/content-"
              ++ env.pad6 (count_where (is_log prefix) files + 1)
              ++ ".jsonl"
            else slice f.path (len base + 1) (len f.path)
      ]

  unfoldable pub append_record : String → String → Json → Tx ContentRef
  unfolding next_file read_file put_file
  append_record base directory rec w =
      let encoded = env.dumps_compact rec ++ "\n" in
      let ref = next_file base directory (len encoded) w.files in
      let old = old_body (read_file (under base ref) w.files) in
      (
        ok (record {
          ref = ref;
          offset = len old;
          bytes = len encoded;
          digest = env.sha256 (env.dumps_compact rec);
        }),
        record w { files = put_file (under base ref) (old ++ encoded) w.files },
      )

  -- An object file is written once: a later write to its path leaves it.
  abbrev pub keep_or_put : Option String → String → String → List File → List File
  keep_or_put (some _) path payload files = files
  keep_or_put none path payload files = put_file path payload files

  unfoldable pub write_object : String → String → String → Tx ObjectRef
  unfolding read_file put_file
  write_object base relative payload w = (
    ok (record { ref = relative; bytes = len payload; digest = env.sha256 payload }),
    record w {
      files =
          keep_or_put (read_file (under base relative) w.files) (under base relative) payload
            w.files;
    },
  )

  -- `read_object`; the file that is missing is ContentUnavailable, which the store reports so.
  abbrev pub or_unavailable : Option String → Result String
  or_unavailable none = err (domain dependency_unavailable)
  or_unavailable (some s) = ok s

  unfoldable pub read_object : String → String → List File → Result String
  unfolding read_file
  read_object base ref files = or_unavailable (read_file (under base ref) files)

  -- `_write_message`
  unfoldable pub write_message : String → String → String → String → String → ℕ → Tx ObjectRef
  unfolding write_object
  write_message base session_id run_id role content run_seq =
      write_object base
        ("sessions/" ++ session_id ++ "/messages/" ++ run_id ++ "-" ++ role ++ ".json")
        (env.dumps_compact (
          obj (
            field "schema_version" (str "1") (
              field "session_id" (str session_id) (
                field "run_id" (str run_id) (
                  field "run_seq" (num run_seq)
                    (field "role" (str role) (field "content" (str content) end))))))))

  -- `_write_snapshot`
  unfoldable pub write_snapshot : String → String → String → String → Tx ObjectRef
  unfolding write_object
  write_snapshot base session_id run_id encoded =
      write_object base ("sessions/" ++ session_id ++ "/snapshots/" ++ run_id ++ ".json") encoded

  -- `record.get("content", "")`, which is None where it is null
  abbrev content_of : Option Json → Option Json
  content_of none = some (str "")
  content_of (some null) = none
  content_of (some j) = some j

  abbrev decoded_content : Option Json → Result (Option Json)
  decoded_content (some (obj fs)) = ok (content_of (get_field "content" fs))
  decoded_content none = err (domain dependency_unavailable)
  decoded_content (some _) = err attribute_error

  abbrev message_of : Result String → Result (Option Json)
  message_of (ok payload) = decoded_content (env.loads payload)
  message_of (err e) = err e

  -- `_read_message`
  unfoldable pub read_message : String → Option String → Tx (Option Json)
  unfolding read_object
  read_message base none w = (ok none, w)
  read_message base (some ref) w =
      (if nonempty ref then message_of (read_object base ref w.files) else ok none, w)

  abbrev decoded_json : Result String → Result (Option Json)
  decoded_json (err e) = err e
  decoded_json (ok payload) = elim (env.loads payload) [
    | none ↦ err (domain dependency_unavailable)
    | some j ↦ ok (some j)
  ]

  -- `_read_object_json`
  unfoldable pub read_object_json : String → Option String → Tx (Option Json)
  unfolding read_object
  read_object_json base none w = (ok none, w)
  read_object_json base (some ref) w =
      (if nonempty ref then decoded_json (read_object base ref w.files) else ok none, w)

-- The columns of an object: `size` is in characters for texts, in bytes for JSON objects.
abbrev pub text_ref : ObjectRef → ℕ → TextRef
text_ref o size = record { ref = o.ref; digest = o.digest; size = size }

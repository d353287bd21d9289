-- ===== src/Transport/Parsing.antt =====
-- src/code_forge/transport/server.py: reading the fields of requests.
use Prim.Native.String.{slice, ◌++◌}
use text.Mathlib.Text.{starts_with}
use code_forge.Prelude.{
  ℕ, String, Bool, true, false, not, ◌&&◌, ◌||◌, Option, none, some, List, [], ◌∷◌, nonempty, least,
  ℤ, pos, negsuc, if◌then◌else◌, ◌==◌,
}
use code_forge.Json.{Json, null, str, Fields, get_field}
use code_forge.Contracts.Result.{Result, ok, err, domain, invalid_request, guard, ◌>>=◌, ◌>>◌}
use code_forge.Contracts.Binding.{UserBinding, make_binding}
use code_forge.Store.Monad.{Env}
use code_forge.Store.Sessions.{SessionView}

-- pathlib as the adapter uses it: `Path(value).is_absolute()` and `path.resolve(strict=False)`
-- without `expanduser`, with what `resolve` raises; `exists` is the file system at the time.
pub record ServerPaths : Type 0 where
  pub is_absolute : String → Bool
  pub resolve : String → Result String
  pub exists : String → Bool

-- A name of a query with its values, of which `parse_qs` gives at least one.
pub record QueryItem : Type 0 where
  pub name : String
  pub first : String
  pub others : List String

abbrev pub query_first : String → List QueryItem → Option String
query_first name [] = none
query_first name (q ∷ qs) = if q.name == name then some q.first else query_first name qs

-- `_query_value`
abbrev pub query_value : String → List QueryItem → Option String
query_value name query = elim (query_first name query) [
  | none ↦ none
  | some v ↦ if nonempty v then some v else none
]

-- `_required_query`
abbrev pub required_query : String → List QueryItem → Result String
required_query name query = elim (query_value name query) [
  | none ↦ err (domain invalid_request)
  | some v ↦ ok v
]

abbrev pub within : ℕ → Option ℤ → Result ℕ
within maximum none = err (domain invalid_request)
within maximum (some (negsuc n)) = err (domain invalid_request)
within maximum (some (pos n)) = ok (least n maximum)

abbrev not_up : List String → Bool
not_up [] = true
not_up (p ∷ ps) = not (p == "..") && not_up ps

abbrev is_some_part : List String → Bool
is_some_part [] = false
is_some_part (p ∷ ps) = true

abbrev without_dots : List String → List String
without_dots [] = []
without_dots (p ∷ ps) = let rest = without_dots ps in if p == "" || p == "." then rest else p ∷ rest

-- `value in (None, "")`
abbrev is_unset : Option Json → Bool
is_unset none = true
is_unset (some null) = true
is_unset (some (str s)) = s == ""
is_unset (some _) = false

module _ (env : Env) where
  abbrev pub int_or : ℕ → ℕ → Option String → Result ℕ
  int_or default maximum none = ok default
  int_or default maximum (some raw) = within maximum (env.int raw)

  -- `_int_query`
  unfoldable pub int_query : String → ℕ → ℕ → List QueryItem → Result ℕ
  int_query name default maximum query = int_or default maximum (query_first name query)

  -- a text that is not blank
  abbrev text_of : Option Json → Result String
  text_of (some (str s)) = if env.paths.is_blank s then err (domain invalid_request) else ok s
  text_of _ = err (domain invalid_request)

  -- `_required_string`
  unfoldable pub required_string : String → Fields → Result String
  required_string name body = text_of (get_field name body)

  -- `_reference`
  unfoldable pub reference : Option Json → Bool → Result String
  reference value allow_empty =
      if is_unset value && allow_empty
      then ok ""
      else (do s ← text_of value; guard (env.paths.is_reference s) invalid_request; ok s)

  -- `_user_ref`
  abbrev pub user_ref_of : String → String
  user_ref_of user_rel_path = "u-" ++ slice (env.sha256 user_rel_path) 0 32

  -- `_derived_project_ref`
  abbrev pub derived_project_ref : Option String → String
  derived_project_ref none = "__default__"
  derived_project_ref (some p) = "__derived_" ++ slice (env.sha256 p) 0 24

  abbrev some_ok : Result String → Result (Option String)
  some_ok (ok s) = ok (some s)
  some_ok (err e) = err e

  -- `_relative_path`
  unfoldable pub relative_path : ServerPaths → Option Json → Result String
  relative_path paths value = do
    s ← text_of value
    guard (not (paths.is_absolute s)) invalid_request
    guard
        (is_some_part (without_dots (env.paths.parts s))
          && not_up (without_dots (env.paths.parts s)))
        invalid_request
    ok (env.paths.of_parts (without_dots (env.paths.parts s)))

  -- `_absolute_path`
  unfoldable pub absolute_path : ServerPaths → Option Json → Result String
  absolute_path paths value = do
    s ← text_of value
    guard (paths.is_absolute s) invalid_request
    paths.resolve s

  module _ (paths : ServerPaths) where
    abbrev optional_relative : Option Json → Result (Option String)
    optional_relative value =
        if is_unset value then ok none else some_ok (relative_path paths value)

    abbrev internal_ref : String → Option String → String
    internal_ref public_ref relative =
        if nonempty public_ref then public_ref else derived_project_ref relative

    abbrev project_root : String → String → Option String → Result String
    project_root user_path public_ref (some relative) =
        paths.resolve (env.paths.join user_path relative)
    project_root user_path public_ref none =
        if nonempty public_ref
        then ok (
            env.paths.join (env.paths.join (env.paths.join user_path "workspace") "projects")
              public_ref)
        else ok (env.paths.join user_path "workspace")

    abbrev or_blank : Option String → String
    or_blank none = ""
    or_blank (some s) = s

    -- `_binding_from_payload`
    unfoldable pub binding_from_payload :
        Option Json → Option Json → Option Json → Option Json → Result UserBinding
    unfolding absolute_path relative_path reference make_binding
    binding_from_payload storage_root user_rel_path project_ref project_rel_path = do
      root ← absolute_path paths storage_root
      user_relative ← relative_path paths user_rel_path
      project_relative ← optional_relative project_rel_path
      public_ref ← reference project_ref true
      user_path ← paths.resolve (env.paths.join root user_relative)
      project_path ← project_root user_path public_ref project_relative
      resolved ← paths.resolve project_path
      make_binding env.paths (record {
        scope_id = user_ref_of user_relative;
        tenant_ref = "platform";
        user_ref = user_ref_of user_relative;
        user_path = user_path;
        project_ref = internal_ref public_ref project_relative;
        project_path = some resolved;
        storage_root = root;
        user_rel_path = user_relative;
        project_rel_path = or_blank project_relative;
      })

    abbrev public_ref_of : String → Json
    public_ref_of internal = if starts_with internal "__" then null else str internal

    -- `_binding_from_session`
    unfoldable pub binding_from_session : SessionView → Result (Option UserBinding)
    unfolding binding_from_payload
    binding_from_session v =
        if not (nonempty v.workspace.project_path) || not (nonempty v.workspace.user_path)
        then ok none
        else elim (env.paths.relative_to v.workspace.project_path v.workspace.user_path) [
          | none ↦ ok none
          | some relative ↦
              if not (nonempty v.workspace.storage_root)
              then ok none
              else bound (
                  binding_from_payload (some (str v.workspace.storage_root))
                    (some (str v.workspace.user_rel_path))
                    (some (public_ref_of v.workspace.project_ref)) (some (str relative)))
        ]
      where
        bound : Result UserBinding → Result (Option UserBinding)
        bound (ok b) = ok (some b)
        bound (err e) = err e

-- ===== src/Contracts/Binding.antt =====
-- src/code_forge/contracts.py: UserBinding with the checks of its `__post_init__`, and
-- ExecutionContext. pathlib and re are given by a record.
use code_forge.Prelude.{
  String, Bool, true, not, ◌&&◌, ◌||◌, ◌==◌, Option, none, some, List, [], ◌∷◌, nonempty,
  if◌then◌else◌,
}
use code_forge.Contracts.Result.{Result, ok, err, domain, invalid_request, guard, ◌>>=◌, ◌>>◌}

pub record UserBinding : Type 0 where
  pub scope_id : String
  pub tenant_ref : String
  pub user_ref : String
  pub user_path : String
  pub project_ref : String
  pub project_path : String
  pub storage_root : String
  pub user_rel_path : String
  pub project_rel_path : String

-- The arguments of the constructor.
pub record BindingArgs : Type 0 where
  pub scope_id : String
  pub tenant_ref : String
  pub user_ref : String
  pub user_path : String
  pub project_ref : String
  pub project_path : Option String
  pub storage_root : String
  pub user_rel_path : String
  pub project_rel_path : String

pub record ExecutionContext : Type 0 where
  pub scope_id : String
  pub actor_ref : Option String
  pub external_ref : Option String
  pub user_binding : Option UserBinding

-- `is_absolute` and `resolve` are of `Path(value).expanduser()`; `resolve` is `none` on OSError.
-- `join` is `(Path(a) / b).as_posix()`, `relative_to` is `none` on ValueError, and `is_reference`
-- is the match of a text of 1 to 200 characters with [A-Za-z0-9._-]+.
pub record PathLib : Type 0 where
  pub is_blank : String → Bool
  pub has_nul : String → Bool
  pub is_reference : String → Bool
  pub is_absolute : String → Bool
  pub resolve : String → Option String
  pub join : String → String → String
  pub parts : String → List String
  pub of_parts : List String → String
  pub relative_to : String → String → Option String

abbrev or_invalid : Option String → Result String
or_invalid none = err (domain invalid_request)
or_invalid (some s) = ok s

abbrev without_dots : List String → List String
without_dots [] = []
without_dots (p ∷ ps) = let rest = without_dots ps in if p == "" || p == "." then rest else p ∷ rest

abbrev goes_up : List String → Bool
goes_up [] = true
goes_up (p ∷ []) = p == ".."
goes_up (p ∷ q ∷ ps) = p == ".." || goes_up (q ∷ ps)

module _ (lib : PathLib) where
  -- `_canonical_path`
  unfoldable pub canonical_path : String → Result String
  canonical_path value = do
    guard (not (lib.is_blank value || lib.has_nul value)) invalid_request
    guard (lib.is_absolute value) invalid_request
    or_invalid (lib.resolve value)

  -- `_canonical_relative_path`; `goes_up` holds of no parts too
  unfoldable pub canonical_relative_path : String → Result String
  canonical_relative_path value = do
    guard (not (lib.is_blank value || lib.has_nul value)) invalid_request
    guard (not (lib.is_absolute value)) invalid_request
    guard (not (goes_up (without_dots (lib.parts value)))) invalid_request
    ok (lib.of_parts (without_dots (lib.parts value)))

  -- storage_root and user_rel_path, held to user_path
  unfoldable pub check_storage : BindingArgs → String → Result (String × String)
  unfolding canonical_path canonical_relative_path
  check_storage a user_path =
      if nonempty a.storage_root
      then (do
        storage_root ← canonical_path a.storage_root
        user_rel_path ← canonical_relative_path a.user_rel_path
        expected ← or_invalid (lib.resolve (lib.join storage_root user_rel_path))
        guard (user_path == expected) invalid_request
        ok (storage_root, user_rel_path))
      else if nonempty a.user_rel_path
      then err (domain invalid_request)
      else ok ("", "")

  unfoldable pub project_path_of : BindingArgs → String → Option String → Result String
  unfolding canonical_path
  project_path_of a user_path none =
      ok (lib.join (lib.join (lib.join user_path "workspace") "projects") a.project_ref)
  project_path_of a user_path (some p) = canonical_path p

  unfoldable pub check_project : BindingArgs → String → String → String → Result String
  unfolding canonical_relative_path
  check_project a user_path project_path below =
      if nonempty a.project_rel_path
      then (do
        relative ← canonical_relative_path a.project_rel_path
        expected ← or_invalid (lib.resolve (lib.join user_path relative))
        guard (project_path == expected) invalid_request
        ok relative)
      else ok below

  -- `UserBinding(...)`
  unfoldable pub make_binding : BindingArgs → Result UserBinding
  unfolding canonical_path check_storage project_path_of check_project
  make_binding a = do
    guard
        (lib.is_reference a.scope_id
          && lib.is_reference a.tenant_ref
          && lib.is_reference a.user_ref
          && lib.is_reference a.project_ref)
        invalid_request
    guard (a.scope_id == a.user_ref) invalid_request
    user_path ← canonical_path a.user_path
    storage ← check_storage a user_path
    project_path ← project_path_of a user_path a.project_path
    below ← or_invalid (lib.relative_to project_path user_path)
    guard (not (project_path == user_path)) invalid_request
    project_rel_path ← check_project a user_path project_path below
    ok (record {
      scope_id = a.scope_id;
      tenant_ref = a.tenant_ref;
      user_ref = a.user_ref;
      user_path = user_path;
      project_ref = a.project_ref;
      project_path = project_path;
      storage_root = storage.0;
      user_rel_path = storage.1;
      project_rel_path = project_rel_path;
    })

  abbrev pub default_skill_path : UserBinding → String
  default_skill_path b = lib.join (lib.join b.user_path "config") "skills"

-- The dataclass's `==`, field by field.
abbrev pub binding_eq : UserBinding → UserBinding → Bool
binding_eq a b =
    a.scope_id == b.scope_id
    && (a.tenant_ref == b.tenant_ref)
    && (a.user_ref == b.user_ref)
    && (a.user_path == b.user_path)
    && (a.project_ref == b.project_ref)
    && (a.project_path == b.project_path)
    && (a.storage_root == b.storage_root)
    && (a.user_rel_path == b.user_rel_path)
    && (a.project_rel_path == b.project_rel_path)

-- `ExecutionContext`, with its `__post_init__`.
abbrev of_scope : String → Option UserBinding → Bool
of_scope scope none = true
of_scope scope (some b) = b.scope_id == scope

unfoldable pub make_context :
    String → Option String → Option String → Option UserBinding → Result ExecutionContext
make_context scope actor_ref external_ref binding = do
  guard (of_scope scope binding) invalid_request
  ok (record {
    scope_id = scope;
    actor_ref = actor_ref;
    external_ref = external_ref;
    user_binding = binding;
  })

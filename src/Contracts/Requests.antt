-- ===== src/Contracts/Requests.antt =====
-- src/code_forge/contracts.py: the requests and snapshots that the store keeps, and their
-- `dataclasses.asdict`.
use code_forge.Prelude.{
  String, Bool, false, Option, none, some, List, [], ◌∷◌, ◌++◌, ◌||◌, ◌==◌, if◌then◌else◌,
}
use code_forge.Contracts.Result.{Result, ok, ◌>>=◌}
use code_forge.Json.{Json, Items, null, str, arr, obj, nil, cons, end, field, or_null, texts}
use code_forge.Contracts.Binding.{UserBinding, ExecutionContext, PathLib, canonical_path}

pub record SkillBinding : Type 0 where
  pub name : String
  pub version : Option String

pub record SkillRef : Type 0 where
  pub name : String
  pub version : String
  pub digest : String
  pub bundle_ref : String
  pub source_kind : String
  pub source_path : String
  pub user_ref : String
  pub project_ref : String

pub record RunRequest : Type 0 where
  pub session_id : String
  pub input : String
  pub agent_ref : String
  pub skills : List SkillBinding
  pub context : ExecutionContext
  pub skill_paths : Option (List String)

pub record RunSnapshot : Type 0 where
  pub agent_digest : String
  pub runtime_ref : String
  pub model_profile_ref : String
  pub execution_profile_ref : String
  pub skills : List SkillRef
  pub tool_refs : List String
  pub user_binding : Option UserBinding
  pub effective_skill_paths : List String
  pub skill_path_source : String
  pub path_digest : String

abbrev pub binding_json : Option UserBinding → Json
binding_json none = null
binding_json (some b) = obj (
    field "scope_id" (str b.scope_id) (
      field "tenant_ref" (str b.tenant_ref) (
        field "user_ref" (str b.user_ref) (
          field "user_path" (str b.user_path) (
            field "project_ref" (str b.project_ref) (
              field "project_path" (str b.project_path) (
                field "storage_root" (str b.storage_root) (
                  field "user_rel_path" (str b.user_rel_path)
                    (field "project_rel_path" (str b.project_rel_path) end)))))))))

abbrev pub context_json : ExecutionContext → Json
context_json c = obj (
    field "scope_id" (str c.scope_id) (
      field "actor_ref" (or_null c.actor_ref) (
        field "external_ref" (or_null c.external_ref)
          (field "user_binding" (binding_json c.user_binding) end))))

abbrev skill_bindings : List SkillBinding → Items
skill_bindings [] = nil
skill_bindings (s ∷ ss) =
    cons (obj (field "name" (str s.name) (field "version" (or_null s.version) end)))
      (skill_bindings ss)

abbrev skill_refs : List SkillRef → Items
skill_refs [] = nil
skill_refs (s ∷ ss) =
    cons
      (obj (
        field "name" (str s.name) (
          field "version" (str s.version) (
            field "digest" (str s.digest) (
              field "bundle_ref" (str s.bundle_ref) (
                field "source_kind" (str s.source_kind) (
                  field "source_path" (str s.source_path) (
                    field "user_ref" (str s.user_ref)
                      (field "project_ref" (str s.project_ref) end)))))))))
      (skill_refs ss)

abbrev paths_json : Option (List String) → Json
paths_json none = null
paths_json (some ps) = arr (texts ps)

abbrev pub request_json : RunRequest → Json
request_json r = obj (
    field "session_id" (str r.session_id) (
      field "input" (str r.input) (
        field "agent_ref" (str r.agent_ref) (
          field "skills" (arr (skill_bindings r.skills)) (
            field "context" (context_json r.context)
              (field "skill_paths" (paths_json r.skill_paths) end))))))

abbrev pub snapshot_json : RunSnapshot → Json
snapshot_json s = obj (
    field "agent_digest" (str s.agent_digest) (
      field "runtime_ref" (str s.runtime_ref) (
        field "model_profile_ref" (str s.model_profile_ref) (
          field "execution_profile_ref" (str s.execution_profile_ref) (
            field "skills" (arr (skill_refs s.skills)) (
              field "tool_refs" (arr (texts s.tool_refs)) (
                field "user_binding" (binding_json s.user_binding) (
                  field "effective_skill_paths" (arr (texts s.effective_skill_paths)) (
                    field "skill_path_source" (str s.skill_path_source)
                      (field "path_digest" (str s.path_digest) end))))))))))

-- `if path not in canonical: canonical.append(path)`
abbrev in_paths : String → List String → Bool
in_paths p [] = false
in_paths p (q ∷ qs) = q == p || in_paths p qs

abbrev add_path : List String → String → List String
add_path canonical p = if in_paths p canonical then canonical else canonical ++ p ∷ []

unfoldable canonical_from : PathLib → List String → List String → Result (List String)
unfolding canonical_path
canonical_from lib canonical [] = ok canonical
canonical_from lib canonical (v ∷ vs) = do
  path ← canonical_path lib v
  canonical_from lib (add_path canonical path) vs

-- `canonical_skill_paths`
unfoldable pub canonical_skill_paths : PathLib → List String → Result (List String)
unfolding canonical_from
canonical_skill_paths lib values = canonical_from lib [] values

-- `RunRequest(...)`
unfoldable pub make_request : PathLib → RunRequest → Result RunRequest
unfolding canonical_skill_paths
make_request lib r = elim r.skill_paths [
  | none ↦ ok r
  | some values ↦
      canonical_skill_paths lib values >>= λ paths. ok (record r { skill_paths = some paths })
]

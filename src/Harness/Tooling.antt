-- ===== src/Harness/Tooling.antt =====
-- src/code_forge/harness/tooling.py: the choice of a skill.
pub mod Choice
use Prim.Native.String.{◌++◌ as ◌<>◌}
use code_forge.Prelude.{
  String, Bool, true, false, not, ◌==◌, Option, none, some, List, [], ◌∷◌, nat_eq, nonempty,
  if◌then◌else◌,
}
use code_forge.Prelude.Tables.{exists}
use code_forge.Contracts.Result.{Result, ok, err, attribute_error, type_error, ◌>>=◌}
use code_forge.Json.{
  Json, Items, Fields, null, bool, num, str, arr, obj, nil, cons, end, field, get_field,
}

abbrev pub is_truthy : Json → Bool
is_truthy null = false
is_truthy (bool b) = b
is_truthy (num n) = not (nat_eq n 0)
is_truthy (str s) = nonempty s
is_truthy (arr nil) = false
is_truthy (arr (cons j js)) = true
is_truthy (obj end) = false
is_truthy (obj (field k j fs)) = true

-- `item["name"] ... if item.get("name")`
abbrev add_name : Option Json → List Json → List Json
add_name none names = names
add_name (some j) names = if is_truthy j then j ∷ names else names

unfoldable pub names_of : Items → Result (List Json)
names_of nil = ok []
names_of (cons (obj fs) js) = names_of js >>= λ names. ok (add_name (get_field "name" fs) names)
names_of (cons _ js) = err attribute_error

-- The items of the value under "skills". Those of a text or of a dict are texts, which have no `get`.
unfoldable pub skills_of : Option Json → Result (List Json)
unfolding names_of
skills_of none = ok []
skills_of (some (arr js)) = names_of js
skills_of (some (str s)) = if nonempty s then err attribute_error else ok []
skills_of (some (obj end)) = ok []
skills_of (some (obj (field k j fs))) = err attribute_error
skills_of (some _) = err type_error

-- `active_skill_names`, of the value of run.get("config_snapshot", {}).
unfoldable pub active_skill_names : Option Json → Result (List Json)
unfolding skills_of
active_skill_names none = ok []
active_skill_names (some (obj fs)) = skills_of (get_field "skills" fs)
active_skill_names (some _) = err attribute_error

abbrev pub is_text : String → Json → Bool
is_text s (str t) = s == t
is_text s _ = false

-- `isinstance(requested, str) and requested in names`
unfoldable pub is_active : Json → List Json → Bool
unfolding exists
is_active (str s) names = exists (is_text s) names
is_active _ names = false

-- ", ".join(names)
abbrev pub joined : List Json → Result String
joined [] = ok ""
joined (str s ∷ []) = ok s
joined (str s ∷ n ∷ ns) = joined (n ∷ ns) >>= λ rest. ok (s <> ", " <> rest)
joined (_ ∷ ns) = err type_error

abbrev pub text_of : Json → String
text_of (str s) = s
text_of _ = ""

-- `render j` is `str(requested)`.
module _ (render : Json → String) where
  abbrev pub inactive_text : Json → String → String
  inactive_text requested all =
      "Skill '" <> render requested <> "' is not active for this Run. Active skills: " <> all

  abbrev pub not_active : Json → List Json → Result (Option String × Option String)
  not_active requested names = joined names >>= λ all. ok (none, some (inactive_text requested all))

  unfoldable pub choose : Json → List Json → Result (Option String × Option String)
  unfolding is_active
  choose requested [] = ok (some "", none)
  choose requested (n ∷ ns) =
      if is_active requested (n ∷ ns)
      then ok (some (text_of requested), none)
      else not_active requested (n ∷ ns)

  unfoldable pub select_active_skill : Option Json → Json → Result (Option String × Option String)
  unfolding active_skill_names choose
  select_active_skill snapshot requested =
      active_skill_names snapshot >>= λ names. choose requested names

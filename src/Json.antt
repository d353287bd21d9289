-- ===== src/Json.antt =====
-- Values of Python's json module: what the events, contexts and snapshots are stored as.
use code_forge.Prelude.{ℕ, String, Bool, Option, none, some, List, [], ◌∷◌, ◌==◌, if◌then◌else◌}

mutual
  pub data Json : Type 0 where
    null : Json
    bool : Bool → Json
    num : ℕ → Json
    str : String → Json
    arr : Items → Json
    obj : Fields → Json

  pub data Items : Type 0 where
    nil : Items
    cons : Json → Items → Items

  pub data Fields : Type 0 where
    end : Fields
    field : String → Json → Fields → Fields

abbrev pub texts : List String → Items
texts [] = nil
texts (s ∷ ss) = cons (str s) (texts ss)

abbrev pub or_null : Option String → Json
or_null none = null
or_null (some s) = str s

abbrev pub value_or_null : Option Json → Json
value_or_null none = null
value_or_null (some j) = j

-- `d.get(key)`
abbrev pub get_field : String → Fields → Option Json
get_field k end = none
get_field k (field j v fs) = if j == k then some v else get_field k fs

-- `d[key] = value`
abbrev pub set_field : String → Json → Fields → Fields
set_field k v end = field k v end
set_field k v (field j w fs) = if j == k then field k v fs else field j w (set_field k v fs)

-- `{**d, **e}`
abbrev pub merge : Fields → Fields → Fields
merge d end = d
merge d (field k v fs) = merge (set_field k v d) fs

-- `record.get(key, default)` on a decoded object, for a text.
abbrev pub text_or : String → Option Json → String
text_or d (some (str s)) = s
text_or d _ = d

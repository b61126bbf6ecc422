-- ===== src/Evaluation/Json.antt =====
-- JSON values as Python decodes them: the keys of an object, and the tests of isinstance. A number with a fraction
-- is `fraction`.
use localbench.Base.{ℤ, String, Bool, true, false, Option, none, some, ◌==◌, if◌then◌else◌}

mutual
  pub data Json : Type 0 where
    null fraction : Json
    bool : Bool → Json
    int : ℤ → Json
    text : String → Json
    array : Items → Json
    object : Fields → Json

  pub data Items : Type 0 where
    nil : Items
    cons : Json → Items → Items

  pub data Fields : Type 0 where
    end : Fields
    field : String → Json → Fields → Fields

abbrev get_field : String → Fields → Option Json
get_field k end = none
get_field k (field j v fields) = let rest = get_field k fields in if j == k then some v else rest

-- `value.get(k)` of an object; anything else has no keys.
abbrev pub get_key : String → Json → Option Json
get_key k (object fields) = get_field k fields
get_key k _ = none

-- `a.get(k)` where `a` may be missing
abbrev pub get_in : String → Option Json → Option Json
get_in k none = none
get_in k (some v) = get_key k v

abbrev pub is_object : Option Json → Bool
is_object (some (object fields)) = true
is_object _ = false

-- A value that is a `str`.
abbrev pub text_of : Option Json → Option String
text_of (some (text t)) = some t
text_of _ = none

abbrev pub bool_of : Option Json → Option Bool
bool_of (some (bool b)) = some b
bool_of _ = none

abbrev pub items_of : Option Json → Option Items
items_of (some (array items)) = some items
items_of _ = none

-- `d.get(k) == t`
abbrev pub key_text : String → Json → Option String
key_text k v = text_of (get_key k v)

-- ===== src/Presets/Registry.antt =====
-- The registry of presets in localbench/presets.py: `_check`, `load`, `find` and `family`.
use Prim.Native.Char.{code}
use localbench.Base.{
  ℕ, String, Bool, true, false, not, ◌&&◌, ◌||◌, Option, none, some, List, [], ◌∷◌, map, ◌==◌, all,
  any, find, leb, eqb, if◌then◌else◌, all_codes,
}
use localbench.Presets.Values.{Op, set_key, role, list_add, list_remove, provider}
use localbench.Presets.Host.{
  unknown_preset, bad_preset, duplicate_names, Result, err, ok, ◌>>=◌, ◌>>◌, raise_if,
}

pub record Preset : Type 0 where
  pub name : String
  pub is_local : Bool
  pub ops : List Op

pub record Registry : Type 0 where
  pub presets : List Preset
  pub test_profiles : List String

abbrev is_low : ℕ → Bool
is_low n = leb 48 n && leb n 57 || leb 97 n && leb n 122

abbrev is_choice : ℕ → Bool
is_choice n = is_low n || eqb n 46 || eqb n 45

abbrev starts_low : String → Bool
starts_low String.[] = false
starts_low (String.◌∷◌ c rest) = is_low (code c)

-- `[a-z0-9]*:[a-z0-9][a-z0-9.-]*`
abbrev name_rest : String → Bool
name_rest String.[] = false
name_rest (String.◌∷◌ c rest) =
    let later = name_rest rest in
    if eqb (code c) 58
    then starts_low rest && all_codes is_choice rest
    else is_low (code c) && later

-- `_NAME.fullmatch(name)`
abbrev is_preset_name : String → Bool
is_preset_name name = starts_low name && name_rest name

abbrev pub is_in : String → List String → Bool
is_in t ts = any (λ u. u == t) ts

abbrev pub owned_keys : List String
owned_keys =
    "task.disabledAgents" ∷ "defaultThinkingLevel" ∷ "mnemopi.llmMode" ∷ "mnemopi.noEmbeddings" ∷ []

abbrev pub owned_roles : List String
owned_roles = "smol" ∷ "judge" ∷ []

unfoldable pub is_owned : Op → Bool
is_owned (set_key key v) = is_in key owned_keys
is_owned (role r selector) = is_in r owned_roles
is_owned (list_add key item) = is_in key owned_keys
is_owned (list_remove key item) = is_in key owned_keys
is_owned (provider model) = true

abbrev pub is_nonempty {ℓ} : {A : Type ℓ} → List A → Bool
is_nonempty [] = false
is_nonempty (x ∷ xs) = true

-- `_check`, for a preset whose fields have the types that it asks for
unfoldable pub check : Preset → Bool
unfolding is_owned all_codes
check p = is_preset_name p.name && is_nonempty p.ops && all is_owned p.ops

abbrev pub distinct : List String → Bool
distinct [] = true
distinct (x ∷ xs) = not (is_in x xs) && distinct xs

unfoldable pub check_each : List Preset → Result (Unit {0})
unfolding check
check_each [] = ok tt
check_each (p ∷ ps) = raise_if (not (check p)) (bad_preset p.name) >> check_each ps

unfoldable pub load : Registry → Result (List Preset)
unfolding check_each
load r = do
  raise_if (not (distinct (map (λ p. p.name) r.presets))) duplicate_names
  check_each r.presets
  ok r.presets

abbrev or_unknown : String → Option Preset → Result Preset
or_unknown name none = err (unknown_preset name)
or_unknown name (some p) = ok p

unfoldable pub find_preset : String → Registry → Result Preset
unfolding load
find_preset name r = load r >>= λ ps. or_unknown name (find (λ p. p.name == name) ps)

-- `name.split(":", 1)[0]`
unfoldable pub family : String → String
family String.[] = ""
family (String.◌∷◌ c name) =
    let rest = family name in if eqb (code c) 58 then "" else String.◌∷◌ c rest

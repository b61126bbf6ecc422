-- ===== src/Evaluation/Trial.antt =====
-- score_varied_trial of localbench/evaluation.py: its arguments, and what it reads of a spec.
pub mod Paths
pub mod Scan
pub mod Events
pub mod Clean
pub mod Traced
pub mod Made
pub mod Score
use localbench.Base.{
  ℕ, ℤ, pos, negsuc, String, Bool, true, false, not, ◌&&◌, ◌||◌, Option, none, some, List, [], ◌∷◌,
  ◌++◌, ◌==◌, eqb, any, all, select, if◌then◌else◌, is_some, holds, split_slash, split_on, has_code,
  all_codes, is_alnum, is_space,
}
use localbench.Evaluation.Paths.{FilePath, parts_eq, joined}
use localbench.Evaluation.Json.{
  Json, int, text, Items, nil, cons, get_key, key_text, text_of, items_of,
}

abbrev pub grader_version : String
grader_version = "varied.v2"

abbrev pub or_empty : Option String → String
or_empty none = ""
or_empty (some t) = t

abbrev is_seed : Option Json → Bool
is_seed (some (int (pos n))) = true
is_seed _ = false

abbrev pub texts_of : Items → Option (List String)
texts_of nil = some []
texts_of (cons v items) = elim (text_of (some v)) [
  | none ↦ none
  | some t ↦ elim (texts_of items) [ none ↦ none | some ts ↦ some (t ∷ ts) ]
]

abbrev pub tools_of : Option Items → Option (List String)
tools_of none = none
tools_of (some items) = texts_of items

abbrev pub is_one_of : Option String → List String → Bool
is_one_of none ts = false
is_one_of (some t) ts = any (λ u. u == t) ts

abbrev is_formed : Json → Bool
is_formed spec =
    is_one_of (key_text "family" spec) ("read" ∷ "edit" ∷ [])
    && is_one_of (key_text "phase" spec) ("exploratory" ∷ "heldout" ∷ [])
    && is_seed (get_key "seed" spec)
    && holds (key_text "file" spec) "target.txt"
    && holds (key_text "decoy_file" spec) "decoy.txt"
    && is_some (tools_of (items_of (get_key "allowed_tools" spec)))
    && all (λ k. is_some (key_text k spec))
        ("initial" ∷ "expected" ∷ "decoy_initial" ∷ "prompt" ∷ [])

unfoldable pub spec_errors : Json → List String
spec_errors spec =
    if not (holds (key_text "grader_version" spec) grader_version)
    then "invalid varied trial spec" ∷ []
    else if not (is_formed spec)
    then "malformed or unsafe varied trial spec" ∷ []
    else []

-- What is read of a spec without an error.
pub record Spec : Type 0 where
  pub family : String
  pub initial : String
  pub expected : String
  pub decoy_initial : String
  pub allowed_tools : List String

abbrev or_none : Option (List String) → List String
or_none none = []
or_none (some ts) = ts

abbrev pub spec_of : Json → Spec
spec_of spec = record {
  family = or_empty (key_text "family" spec);
  initial = or_empty (key_text "initial" spec);
  expected = or_empty (key_text "expected" spec);
  decoy_initial = or_empty (key_text "decoy_initial" spec);
  allowed_tools = or_none (tools_of (items_of (get_key "allowed_tools" spec)));
}

-- A line of the output: blank, no JSON, or the value that it holds.
pub data Line : Type 0 where
  blank : Line
  garbled : Line
  json : Json → Line

-- The arguments; one of a wrong type is `none`, and so is a directory that is not absolute. The time is only
-- tested.
pub record Arguments : Type 0 where
  pub spec : Json
  pub stdout : Option (List Line)
  pub returncode : Option ℤ
  pub timed_out : Option Bool
  pub final_files : Option (List (String × Option String))
  pub cwd : Option FilePath
  pub is_wall_time : Bool

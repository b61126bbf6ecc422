-- ===== src/Evaluation/Trial/Scan.antt =====
-- What the loop of score_varied_trial keeps, and its handling of the messages.
use localbench.Base.{
  String, Bool, ◌&&◌, Option, none, some, List, [], ◌∷◌, ◌++◌, concat, if◌then◌else◌, holds,
}
use localbench.Evaluation.Paths.{FilePath}
use localbench.Evaluation.Json.{
  Json, Items, nil, cons, get_key, get_in, is_object, text_of, items_of, key_text,
}

-- A call that has started.
pub record Call : Type 0 where
  pub name : String
  pub path : Option FilePath
  pub hashline : Bool

-- A call that has ended.
pub record Done : Type 0 where
  pub name : String
  pub path : Option FilePath
  pub is_error : Bool
  pub result : Option Json

pub record Scan : Type 0 where
  pub starts : List (String × Call)
  pub seen : List String
  pub completed : List Done
  pub answer : Option String
  pub reasons : List String
  pub errors : List String

-- Whether the loop goes on; a `break` comes with an error.
pub data Flow : Type 0 where
  more : Scan → Flow
  broken : Scan → Flow

abbrev pub break_with : String → Scan → Flow
break_with e s = broken (record s { errors = s.errors ++ e ∷ [] })

abbrev pub because : List String → Scan → Scan
because new s = record s { reasons = s.reasons ++ new }

-- The texts of the parts of a message; `none` where one is no text.
abbrev pub text_parts : Items → Option (List String)
text_parts nil = some []
text_parts (cons part items) =
    let rest = text_parts items in
    if holds (key_text "type" part) "text"
    then elim (key_text "text" part) [
      | none ↦ none
      | some t ↦ elim rest [ none ↦ none | some ts ↦ some (t ∷ ts) ]
    ]
    else rest

abbrev pub answered : List String → Scan → Scan
answered [] s = s
answered (t ∷ ts) s = record s { answer = some (concat (t ∷ ts)) }

abbrev pub said : Option (List String) → Scan → Flow
said none s = break_with "malformed assistant text" s
said (some ts) s = more (answered ts s)

abbrev pub content_read : Option Items → Scan → Flow
content_read none s = break_with "malformed assistant message" s
content_read (some items) s = said (text_parts items) s

abbrev pub message_end : Json → Scan → Flow
message_end event s =
    if is_object (get_key "message" event)
      && holds (text_of (get_in "role" (get_key "message" event))) "assistant"
    then content_read (items_of (get_in "content" (get_key "message" event))) s
    else more s

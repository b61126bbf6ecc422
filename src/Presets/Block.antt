-- ===== src/Presets/Block.antt =====
-- The managed provider block of models.yml in localbench/presets.py: `provider_block`, `_managed` and `_models_text`.
-- The texts are searched as `str.find`, `str.count` and the regular expressions of the code do. The gateway's URL of a
-- profile is a parameter.
use Prim.Native.Char.{code}
use Prim.Native.String
use localbench.Base.{
  ℕ, String, Bool, true, false, not, ◌&&◌, ◌||◌, Option, none, some, [], ◌∷◌, ◌==◌, eqb,
  if◌then◌else◌, is_space, strip_prefix, concat, is_some,
}
use localbench.Presets.Host.{damaged_block, foreign_provider, inline_providers, Result, err, ok}

abbrev newline : String
newline = "\n"

abbrev begin_line : String
begin_line = "  # >>> localbench preset provider (managed)"

abbrev end_line : String
end_line = "  # <<< localbench preset provider (managed)"

abbrev provider_name : String
provider_name = "localbench-sys1"

abbrev begin_mark : String
begin_mark = String.◌++◌ begin_line newline

abbrev end_mark : String
end_mark = String.◌++◌ end_line newline

-- `provider_block`, whose last part is empty, so that it ends with a newline
abbrev pub provider_block : String → String → String
provider_block url model = concat (
    begin_mark ∷ "  localbench-sys1:\n    baseUrl: " ∷ url
    ∷ "\n    api: typesafe\n    apiKey: localbench-gateway-no-key\n    models:\n      - id: "
    ∷ model ∷ "\n" ∷ end_mark ∷ [])

-- The text before the first occurrence and the one after it.
unfoldable pub split_at : String → String → Option (String × String)
unfolding strip_prefix
split_at mark String.[] = if mark == "" then some ("", "") else none
split_at mark (String.◌∷◌ c text) =
    let later = split_at mark text in
    elim (strip_prefix mark (String.◌∷◌ c text)) [
      | some rest ↦ some ("", rest)
      | none ↦ elim later [ none ↦ none | some (before, rest) ↦ some (String.◌∷◌ c before, rest) ]
    ]

-- `mark in text`
abbrev pub occurs : String → String → Bool
occurs mark text = is_some (split_at mark text)

abbrev occurs_after : String → Option (String × String) → Bool
occurs_after mark none = false
occurs_after mark (some (before, rest)) = occurs mark rest

-- `text.count(mark) == 1`: the occurrences that do not overlap
abbrev occurs_once : String → String → Bool
occurs_once mark text = occurs mark text && not (occurs_after mark (split_at mark text))

-- The block between the marks, if the end mark comes after the start.
abbrev cut_block : Option (String × String) → Option (String × String × String)
cut_block none = none
cut_block (some (before, rest)) = elim (split_at end_mark rest) [
  | none ↦ none
  | some (body, after) ↦ some (before, concat (begin_mark ∷ body ∷ end_mark ∷ []), after)
]

-- The text before the managed block, the block, and the text after it.
unfoldable pub managed_parts : String → Option (String × String × String)
unfolding split_at
managed_parts text =
    if occurs_once begin_mark text then cut_block (split_at begin_mark text) else none

-- `_managed`
unfoldable pub managed : String → Result (Option String)
unfolding managed_parts
managed text = elim (managed_parts text) [
  | some (before, found, after) ↦ ok (some found)
  | none ↦ if occurs begin_line text || occurs end_line text then err damaged_block else ok none
]

abbrev remove_quote : String → String
remove_quote String.[] = ""
remove_quote (String.◌∷◌ c text) =
    if eqb (code c) 39 || eqb (code c) 34 then text else String.◌∷◌ c text

abbrev skip_spaces : String → String
skip_spaces String.[] = ""
skip_spaces (String.◌∷◌ c text) =
    let rest = skip_spaces text in if is_space (code c) then rest else String.◌∷◌ c text

abbrev starts : String → String → Bool
starts prefix text = is_some (strip_prefix prefix text)

abbrev names_provider : String → Bool
names_provider text = elim (strip_prefix provider_name (remove_quote (skip_spaces text))) [
  | none ↦ false
  | some rest ↦ starts ":" (remove_quote rest)
]

abbrev starts_space : String → Bool
starts_space String.[] = false
starts_space (String.◌∷◌ c text) = is_space (code c)

-- `^\s+['"]?localbench-sys1['"]?:` somewhere; the flag says that a line starts here
unfoldable pub declares_provider : Bool → String → Bool
unfolding strip_prefix
declares_provider line String.[] = false
declares_provider line (String.◌∷◌ c text) =
    line && is_space (code c) && names_provider text || declares_provider (eqb (code c) 10) text

abbrev is_blank : ℕ → Bool
is_blank n = eqb n 32 || eqb n 9

abbrev skip_blanks : String → String
skip_blanks String.[] = ""
skip_blanks (String.◌∷◌ c text) =
    let rest = skip_blanks text in if is_blank (code c) then rest else String.◌∷◌ c text

abbrev starts_blank : String → Bool
starts_blank String.[] = false
starts_blank (String.◌∷◌ c text) = is_blank (code c)

abbrev starts_value : String → Bool
starts_value String.[] = false
starts_value (String.◌∷◌ c text) = not (is_space (code c)) && not (eqb (code c) 35)

abbrev inline_here : String → Bool
inline_here text = elim (strip_prefix "providers:" text) [
  | none ↦ false
  | some rest ↦ starts_blank rest && starts_value (skip_blanks rest)
]

-- `^providers:[ \t]+[^\s#]` somewhere
unfoldable pub has_inline : Bool → String → Bool
unfolding strip_prefix
has_inline line String.[] = false
has_inline line (String.◌∷◌ c text) =
    line && inline_here (String.◌∷◌ c text) || has_inline (eqb (code c) 10) text

-- The rest of the line and what follows it, the newline included.
abbrev line_end : String → String × String
line_end String.[] = ("", "")
line_end (String.◌∷◌ c text) =
    let (here, after) = line_end text in
    if eqb (code c) 10 then ("", String.◌∷◌ c text) else (String.◌∷◌ c here, after)

abbrev ends_here : String → Bool
ends_here String.[] = true
ends_here (String.◌∷◌ c text) = eqb (code c) 35 || eqb (code c) 10

abbrev header_here : String → Option (String × String)
header_here text = elim (strip_prefix "providers:" text) [
  | none ↦ none
  | some rest ↦ if ends_here (skip_blanks rest) then some (line_end text) else none
]

-- `^providers:[ \t]*(?:#[^\n]*)?$`: the text up to the end of the first such line, and what follows it
unfoldable pub split_header : Bool → String → Option (String × String)
unfolding strip_prefix
split_header line String.[] = none
split_header line (String.◌∷◌ c text) =
    let later = split_header (eqb (code c) 10) text in
    elim (if line then header_here (String.◌∷◌ c text) else none) [
      | some parts ↦ some parts
      | none ↦ elim later [ none ↦ none | some (before, after) ↦ some (String.◌∷◌ c before, after) ]
    ]

unfoldable pub ends_line : String → Bool
ends_line String.[] = true
ends_line (String.◌∷◌ c String.[]) = eqb (code c) 10
ends_line (String.◌∷◌ c (String.◌∷◌ d text)) = ends_line (String.◌∷◌ d text)

abbrev tail : String → String
tail String.[] = ""
tail (String.◌∷◌ c text) = text

abbrev insert_block : String → String → String
insert_block added rest = elim (split_header true rest) [
  | none ↦ concat (rest ∷ (if ends_line rest then "" else newline) ∷ "providers:\n" ∷ added ∷ [])
  | some (head, after) ↦ concat (head ∷ newline ∷ added ∷ tail after ∷ [])
]

abbrev without_block : String → String
without_block text = elim (managed_parts text) [
  | none ↦ text
  | some (before, found, after) ↦ String.◌++◌ before after
]

abbrev placed : Option String → String → Result String
placed none rest = ok rest
placed (some added) rest =
    if has_inline true rest then err inline_providers else ok (insert_block added rest)

abbrev replaced : Option String → String → Result String
replaced added rest =
    if declares_provider true rest then err foreign_provider else placed added rest

-- `_models_text`
unfoldable pub models_text : String → Option String → Result String
unfolding managed declares_provider has_inline split_header ends_line
models_text text added = elim (managed text) [
  | err failed ↦ err failed
  | ok found ↦ replaced added (without_block text)
]

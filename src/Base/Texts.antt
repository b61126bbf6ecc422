-- ===== src/Base/Texts.antt =====
-- Texts as Python's `str` handles them: prefixes, suffixes, and the parts between slashes.
use Prim.Native.Nat.{ℕ, zero, suc}
use Prim.Native.Char.{code}
use Prim.Native.String
use Prim.Native.String.{String}
use mathlib.Core.Bool.{Bool, true, false, ◌&&◌, ◌||◌}
use mathlib.Core.Option.{Option, none, some}
use mathlib.Core.List.{List, [], ◌∷◌}
use text.Mathlib.Text.{◌==◌}
use text.Mathlib.TextEquality.{eq_iff}
use native.Mathlib.Omega.{arith}
use mathlib.Core.Path.{◌≡◌}
use localbench.Base.Tests.{if◌then◌else◌, eqb, leb, concat}

-- The rest of a text after a prefix, if it starts with it.
unfoldable pub strip_prefix : String → String → Option String
strip_prefix String.[] text = some text
strip_prefix (String.◌∷◌ c prefix) String.[] = none
strip_prefix (String.◌∷◌ c prefix) (String.◌∷◌ d text) =
    let rest = strip_prefix prefix text in if eqb (code c) (code d) then rest else none

-- `text.removeprefix(prefix)`
abbrev pub remove_prefix : String → String → String
remove_prefix prefix text = elim (strip_prefix prefix text) [ none ↦ text | some rest ↦ rest ]

-- `text.removesuffix(suffix)`
unfoldable pub remove_suffix : String → String → String
remove_suffix suffix String.[] = ""
remove_suffix suffix (String.◌∷◌ c text) =
    let rest = remove_suffix suffix text in
    if String.◌∷◌ c text == suffix then "" else String.◌∷◌ c rest

abbrev cons_first : List String → String → List String
cons_first [] part = part ∷ []
cons_first (first ∷ parts) part = String.◌++◌ part first ∷ parts

-- `text.split("/")`
unfoldable pub split_slash : String → List String
split_slash String.[] = "" ∷ []
split_slash (String.◌∷◌ c text) =
    let parts = split_slash text in
    if eqb (code c) 47 then "" ∷ parts else cons_first parts (String.◌∷◌ c "")

-- `"/".join(parts)`
unfoldable pub join_slash : List String → String
join_slash [] = ""
join_slash (part ∷ []) = part
join_slash (part ∷ next ∷ parts) = String.◌++◌ part (String.◌++◌ "/" (join_slash (next ∷ parts)))

-- Whether a character of the text has the code.
unfoldable pub has_code : ℕ → String → Bool
has_code n String.[] = false
has_code n (String.◌∷◌ c text) = eqb (code c) n || has_code n text

unfoldable pub all_codes : (ℕ → Bool) → String → Bool
all_codes p String.[] = true
all_codes p (String.◌∷◌ c text) = p (code c) && all_codes p text

-- `text[:n]`
abbrev pub cut : ℕ → String → String
cut zero t = ""
cut (suc n) String.[] = ""
cut (suc n) (String.◌∷◌ c t) = String.◌∷◌ c (cut n t)

-- The characters that `str.strip` takes away.
abbrev pub is_space : ℕ → Bool
is_space n =
    leb 9 n && leb n 13
    || leb 28 n && leb n 32
    || eqb n 133
    || eqb n 160
    || eqb n 5760
    || leb 8192 n && leb n 8202
    || eqb n 8232
    || eqb n 8233
    || eqb n 8239
    || eqb n 8287
    || eqb n 12288

abbrev split_rest : (ℕ → Bool) → String → List String
split_rest p String.[] = "" ∷ []
split_rest p (String.◌∷◌ c text) =
    let parts = split_rest p text in
    if p (code c) then "" ∷ parts else cons_first parts (String.◌∷◌ c "")

-- The parts between the characters that pass.
unfoldable pub split_on : (ℕ → Bool) → String → List String
split_on p text = split_rest p text

-- The text before the first separator and after it, as `str.partition` gives them.
unfoldable pub partition : String → String → String × String
unfolding strip_prefix
partition separator String.[] = ("", "")
partition separator (String.◌∷◌ c text) =
    let (before, after) = partition separator text in
    elim (strip_prefix separator (String.◌∷◌ c text)) [
      | some rest ↦ ("", rest)
      | none ↦ (String.◌∷◌ c before, after)
    ]

abbrev strip_left : String → String
strip_left String.[] = ""
strip_left (String.◌∷◌ c text) =
    let rest = strip_left text in if is_space (code c) then rest else String.◌∷◌ c text

abbrev strip_right : String → String
strip_right String.[] = ""
strip_right (String.◌∷◌ c text) =
    let rest = strip_right text in if rest == "" && is_space (code c) then "" else String.◌∷◌ c rest

-- `text.strip()`
unfoldable pub strip : String → String
strip text = strip_left (strip_right text)

-- `separator.join(texts)`
abbrev pub join_with : String → List String → String
join_with separator [] = ""
join_with separator (t ∷ []) = t
join_with separator (t ∷ u ∷ ts) = concat (t ∷ separator ∷ join_with separator (u ∷ ts) ∷ [])

abbrev pub is_hex : ℕ → Bool
is_hex n = leb 48 n && leb n 57 || leb 97 n && leb n 102

abbrev pub is_alnum : ℕ → Bool
is_alnum n = leb 48 n && leb n 57 || leb 65 n && leb n 90 || leb 97 n && leb n 122

-- Whether a text starts with `[A-Za-z0-9]`.
abbrev pub starts_alnum : String → Bool
starts_alnum String.[] = false
starts_alnum (String.◌∷◌ c rest) = is_alnum (code c)

pub eq_comm : (s t : String) → (s == t) ≡ (t == s)
eq_comm s t = ground (arith, eq_iff s t, eq_iff t s)

-- ===== src/Evaluation/Trial/Paths.antt =====
-- The paths that a tool call names: `_tool_path` and HASHLINE_HEADER of localbench/evaluation.py.
use Prim.Native.Char.{code}
use localbench.Base.{
  ℕ, String, Bool, true, false, not, ◌&&◌, ◌||◌, Option, none, some, List, [], ◌∷◌, ◌==◌, eqb, any,
  select, if◌then◌else◌, split_slash, split_on, all_codes, is_alnum, is_space,
}
use localbench.Evaluation.Paths.{FilePath, parts_eq, joined}

-- `Path(value)`: empty parts and dots are dropped. Exactly two leading slashes are a root of their own, which
-- stands here as a first part that no text has.
abbrev slash : ℕ → Bool
slash n = eqb n 47

abbrev pub clean_parts : List String → List String
clean_parts parts = select (λ p. not (p == "" || p == ".")) parts

abbrev starts_slash : String → Bool
starts_slash String.[] = false
starts_slash (String.◌∷◌ c t) = slash (code c)

abbrev after_first : String → String
after_first String.[] = ""
after_first (String.◌∷◌ c t) = t

abbrev is_double : String → Bool
is_double t =
    starts_slash t
    && starts_slash (after_first t)
    && not (starts_slash (after_first (after_first t)))

unfoldable pub path_of : String → FilePath
unfolding split_slash
path_of value = record {
  absolute = starts_slash value;
  parts =
      if is_double value
      then "//" ∷ clean_parts (split_slash value)
      else clean_parts (split_slash value);
}

-- `os.path.normpath` of an absolute path: the parts so far, the last first.
abbrev collapse : List String → List String → List String
collapse before [] = before
collapse [] (p ∷ parts) = if p == ".." then collapse [] parts else collapse (p ∷ []) parts
collapse (q ∷ before) (p ∷ parts) =
    if p == ".." then collapse before parts else collapse (p ∷ q ∷ before) parts

abbrev onto : List String → List String → List String
onto [] parts = parts
onto (p ∷ before) parts = onto before (p ∷ parts)

unfoldable pub normpath : FilePath → FilePath
normpath path = record path { parts = onto (collapse [] path.parts) [] }

-- `_tool_path`
unfoldable pub tool_path : FilePath → String → Option FilePath
unfolding path_of normpath
tool_path cwd value =
    if any (λ p. p == "..") (path_of value).parts
    then none
    else some (normpath (joined cwd (path_of value)))

abbrev pub same_path : Option FilePath → Option FilePath → Bool
same_path none none = true
same_path (some p) (some q) =
    (if p.absolute then q.absolute else not q.absolute) && parts_eq p.parts q.parts
same_path _ _ = false

-- The text before the first "]" and after it.
abbrev until_bracket : String → Option (String × String)
until_bracket String.[] = none
until_bracket (String.◌∷◌ c t) =
    let rest = until_bracket t in
    if eqb (code c) 93
    then some ("", t)
    else elim rest [ none ↦ none | some (a, b) ↦ some (String.◌∷◌ c a, b) ]

-- The text before the last "#" and after it.
abbrev last_hash : String → Option (String × String)
last_hash String.[] = none
last_hash (String.◌∷◌ c t) = elim (last_hash t) [
  | some (a, b) ↦ some (String.◌∷◌ c a, b)
  | none ↦ if eqb (code c) 35 then some ("", t) else none
]

abbrev tagged : Option (String × String) → Option String
tagged none = none
tagged (some (path, tag)) =
    if not (path == "") && (not (tag == "") && all_codes is_alnum tag) then some path else none

abbrev closed : Option (String × String) → Option String
closed none = none
closed (some (inner, after)) = if all_codes is_space after then tagged (last_hash inner) else none

-- HASHLINE_HEADER on one line: "[", a path, "#", letters and digits, "]", and blanks.
unfoldable pub header_of : String → Option String
unfolding all_codes
header_of String.[] = none
header_of (String.◌∷◌ c t) = if eqb (code c) 91 then closed (until_bracket t) else none

abbrev is_in : String → List String → Bool
is_in t ts = any (λ u. u == t) ts

abbrev add_header : Option String → List String → List String
add_header none found = found
add_header (some path) found = if is_in path found then found else path ∷ found

abbrev headers_in : List String → List String
headers_in [] = []
headers_in (line ∷ lines) = add_header (header_of line) (headers_in lines)

-- `set(HASHLINE_HEADER.findall(text))`
unfoldable pub headers : String → List String
unfolding header_of split_on
headers input = headers_in (split_on (λ n. eqb n 10) input)

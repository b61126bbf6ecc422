-- ===== src/Presets/Values.antt =====
-- The settings that a preset of localbench/presets.py writes: JSON values with Python's equality, the ops of a
-- preset, `_fold`, `_expect` and `_holds`. A value is a scalar, a list of scalars or a mapping to scalars; a number
-- is an integer.
use localbench.Base.{
  String, Bool, true, false, not, ◌&&◌, Option, none, some, List, [], ◌∷◌, ◌++◌, map, ◌==◌, all,
  any, select, get, put, eqb, if◌then◌else◌,
}
use localbench.Base.{ℤ, pos, negsuc}

pub data Scalar : Type 0 where
  null : Scalar
  flag : Bool → Scalar
  num : ℤ → Scalar
  str : String → Scalar

pub data Value : Type 0 where
  scalar : Scalar → Value
  array : List Scalar → Value
  mapping : List (String × Scalar) → Value

abbrev int_eq : ℤ → ℤ → Bool
int_eq (pos m) (pos n) = eqb m n
int_eq (negsuc m) (negsuc n) = eqb m n
int_eq a b = false

-- A bool is a number in Python.
abbrev number_of : Scalar → Option ℤ
number_of null = none
number_of (flag true) = some (pos 1)
number_of (flag false) = some (pos 0)
number_of (num n) = some n
number_of (str s) = none

abbrev same_number : Option ℤ → Option ℤ → Bool
same_number (some m) (some n) = int_eq m n
same_number a b = false

-- `a == b`
abbrev pub scalar_eq : Scalar → Scalar → Bool
scalar_eq null null = true
scalar_eq (str s) (str t) = s == t
scalar_eq a b = same_number (number_of a) (number_of b)

abbrev pub option_eq : Option Scalar → Option Scalar → Bool
option_eq none none = true
option_eq (some a) (some b) = scalar_eq a b
option_eq a b = false

abbrev pub array_eq : List Scalar → List Scalar → Bool
array_eq [] [] = true
array_eq (a ∷ as') (b ∷ bs) = scalar_eq a b && array_eq as' bs
array_eq as' bs = false

abbrev pub agrees : List (String × Scalar) → List (String × Scalar) → List (String × Scalar) → Bool
agrees d e keys = all (λ r. option_eq (get r.0 d) (get r.0 e)) keys

-- Two dicts are equal in whatever order they list their keys.
abbrev pub value_eq : Value → Value → Bool
value_eq (scalar a) (scalar b) = scalar_eq a b
value_eq (array a) (array b) = array_eq a b
value_eq (mapping d) (mapping e) = agrees d e d && agrees d e e
value_eq a b = false

abbrev pub truthy : Value → Bool
truthy (scalar null) = false
truthy (scalar (flag b)) = b
truthy (scalar (num n)) = not (int_eq n (pos 0))
truthy (scalar (str s)) = not (s == "")
truthy (array []) = false
truthy (mapping []) = false
truthy v = true

pub data Op : Type 0 where
  set_key : String → Value → Op
  role : String → String → Op
  list_add : String → String → Op
  list_remove : String → String → Op
  provider : Option String → Op

pub data Expect : Type 0 where
  equals : String → Value → Expect
  role_equals : String → String → Expect
  contains excludes : String → String → Expect
  block : Option String → Expect

-- `{**(value or {})}`, and `list(value or [])`; `none` where Python raises a TypeError
abbrev pub dict_of : Value → Option (List (String × Scalar))
dict_of (mapping d) = some d
dict_of v = if truthy v then none else some []

abbrev characters : String → List Scalar
characters String.[] = []
characters (String.◌∷◌ c s) = str (String.◌∷◌ c "") ∷ characters s

abbrev pub list_of : Value → Option (List Scalar)
list_of (array xs) = some xs
list_of (mapping d) = some (map (λ r. str r.0) d)
list_of (scalar (str s)) = some (characters s)
list_of v = if truthy v then none else some []

abbrev pub is_in : String → List Scalar → Bool
is_in item xs = any (λ i. scalar_eq i (str item)) xs

abbrev pub with_item : String → List Scalar → Value
with_item item xs = if is_in item xs then array xs else array (xs ++ str item ∷ [])

abbrev pub without_item : String → List Scalar → Value
without_item item xs = array (select (λ i. not (scalar_eq i (str item))) xs)

abbrev pub on_value {ℓ} : {A : Type ℓ} → (A → Value) → Option A → Option Value
on_value f none = none
on_value f (some x) = some (f x)

-- `_fold`; a provider op is never folded.
unfoldable pub fold : Op → Value → Option Value
fold (set_key key v) value = some v
fold (role r selector) value = on_value (λ d. mapping (put r (str selector) d)) (dict_of value)
fold (list_add key item) value = on_value (with_item item) (list_of value)
fold (list_remove key item) value = on_value (without_item item) (list_of value)
fold (provider model) value = none

unfoldable pub expect : Op → Expect
expect (set_key key v) = equals key v
expect (role r selector) = role_equals r selector
expect (list_add key item) = contains key item
expect (list_remove key item) = excludes key item
expect (provider model) = block model

abbrev role_holds : String → String → Value → Bool
role_holds r selector (mapping d) = option_eq (get r d) (some (str selector))
role_holds r selector v = false

abbrev list_holds : (List Scalar → Bool) → Value → Bool
list_holds test (array xs) = test xs
list_holds test v = false

-- `_holds`; the expectation of a provider block is compared by `drift` itself.
unfoldable pub holds : Expect → Value → Bool
holds (equals key v) value = value_eq value v
holds (role_equals r selector) value = role_holds r selector value
holds (contains key item) value = list_holds (is_in item) value
holds (excludes key item) value = list_holds (λ xs. not (is_in item xs)) value
holds (block b) value = false

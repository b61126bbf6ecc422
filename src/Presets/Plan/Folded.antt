-- ===== src/Presets/Plan/Folded.antt =====
-- What the ops of a preset leave in a setting: `_fold` meets every `_expect`, unless a later op of the preset
-- overrides it.
use localbench.Base.{
  String, Bool, true, false, not, ◌&&◌, ◌||◌, Option, none, some, List, [], ◌∷◌, ◌++◌, ◌==◌, ◌≡◌,
  refl, ◌∙◌, ap, arith, inl, inr, Bool-cases, Option-cases, subst, if◌then◌else◌, get, put, get-put,
  select, any-append, eq_iff, eq_refl,
}
use localbench.Base.{pos, negsuc}
use localbench.Presets.Values.{
  Scalar, null, flag, num, str, Value, scalar, array, mapping, scalar_eq, option_eq, array_eq,
  agrees, value_eq, Op, set_key, role, list_add, list_remove, provider, contains, excludes,
  on_value, fold, expect, holds, dict_of, list_of, is_in, with_item, without_item,
}
use localbench.Presets.Plan.{fold_all}
use localbench.Presets.Backup.Copies.{All}

scalar_eq_refl : (a : Scalar) → scalar_eq a a ≡ true
scalar_eq_refl null = refl
scalar_eq_refl (flag true) = refl
scalar_eq_refl (flag false) = refl
scalar_eq_refl (num (pos n)) = ground arith
scalar_eq_refl (num (negsuc n)) = ground arith
scalar_eq_refl (str s) = eq_refl s

option_eq_refl : (a : Option Scalar) → option_eq a a ≡ true
option_eq_refl none = refl
option_eq_refl (some a) = scalar_eq_refl a

array_eq_refl : (xs : List Scalar) → array_eq xs xs ≡ true
array_eq_refl [] = refl
array_eq_refl (x ∷ xs) = rw (scalar_eq_refl x) (array_eq_refl xs)

agrees_refl : (d keys : List (String × Scalar)) → agrees d d keys ≡ true
agrees_refl d [] = refl
agrees_refl d ((k, v) ∷ keys) = rw (option_eq_refl (get k d)) (agrees_refl d keys)

value_eq_refl : (v : Value) → value_eq v v ≡ true
value_eq_refl (scalar a) = scalar_eq_refl a
value_eq_refl (array xs) = array_eq_refl xs
value_eq_refl (mapping d) = rw (agrees_refl d d) refl

-- Only the text itself equals a text.
scalar_eq_str : (a : Scalar) (s : String) → scalar_eq a (str s) ≡ true → a ≡ str s
scalar_eq_str null s h = ground arith
scalar_eq_str (flag true) s h = ground arith
scalar_eq_str (flag false) s h = ground arith
scalar_eq_str (num n) s h = ground arith
scalar_eq_str (str t) s h = ap str ((eq_iff t s).0 h)

is_in-append :
    (s : String) (xs : List Scalar) (t : String)
    → is_in s (xs ++ str t ∷ []) ≡ (is_in s xs || (t == s || false))
is_in-append s xs t = any-append (λ i. scalar_eq i (str s)) xs (str t ∷ [])

-- An item that is taken away is gone, and the others stay.
is_in-without :
    (s t : String) (xs : List Scalar)
    → is_in s (select (λ i. not (scalar_eq i (str t))) xs) ≡ (if s == t then false else is_in s xs)
is_in-without s t [] = ground arith
is_in-without s t (x ∷ xs) = elim (Bool-cases (scalar_eq x (str t))) [
  | inl gone ↦
      rw gone (
        is_in-without s t xs ∙ rw (scalar_eq_str x t gone) (ground (arith, eq_iff s t, eq_iff t s)))
  | inr kept ↦ rw kept (
      rw (is_in-without s t xs) (elim (Bool-cases (s == t)) [
        | inl e ↦ rw e (rw ((eq_iff s t).0 e) (rw kept refl))
        | inr n ↦ rw n refl
      ]))
]

-- Whether a later op may undo what an earlier one has done to the same setting.
unfoldable pub overrides : Op → Op → Bool
overrides (role r selector) (role q other) = r == q
overrides (list_add key item) (list_add key' item') = false
overrides (list_add key item) (list_remove key' item') = item == item'
overrides (list_remove key item) (list_add key' item') = item == item'
overrides (list_remove key item) (list_remove key' item') = false
overrides later earlier = true

unfoldable pub overridden : Op → List Op → Bool
unfolding overrides
overridden op [] = false
overridden op (later ∷ ops) = overrides later op || overridden op ops

on_value-some {ℓ} :
    {A : Type ℓ} (f : A → Value) (v : Option A) (after : Value)
    → on_value f v ≡ some after
    → (x : A) × (after ≡ f x)
on_value-some f none after e = absurd (ground arith)
on_value-some f (some x) after e = (x, ground arith)

-- What a setting contains after an item was added: the item, and what it contained.
contains-with_item :
    (key s t : String) (xs : List Scalar)
    → holds (contains key s) (with_item t xs) ≡ (is_in s xs || t == s)
unfolding holds
contains-with_item key s t xs = elim (Bool-cases (is_in t xs)) [
  | inl there ↦ rw there (ground (arith, eq_iff t s, there))
  | inr new ↦ rw new (rw (is_in-append s xs t) (ground arith))
]

excludes-with_item :
    (key s t : String) (xs : List Scalar)
    → holds (excludes key s) (with_item t xs) ≡ not (is_in s xs || t == s)
unfolding holds
excludes-with_item key s t xs = elim (Bool-cases (is_in t xs)) [
  | inl there ↦ rw there (ground (arith, eq_iff t s, there))
  | inr new ↦ rw new (rw (is_in-append s xs t) (ground arith))
]

contains-without_item :
    (key s t : String) (xs : List Scalar)
    → holds (contains key s) (without_item t xs) ≡ (if s == t then false else is_in s xs)
unfolding holds
contains-without_item key s t xs = is_in-without s t xs

excludes-without_item :
    (key s t : String) (xs : List Scalar)
    → holds (excludes key s) (without_item t xs) ≡ not (if s == t then false else is_in s xs)
unfolding holds
excludes-without_item key s t xs = ap not (is_in-without s t xs)

-- One op meets its own expectation.
fold-holds : (op : Op) (v after : Value) → fold op v ≡ some after → holds (expect op) after ≡ true
unfolding fold expect holds
fold-holds (set_key key new) v after e =
    subst (λ a. value_eq a new ≡ true) (ground arith) (value_eq_refl new)
fold-holds (role r selector) v after e =
    let (d, e') = on_value-some (λ d. mapping (put r (str selector) d)) (dict_of v) after e in
    rw e' (rw (get-put r r (str selector) d) (rw (eq_refl r) (eq_refl selector)))
fold-holds (list_add key item) v after e =
    let (xs, e') = on_value-some (with_item item) (list_of v) after e in
    rw e' (contains-with_item key item item xs ∙ ground (arith, eq_refl item))
fold-holds (list_remove key item) v after e =
    let (xs, e') = on_value-some (without_item item) (list_of v) after e in
    rw e' (excludes-without_item key item item xs ∙ ground (arith, eq_refl item))
fold-holds (provider model) v after e = cc

-- An op keeps what it does not override.
fold-keeps :
    (later op : Op) (v after : Value)
    → fold later v ≡ some after
    → overrides later op ≡ false
    → holds (expect op) v ≡ true
    → holds (expect op) after ≡ true
unfolding fold expect holds overrides on_value-some
fold-keeps (role r selector) (role q other) (mapping d) after e free h =
    let (_, e') = on_value-some (λ d. mapping (put r (str selector) d)) (some d) after e in
    rw e' (rw (get-put r q (str selector) d) (rw free h))
fold-keeps (list_add key item) (list_add key' item') (array xs) after e free h =
    let (_, e') = on_value-some (with_item item) (some xs) after e in
    rw e' (contains-with_item key' item' item xs ∙ rw h refl)
fold-keeps (list_add key item) (list_remove key' item') (array xs) after e free h =
    let (_, e') = on_value-some (with_item item) (some xs) after e in
    rw e' (excludes-with_item key' item' item xs ∙ ground arith)
fold-keeps (list_remove key item) (list_add key' item') (array xs) after e free h =
    let (_, e') = on_value-some (without_item item) (some xs) after e in
    rw e' (
      contains-without_item key' item' item xs
      ∙ ground (arith, eq_iff item item', eq_iff item' item))
fold-keeps (list_remove key item) (list_remove key' item') (array xs) after e free h =
    let (_, e') = on_value-some (without_item item) (some xs) after e in
    rw e' (excludes-without_item key' item' item xs ∙ ground arith)
fold-keeps later op v after e free h = cc

fold_all-keeps :
    (op : Op) (ops : List Op) (v after : Value)
    → fold_all ops v ≡ some after
    → overridden op ops ≡ false
    → holds (expect op) v ≡ true
    → holds (expect op) after ≡ true
unfolding fold_all overridden
fold_all-keeps op [] v after e free h = subst (λ a. holds (expect op) a ≡ true) (ground arith) h
fold_all-keeps op (later ∷ ops) v after e free h = elim (Option-cases (fold later v)) [
  | inl stuck ↦ absurd (ground (arith, stuck))
  | inr (next, one) ↦
      fold_all-keeps op ops next after (ground (arith, one)) (ground arith)
        (fold-keeps later op v next one (ground arith) h)
]

-- The ops of which no later one overrides an earlier one.
unfoldable pub undisturbed : List Op → Bool
unfolding overridden
undisturbed [] = true
undisturbed (op ∷ ops) = not (overridden op ops) && undisturbed ops

-- If the ops of a preset on one key fold without an error, and none is overridden by a later one (the same
-- role, an item added and removed, a whole value set before or after another op), then the value that is
-- written meets the expectation of every one of them.
pub fold_all-holds :
    (ops : List Op) (before after : Value)
    → fold_all ops before ≡ some after
    → undisturbed ops ≡ true
    → All (λ op. holds (expect op) after ≡ true) ops
unfolding fold_all undisturbed
fold_all-holds [] before after e free = tt
fold_all-holds (op ∷ ops) before after e free = elim (Option-cases (fold op before)) [
  | inl stuck ↦ absurd (ground (arith, stuck))
  | inr (next, one) ↦ (
    fold_all-keeps op ops next after (ground (arith, one)) (ground arith)
        (fold-holds op before next one),
    fold_all-holds ops next after (ground (arith, one)) (ground arith),
  )
]

-- ===== src/Base/Order.antt =====
-- Insertion sort by a test, for ORDER BY and `sorted`, and the order of texts.
use Prim.Native.Nat.{suc}
use Prim.Native.String.{String, compare}
use mathlib.Core.Path.{◌≡◌, refl}
use mathlib.Core.Bool.{Bool, ◌||◌}
use mathlib.Core.List.{List, [], ◌∷◌}
use native.Mathlib.Omega.{arith}
use text.Mathlib.Text.{◌==◌, is_lt, is_le}
use text.Mathlib.TextEquality.{eq_iff}
use localbench.Base.Tests.{if◌then◌else◌}
use localbench.Base.Lists.{length}
use localbench.Base.Table.{any, select}

abbrev pub lt_text : String → String → Bool
lt_text s t = is_lt (compare s t)

abbrev pub le_text : String → String → Bool
le_text s t = is_le (compare s t)

module _ {ℓ} {A : Type ℓ} where
  -- `before a b`: `a` may stand before `b`. Rows that the test holds equal keep their order.
  abbrev pub insert : (A → A → Bool) → A → List A → List A
  insert before x [] = x ∷ []
  insert before x (y ∷ ys) = if before x y then x ∷ y ∷ ys else y ∷ insert before x ys

  abbrev pub sort : (A → A → Bool) → List A → List A
  sort before [] = []
  sort before (x ∷ xs) = insert before x (sort before xs)

  pub any-insert :
      (before : A → A → Bool) (p : A → Bool) (x : A) (xs : List A)
      → any p (insert before x xs) ≡ (p x || any p xs)
  any-insert before p x [] = refl
  any-insert before p x (y ∷ ys) = ground (arith, any-insert before p x ys)

  pub any-sort :
      (before : A → A → Bool) (p : A → Bool) (xs : List A) → any p (sort before xs) ≡ any p xs
  any-sort before p [] = refl
  any-sort before p (x ∷ xs) =
      ground (arith, any-insert before p x (sort before xs), any-sort before p xs)

  pub length-insert :
      (before : A → A → Bool) (x : A) (xs : List A) → length (insert before x xs) ≡ suc (length xs)
  length-insert before x [] = refl
  length-insert before x (y ∷ ys) = ground (arith, length-insert before x ys)

  pub length-sort : (before : A → A → Bool) (xs : List A) → length (sort before xs) ≡ length xs
  length-sort before [] = refl
  length-sort before (x ∷ xs) =
      ground (arith, length-insert before x (sort before xs), length-sort before xs)

  length-select-insert :
      (before : A → A → Bool) (p : A → Bool) (x : A) (xs : List A)
      → length (select p (insert before x xs)) ≡ length (select p (x ∷ xs))
  length-select-insert before p x [] = refl
  length-select-insert before p x (y ∷ ys) = ground (arith, length-select-insert before p x ys)

  -- Sorting does not change how many rows pass a test.
  pub length-select-sort :
      (before : A → A → Bool) (p : A → Bool) (xs : List A)
      → length (select p (sort before xs)) ≡ length (select p xs)
  length-select-sort before p [] = refl
  length-select-sort before p (x ∷ xs) =
      ground
        (arith, length-select-insert before p x (sort before xs), length-select-sort before p xs)

-- `sorted(set(texts))`
abbrev pub insert_text : String → List String → List String
insert_text s [] = s ∷ []
insert_text s (t ∷ ts) =
    if s == t then t ∷ ts else if lt_text s t then s ∷ t ∷ ts else t ∷ insert_text s ts

abbrev pub sorted_set : List String → List String
sorted_set [] = []
sorted_set (s ∷ ss) = insert_text s (sorted_set ss)

any-insert_text :
    (p : String → Bool) (s : String) (ts : List String)
    → any p (insert_text s ts) ≡ (p s || any p ts)
any-insert_text p s [] = refl
any-insert_text p s (t ∷ ts) = ground (arith, eq_iff s t, any-insert_text p s ts)

-- The sorted set has the texts of the list.
pub any-sorted_set : (p : String → Bool) (ts : List String) → any p (sorted_set ts) ≡ any p ts
any-sorted_set p [] = refl
any-sorted_set p (t ∷ ts) = ground (arith, any-insert_text p t (sorted_set ts), any-sorted_set p ts)

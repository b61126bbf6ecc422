-- ===== src/Base/Bytes.antt =====
-- Byte strings as lists of numbers: Python's `in`, and the last bytes of a string.
use Prim.Native.Nat.{ℕ, ◌≤◌, ◌<◌, suc}
use Prim.Native.Char.{code}
use Prim.Native.String.{String}
use mathlib.Core.Path.{◌≡◌, refl}
use mathlib.Core.Bool.{Bool, true, false, ◌&&◌, ◌||◌}
use mathlib.Core.List.{List, [], ◌∷◌, ◌++◌}
use native.Mathlib.Omega.{arith}
use localbench.Base.Tests.{ltb, eqb, if◌then◌else◌}
use localbench.Base.Lists.{length, length-append}

-- `b"…"`
abbrev pub bytes : String → List ℕ
bytes String.[] = []
bytes (String.◌∷◌ c text) = code c ∷ bytes text

unfoldable pub is_prefix : List ℕ → List ℕ → Bool
is_prefix [] xs = true
is_prefix (a ∷ m) [] = false
is_prefix (a ∷ m) (x ∷ xs) = eqb a x && is_prefix m xs

-- `m in xs`
unfoldable pub is_infix : List ℕ → List ℕ → Bool
unfolding is_prefix
is_infix m [] = is_prefix m []
is_infix m (x ∷ xs) = is_prefix m (x ∷ xs) || is_infix m xs

-- `xs[-k:]` for a positive k
unfoldable pub last : ℕ → List ℕ → List ℕ
last k [] = []
last k (x ∷ xs) = let rest = last k xs in if ltb (length xs) k then x ∷ xs else rest

prefix-append : (m xs ys : List ℕ) → length m ≤ length xs → is_prefix m (xs ++ ys) ≡ is_prefix m xs
unfolding is_prefix
prefix-append [] xs ys h = refl
prefix-append (a ∷ m) [] ys h = ground arith
prefix-append (a ∷ m) (x ∷ xs) ys h = ground (arith, prefix-append m xs ys)

prefix_mono : (m xs ys : List ℕ) → is_prefix m xs ≡ true → is_prefix m (xs ++ ys) ≡ true
unfolding is_prefix
prefix_mono [] xs ys h = refl
prefix_mono (a ∷ m) [] ys h = ground arith
prefix_mono (a ∷ m) (x ∷ xs) ys h = ground (arith, prefix_mono m xs ys)

infix_mono : (m xs ys : List ℕ) → is_infix m xs ≡ true → is_infix m (xs ++ ys) ≡ true
unfolding is_infix is_prefix
infix_mono [] [] [] h = refl
infix_mono [] [] (y ∷ ys) h = refl
infix_mono (a ∷ m) [] ys h = ground arith
infix_mono m (x ∷ xs) ys h = ground (arith, infix_mono m xs ys, prefix_mono m (x ∷ xs) ys)

-- A match of at most k + 1 bytes that ends in `ys` starts in the last k bytes before it.
pub infix-append :
    (k : ℕ) (m xs ys : List ℕ)
    → 0 < length m
    → length m ≤ suc k
    → is_infix m (xs ++ ys) ≡ (is_infix m xs || is_infix m (last k xs ++ ys))
unfolding is_infix last is_prefix
infix-append k [] xs ys h b = ground arith
infix-append k (a ∷ m) [] ys h b = refl
infix-append k (a ∷ m) (x ∷ xs) ys h b = ground (
  arith,
  infix-append k (a ∷ m) xs ys,
  infix_mono (a ∷ m) (x ∷ xs) ys,
  prefix-append (a ∷ m) (x ∷ xs) ys,
)

pub last-append : (k : ℕ) (xs ys : List ℕ) → last k (last k xs ++ ys) ≡ last k (xs ++ ys)
unfolding last
last-append k [] ys = refl
last-append k (x ∷ xs) ys = ground (arith, last-append k xs ys, length-append xs ys)

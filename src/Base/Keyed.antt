-- ===== src/Base/Keyed.antt =====
-- Tables with a text as their key: what a row holds after an update, an upsert or a deletion.
use mathlib.Core.Path.{◌≡◌, refl}
use mathlib.Core.Bool.{Bool, false, not, ◌&&◌, ◌||◌}
use mathlib.Core.Option.{Option, none, some}
use mathlib.Core.List.{List, [], ◌∷◌, map}
use native.Mathlib.Omega.{arith}
use Prim.Native.String.{String}
use text.Mathlib.Text.{◌==◌}
use text.Mathlib.TextEquality.{eq_iff}
use localbench.Base.Tests.{if◌then◌else◌, Bool-cases}
use mathlib.Core.Logic.{inl, inr}
use localbench.Base.Table.{any, any-and, find, delete, update, upsert}

abbrev pub on_some {ℓ} : {A : Type ℓ} → (A → A) → Option A → Option A
on_some f none = none
on_some f (some x) = some (f x)

abbrev pub or_new {ℓ} : {A : Type ℓ} → (A → A) → A → Option A → A
or_new f new none = new
or_new f new (some x) = f x

module _ {ℓ} {A : Type ℓ} (key : A → String) where
  abbrev at : String → A → Bool
  at k x = key x == k

  -- An UPDATE of the rows at `k` that keeps the key.
  pub find-update_key :
      (f : A → A) (k m : String) (xs : List A)
      → ((x : A) → key (f x) ≡ key x)
      → find (at m) (update (at k) f xs)
        ≡ (if k == m then on_some f (find (at m) xs) else find (at m) xs)
  find-update_key f k m [] keep = ground arith
  find-update_key f k m (x ∷ xs) keep =
      ground (
        arith,
        keep x,
        eq_iff (key x) k,
        eq_iff (key x) m,
        eq_iff k m,
        find-update_key f k m xs keep,
      )

  pub find-upsert_key :
      (f : A → A) (new : A) (m : String) (xs : List A)
      → ((x : A) → key (f x) ≡ key x)
      → find (at m) (upsert (at (key new)) f new xs)
        ≡ (if key new == m then some (or_new f new (find (at m) xs)) else find (at m) xs)
  find-upsert_key f new m [] keep = ground arith
  find-upsert_key f new m (x ∷ xs) keep = ground (
    arith,
    keep x,
    eq_iff (key x) (key new),
    eq_iff (key x) m,
    eq_iff (key new) m,
    find-upsert_key f new m xs keep,
  )

  -- An UPDATE by any test that keeps the key.
  pub find-update_if :
      (q : A → Bool) (f : A → A) (m : String) (xs : List A)
      → ((x : A) → key (f x) ≡ key x)
      → find (at m) (update q f xs) ≡ on_some (λ x. if q x then f x else x) (find (at m) xs)
  find-update_if q f m [] keep = refl
  find-update_if q f m (x ∷ xs) keep = ground (arith, keep x, find-update_if q f m xs keep)

  pub any-update_key :
      (q : A → Bool) (f : A → A) (m : String) (xs : List A)
      → ((x : A) → key (f x) ≡ key x)
      → any (at m) (update q f xs) ≡ any (at m) xs
  any-update_key q f m [] keep = refl
  any-update_key q f m (x ∷ xs) keep = ground (arith, keep x, any-update_key q f m xs keep)

  pub any-delete_key :
      (k m : String) (xs : List A) → any (at m) (delete (at k) xs) ≡ (any (at m) xs && not (k == m))
  any-delete_key k m [] = refl
  any-delete_key k m (x ∷ xs) =
      ground (arith, eq_iff (key x) k, eq_iff (key x) m, eq_iff k m, any-delete_key k m xs)

  -- A primary key: no two rows have one text.
  abbrev pub IsUnique : List A → Type 0
  IsUnique [] = Unit
  IsUnique (x ∷ xs) = (any (at (key x)) xs ≡ false) × IsUnique xs

  abbrev pub on_row : (A → Bool) → Option A → Bool
  on_row q none = false
  on_row q (some x) = q x

  -- Under a primary key the row that a key finds is the only one.
  pub any_unique :
      (q : A → Bool) (m : String) (xs : List A)
      → IsUnique xs
      → any (λ x. key x == m && q x) xs ≡ on_row q (find (at m) xs)
  any_unique q m [] u = refl
  any_unique q m (x ∷ xs) u =
      ground (arith, eq_iff (key x) m, u.0, any-and (at m) q xs, any_unique q m xs u.1)

  pub any-upsert_key :
      (f : A → A) (new : A) (m : String) (xs : List A)
      → ((x : A) → key (f x) ≡ key x)
      → any (at m) (upsert (at (key new)) f new xs) ≡ (any (at m) xs || key new == m)
  any-upsert_key f new m [] keep = ground arith
  any-upsert_key f new m (x ∷ xs) keep = ground (
    arith,
    keep x,
    eq_iff (key x) (key new),
    eq_iff (key x) m,
    eq_iff (key new) m,
    any-upsert_key f new m xs keep,
  )

  pub upsert-IsUnique :
      (f : A → A) (new : A) (xs : List A)
      → ((x : A) → key (f x) ≡ key x)
      → IsUnique xs
      → IsUnique (upsert (at (key new)) f new xs)
  upsert-IsUnique f new [] keep u = (refl, tt)
  upsert-IsUnique f new (x ∷ xs) keep u = elim (Bool-cases (key x == key new)) [
    | inl same ↦ rw same (rw (keep x) u.0, u.1)
    | inr other ↦ rw other (
      ground (
        arith,
        u.0,
        eq_iff (key new) (key x),
        eq_iff (key x) (key new),
        any-upsert_key f new (key x) xs keep,
      ),
      upsert-IsUnique f new xs keep u.1,
    )
  ]

  pub update-IsUnique :
      (q : A → Bool) (f : A → A) (xs : List A)
      → ((x : A) → key (f x) ≡ key x)
      → IsUnique xs
      → IsUnique (update q f xs)
  update-IsUnique q f [] keep u = tt
  update-IsUnique q f (x ∷ xs) keep u = (
    ground (arith, u.0, keep x, any-update_key q f (key x) xs keep),
    update-IsUnique q f xs keep u.1,
  )

  any-map_key :
      (f : A → A) (m : String) (xs : List A)
      → ((x : A) → key (f x) ≡ key x)
      → any (at m) (map f xs) ≡ any (at m) xs
  any-map_key f m [] keep = refl
  any-map_key f m (x ∷ xs) keep = ground (arith, keep x, any-map_key f m xs keep)

  pub map-IsUnique :
      (f : A → A) (xs : List A) → ((x : A) → key (f x) ≡ key x) → IsUnique xs → IsUnique (map f xs)
  map-IsUnique f [] keep u = tt
  map-IsUnique f (x ∷ xs) keep u =
      (ground (arith, u.0, keep x, any-map_key f (key x) xs keep), map-IsUnique f xs keep u.1)

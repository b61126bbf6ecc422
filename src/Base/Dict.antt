-- ===== src/Base/Dict.antt =====
-- Python's dict with text keys, as a list of pairs in insertion order.
use Prim.Native.String.{String}
use mathlib.Core.Path.{◌≡◌, refl}
use mathlib.Core.Bool.{Bool, true, false, ◌||◌}
use mathlib.Core.Option.{Option, none, some}
use mathlib.Core.List.{List, [], ◌∷◌, ◌++◌}
use native.Mathlib.Omega.{arith}
use text.Mathlib.Text.{◌==◌}
use text.Mathlib.TextEquality.{eq_iff}
use localbench.Base.Table.{all}
use localbench.Base.Tests.{if◌then◌else◌, is_some}

module _ {ℓ} {A : Type ℓ} where
  -- `d.get(k)`
  abbrev pub get : String → List (String × A) → Option A
  get k [] = none
  get k ((j, v) ∷ d) = if j == k then some v else get k d

  -- `k in d`
  abbrev pub has_key : String → List (String × A) → Bool
  has_key k [] = false
  has_key k ((j, v) ∷ d) = j == k || has_key k d

  -- `d[k] = v`
  abbrev pub put : String → A → List (String × A) → List (String × A)
  put k v [] = (k, v) ∷ []
  put k v ((j, w) ∷ d) = if j == k then (j, v) ∷ d else (j, w) ∷ put k v d

  -- `d.setdefault(k, v)`
  abbrev pub set_default : String → A → List (String × A) → List (String × A)
  set_default k v d = if has_key k d then d else d ++ (k, v) ∷ []

  -- `{**d, **e}`
  abbrev pub merged : List (String × A) → List (String × A) → List (String × A)
  merged d [] = d
  merged d ((k, v) ∷ e) = merged (put k v d) e

  -- `{k: f(k) for k in keys}` for distinct keys
  abbrev pub tabulate : (String → A) → List String → List (String × A)
  tabulate f [] = []
  tabulate f (k ∷ ks) = (k, f k) ∷ tabulate f ks

  pub get-put :
      (k j : String) (v : A) (d : List (String × A))
      → get j (put k v d) ≡ (if k == j then some v else get j d)
  get-put k j v [] = refl
  get-put k j v ((i, w) ∷ d) = ground (arith, get-put k j v d, eq_iff i k, eq_iff k j, eq_iff i j)

  pub get-append_one :
      (k j : String) (v : A) (d : List (String × A))
      → has_key k d ≡ false
      → get j (d ++ (k, v) ∷ []) ≡ (if k == j then some v else get j d)
  get-append_one k j v [] h = refl
  get-append_one k j v ((i, w) ∷ d) h =
      ground (arith, get-append_one k j v d, eq_iff i j, eq_iff k j, eq_iff i k)

  pub has_key-get : (k : String) (d : List (String × A)) → has_key k d ≡ is_some (get k d)
  has_key-get k [] = refl
  has_key-get k ((j, v) ∷ d) = ground (arith, has_key-get k d)

  pub all-put :
      (q : A → Bool) (k : String) (v : A) (d : List (String × A))
      → q v ≡ true
      → all (λ r. q r.1) d ≡ true
      → all (λ r. q r.1) (put k v d) ≡ true
  all-put q k v [] h hs = ground arith
  all-put q k v ((j, w) ∷ d) h hs = ground (arith, all-put q k v d h)

  pub get-all :
      (q : A → Bool) (k : String) (v : A) (d : List (String × A))
      → all (λ r. q r.1) d ≡ true
      → get k d ≡ some v
      → q v ≡ true
  get-all q k v [] hs e = absurd cc
  get-all q k v ((j, w) ∷ d) hs e = ground (arith, get-all q k v d)

-- ===== src/Golden/Document/Kept.antt =====
-- `merge` of localbench/golden.py keeps the rows of the other tiers with the pins of their own generation.
use localbench.Base.{
  String, Bool, true, false, not, Option, none, some, List, [], ◌∷◌, ◌++◌, ◌≡◌, refl, sym, ◌∙◌, ap,
  arith, all, is_some, holds, get, has_key, put, set_default, merged, tabulate, get-put,
  get-append_one, has_key-get, Bool-cases, inl, inr, eq_iff, map, select, and-eq-true, false≢true,
}
use localbench.Golden.Pins.{
  Pins, pin, GoldenPins, with_pin_defaults, golden_tier_pins, recorded_pins, is_splash,
  default_each, splash_keys, splash_source, same_pin, pin_diff, tier_diff, backend_keys, block_of,
  tier_keys, difference, Difference,
}
use localbench.Golden.Document.{
  Golden, is_in, kept_tiers, merge, merge_rows, merged_pins, is_none_left,
}

with_defaults-kept : (p : Pins) → is_some (pin "backend_args" p) ≡ true → with_pin_defaults p ≡ p
unfolding with_pin_defaults
with_defaults-kept p h = rw h refl

with_defaults-args : (p : Pins) → is_some (pin "backend_args" (with_pin_defaults p)) ≡ true
unfolding with_pin_defaults
with_defaults-args p = elim (Bool-cases (is_some (pin "backend_args" p))) [
  | inl there ↦ rw there there
  | inr missing ↦ rw missing (ground (arith, get-put "backend_args" "backend_args" (some "") p))
]

with_defaults-backend : (p : Pins) → pin "backend" (with_pin_defaults p) ≡ pin "backend" p
unfolding with_pin_defaults
with_defaults-backend p = elim (Bool-cases (is_some (pin "backend_args" p))) [
  | inl there ↦ rw there refl
  | inr missing ↦ rw missing (ground (arith, get-put "backend_args" "backend" (some "") p))
]

set_default-some :
    (k j : String) (v : Option String) (d : Pins)
    → is_some (pin j d) ≡ true
    → is_some (pin j (set_default k v d)) ≡ true
set_default-some k j v d h =
    ground (arith, get-append_one k j v d, has_key-get k d, has_key-get j d, eq_iff k j)

default_each-some :
    (source : Pins) (ks : List String) (j : String) (d : Pins)
    → is_some (pin j d) ≡ true
    → is_some (pin j (default_each source ks d)) ≡ true
default_each-some source [] j d h = h
default_each-some source (k ∷ ks) j d h =
    default_each-some source ks j _ (set_default-some k j (pin k source) d h)

set_default-keeps :
    (k j : String) (v : Option String) (d : Pins)
    → has_key j d ≡ true
    → has_key j (set_default k v d) ≡ true
set_default-keeps k j v d h = ground (
  arith,
  get-append_one k j v d,
  has_key-get k d,
  has_key-get j d,
  has_key-get j (d ++ (k, v) ∷ []),
  eq_iff k j,
)

set_default-has : (k : String) (v : Option String) (d : Pins) → has_key k (set_default k v d) ≡ true
set_default-has k v d =
    ground (arith, get-append_one k k v d, has_key-get k (d ++ (k, v) ∷ []), eq_iff k k)

default_each-keeps :
    (source : Pins) (ks : List String) (j : String) (d : Pins)
    → has_key j d ≡ true
    → has_key j (default_each source ks d) ≡ true
default_each-keeps source [] j d h = h
default_each-keeps source (k ∷ ks) j d h =
    default_each-keeps source ks j _ (set_default-keeps k j (pin k source) d h)

default_each-has :
    (source : Pins) (ks : List String) (d : Pins)
    → all (λ k. has_key k (default_each source ks d)) ks ≡ true
default_each-has source [] d = refl
default_each-has source (k ∷ ks) d =
    rw
      (default_each-keeps source ks k (set_default k (pin k source) d)
        (set_default-has k (pin k source) d))
      (default_each-has source ks (set_default k (pin k source) d))

-- Nothing is set where every key is there.
default_each-idle :
    (source : Pins) (ks : List String) (d : Pins)
    → all (λ k. has_key k d) ks ≡ true
    → default_each source ks d ≡ d
default_each-idle source [] d h = refl
default_each-idle source (k ∷ ks) d h =
    let (first, rest) = and-eq-true {a = has_key k d} h in
    rw first (default_each-idle source ks d rest)

recorded-args :
    (g : GoldenPins) (tier : String) (o : Option Pins)
    → is_some (pin "backend_args" (recorded_pins g tier o)) ≡ true
recorded-args g tier none = with_defaults-args (block_of (tier_keys tier) g.pins)
recorded-args g tier (some p) = with_defaults-args p

args-tier_pins :
    (g : GoldenPins) (tier : String) → is_some (pin "backend_args" (golden_tier_pins g tier)) ≡ true
unfolding golden_tier_pins
args-tier_pins g tier =
    let recorded = get tier g.tier_pins in
    let out = recorded_pins g tier recorded in
    elim (Bool-cases (is_splash g.pins)) [
      | inl splash ↦ rw splash (
          default_each-some (splash_source g recorded) splash_keys "backend_args" out
            (recorded-args g tier recorded))
      | inr other ↦ rw other (recorded-args g tier recorded)
    ]

splash-tier_pins :
    (g : GoldenPins) (tier : String)
    → is_splash g.pins ≡ true
    → all (λ k. has_key k (golden_tier_pins g tier)) splash_keys ≡ true
unfolding golden_tier_pins
splash-tier_pins g tier splash = rw splash (
    default_each-has (splash_source g (get tier g.tier_pins)) splash_keys
      (recorded_pins g tier (get tier g.tier_pins)))

-- A recorded block that is complete is read as it is.
read-recorded :
    (g : GoldenPins) (tier : String) (p : Pins)
    → get tier g.tier_pins ≡ some p
    → is_some (pin "backend_args" p) ≡ true
    → (is_splash g.pins ≡ true → all (λ k. has_key k p) splash_keys ≡ true)
    → golden_tier_pins g tier ≡ p
unfolding golden_tier_pins
read-recorded g tier p there args splash_keyed = elim (Bool-cases (is_splash g.pins)) [
  | inl splash ↦
      rw (splash, there, with_defaults-kept p args)
        (default_each-idle (splash_source g (some p)) splash_keys p (splash_keyed splash))
  | inr other ↦ rw (other, there) (with_defaults-kept p args)
]

get-merged :
    (t : String) (d e : List (String × Pins)) → has_key t e ≡ false → get t (merged d e) ≡ get t d
get-merged t d [] h = refl
get-merged t d ((k, v) ∷ e) h = ground (arith, get-merged t (put k v d) e, get-put k t v d)

get-tabulate :
    (f : String → Pins) (t : String) (ks : List String)
    → is_in ks t ≡ true
    → get t (tabulate f ks) ≡ some (f t)
get-tabulate f t [] h = cc
get-tabulate f t (k ∷ ks) h = ground (arith, get-tabulate f t ks, eq_iff k t)

none_left-all :
    (f : String → Difference) (q : String → Bool) (ks : List String)
    → is_none_left (map f (select (λ k. not (q k)) ks)) ≡ true
    → all q ks ≡ true
none_left-all f q [] h = refl
none_left-all f q (k ∷ ks) h = elim (Bool-cases (q k)) [
  | inl same ↦ rw same (none_left-all f q ks (rw same at h))
  | inr moved ↦ absurd (cc (rw moved at h))
]

same_pin-holds : (a b : Option String) (t : String) → same_pin a b ≡ true → holds a t ≡ holds b t
same_pin-holds none none t h = refl
same_pin-holds none (some b) t h = cc
same_pin-holds (some a) none t h = cc
same_pin-holds (some a) (some b) t h = rw ((eq_iff a b).0 h) refl

splash-same :
    (old new : Pins)
    → is_none_left (pin_diff (with_pin_defaults old) new backend_keys) ≡ true
    → is_splash new ≡ is_splash old
unfolding pin_diff
splash-same old new h =
    let before = with_pin_defaults old in
    let equal =
      none_left-all (difference before new) (λ k. same_pin (pin k before) (pin k new)) backend_keys
        h in
    let backend : same_pin (pin "backend" before) (pin "backend" new) ≡ true =
      ground (arith, equal) in
    sym (same_pin-holds (pin "backend" before) (pin "backend" new) "splash" backend)
    ∙ ap (λ o. holds o "splash") (with_defaults-backend old)

merged-same :
    (old new : Golden) (tiers : List String) (t : String) (pins : Pins)
    → is_in (kept_tiers old tiers) t ≡ true
    → has_key t new.pins.tier_pins ≡ false
    → is_splash new.pins.pins ≡ is_splash old.pins.pins
    → tier_diff (merge_rows old new (kept_tiers old tiers)).pins t pins ≡ tier_diff old.pins t pins
unfolding tier_diff
merged-same old new tiers t pins kept unmeasured same =
    let keep = kept_tiers old tiers in
    let p = golden_tier_pins old.pins t in
    let there =
      get-merged t (tabulate (λ u. golden_tier_pins old.pins u) keep) new.pins.tier_pins unmeasured
      ∙ get-tabulate (λ u. golden_tier_pins old.pins u) t keep kept in
    let read =
      read-recorded (merged_pins old.pins new.pins keep) t p there (args-tier_pins old.pins t)
        (λ h. splash-tier_pins old.pins t (sym same ∙ h)) in
    rw (read, same) refl

-- A tier that the old golden has, that was not measured again and that `merge` does not drop is judged as
-- before: the same pins of it have moved under the merged golden as under the old one.
pub merge-keeps :
    (old new : Golden) (tiers : List String) (t : String) (pins : Pins)
    → is_in (kept_tiers old tiers) t ≡ true
    → is_in (merge (some old) new tiers).1 t ≡ false
    → has_key t new.pins.tier_pins ≡ false
    → tier_diff (merge (some old) new tiers).0.pins t pins ≡ tier_diff old.pins t pins
unfolding merge
merge-keeps old new tiers t pins kept undropped unmeasured =
    let moved = pin_diff (with_pin_defaults old.pins.pins) new.pins.pins backend_keys in
    elim (Bool-cases (is_none_left moved)) [
      | inl same ↦ rw same (
          merged-same old new tiers t pins kept unmeasured
            (splash-same old.pins.pins new.pins.pins same))
      | inr other ↦ absurd (false≢true (sym (rw other at undropped) ∙ kept))
    ]

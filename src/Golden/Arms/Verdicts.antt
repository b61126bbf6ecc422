-- ===== src/Golden/Arms/Verdicts.antt =====
-- What the A/B table of localbench/golden.py can say.
use localbench.Base.{
  String, Bool, ◌&&◌, ◌||◌, Option, none, List, [], ◌∷◌, ◌==◌, ◌≡◌, refl, arith, any, if◌then◌else◌,
  is_some, holds, Bool-cases, Option-cases, inl, inr,
}
use localbench.Golden.Pins.{Pins}
use localbench.Golden.Arms.{
  checked_keys, differs, leg_values, tier_drift, first_drift, Cell, load_verdict, is_time_key,
  ab_verdict,
}

drift-first :
    (arm : String) (legs : List Pins) (ks : List String)
    → is_some (first_drift arm legs ks) ≡ any (λ k. differs (leg_values legs k)) ks
drift-first arm legs [] = refl
drift-first arm legs (k ∷ ks) = elim (Bool-cases (differs (leg_values legs k))) [
  | inl moved ↦ rw moved refl
  | inr same ↦ rw same (drift-first arm legs ks)
]

-- A tier has drifted exactly if the legs of one arm read different values of a pin that it depends on, or,
-- for a tier that runs omp, of omp's version or binary.
pub tier_drift-differs :
    (a_pins b_pins : List Pins) (tier : String)
    → is_some (tier_drift a_pins b_pins tier) ≡ (
        any (λ k. differs (leg_values a_pins k)) (checked_keys tier)
        || any (λ k. differs (leg_values b_pins k)) (checked_keys tier))
unfolding tier_drift
tier_drift-differs a_pins b_pins tier =
    elim (Option-cases (first_drift "A" a_pins (checked_keys tier))) [
      | inl none_first ↦ ground (
        arith,
        none_first,
        drift-first "A" a_pins (checked_keys tier),
        drift-first "B" b_pins (checked_keys tier),
      )
      | inr (reason, found) ↦ ground (arith, found, drift-first "A" a_pins (checked_keys tier))
    ]

-- The verdict that the load alone could have produced, for a metric that is a time.
abbrev pub is_suspect : Option String → String → Bool
is_suspect favours verdict =
    holds favours "B" && verdict == "B-BETTER" || holds favours "A" && verdict == "B-WORSE"

abbrev shadowed : String → Option String → String → String
shadowed key favours verdict =
    if is_time_key key && is_suspect favours verdict then "LOAD-FAVOURED" else verdict

load-even : (key verdict : String) → load_verdict key none verdict ≡ verdict
load-even key verdict = refl

module _ (void_tiers : List (String × String)) (favours : Option String) (key better : String)
    (a_cells b_cells : List Cell) where
  -- The verdict, and the one that the same cells get when the load favours no arm.
  abbrev pub loaded : String
  loaded = ab_verdict void_tiers favours key better a_cells b_cells

  abbrev pub unloaded : String
  unloaded = ab_verdict void_tiers none key better a_cells b_cells

-- ===== src/Gateway/Policy/Sweep.antt =====
-- What a sweep of `GatewayPolicy.expire_due` in localbench/gateway.py does and leaves.
use localbench.Base.{
  ◌||◌, String, Bool, true, false, not, ◌&&◌, Option, none, some, List, ◌==◌, ◌≡◌, refl,
  if◌then◌else◌, inl, inr, is_some, Bool-cases,
}
use localbench.Gateway.Policy.{
  Backend, contains, unsafe_reason, readback, after_unload, after_listing, after_probe, expire_one,
}

-- The answer of `/api/ps`: it came and names the model, or it came and does not.
abbrev pub reports : String → Option (List String) → Bool
reports m none = false
reports m (some models) = contains m models

abbrev pub excludes : String → Option (List String) → Bool
excludes m none = false
excludes m (some models) = not (contains m models)

readback-confirms :
    (m : String) (after : Option (List String))
    → ((readback m after).0 == "unloaded_confirmed") ≡ excludes m after
readback-confirms m none = refl
readback-confirms m (some models) = elim (Bool-cases (contains m models)) [
  | inl resident ↦ rw resident
  | inr absent ↦ rw absent
]

-- The outcomes after which a lease is done with, and those after which it is tried again.
abbrev pub is_final : String → Bool
is_final o = o == "unloaded_confirmed" || o == "not_resident_confirmed"

abbrev pub is_deferred : String → Bool
is_deferred o = o == "deferred" || (o == "unload_failed" || o == "verification_failed")

abbrev pub is_outcome : String → Bool
is_outcome o = is_final o || is_deferred o

readback-outcome :
    (m : String) (after : Option (List String)) → is_outcome (readback m after).0 ≡ true
readback-outcome m none = refl
readback-outcome m (some models) = elim (Bool-cases (contains m models)) [
  | inl resident ↦ rw resident refl
  | inr absent ↦ rw absent refl
]

module _ {W : Type 0} (b : Backend W) (m : String) where
  open b use {resident_models, unload}

  unload-confirms :
      (done : Bool) (w : W)
      → (((after_unload b m done w).0.0 == "unloaded_confirmed")
          ≡ (done && excludes m (resident_models w).0))
        × ((after_unload b m done w).1 ≡ (if done then (resident_models w).1 else w))
  unload-confirms false w = (refl, refl)
  unload-confirms true w = (readback-confirms m (resident_models w).0, refl)

  listing-confirms :
      (o : Option (List String)) (w : W)
      → (((after_listing b m o w).0.0 == "unloaded_confirmed")
          ≡ (reports m o && (unload m w).0 && excludes m (resident_models (unload m w).1).0))
        × ((after_listing b m o w).1 ≡ (
            if reports m o
            then if (unload m w).0 then (resident_models (unload m w).1).1 else (unload m w).1
            else w))
  listing-confirms none w = (refl, refl)
  listing-confirms (some models) w = elim (Bool-cases (contains m models)) [
    | inl resident ↦ rw resident (unload-confirms (unload m w).0 (unload m w).1)
    | inr absent ↦ rw absent (refl, refl)
  ]

  probe-confirms :
      (o : Option String) (w : W)
      → (((after_probe b m o w).0.0 == "unloaded_confirmed") ≡ (
          not (is_some o)
          && reports m (resident_models w).0
          && (unload m (resident_models w).1).0
          && excludes m (resident_models (unload m (resident_models w).1).1).0))
        × ((after_probe b m o w).1 ≡ (
            if not (is_some o)
            then if reports m (resident_models w).0
              then if (unload m (resident_models w).1).0
                then (resident_models (unload m (resident_models w).1).1).1
                else (unload m (resident_models w).1).1
              else (resident_models w).1
            else w))
  probe-confirms none w = listing-confirms (resident_models w).0 (resident_models w).1
  probe-confirms (some detail) w = (refl, refl)

  unload-outcome : (done : Bool) (w : W) → is_outcome (after_unload b m done w).0.0 ≡ true
  unload-outcome false w = refl
  unload-outcome true w = readback-outcome m (resident_models w).0

  listing-outcome :
      (o : Option (List String)) (w : W) → is_outcome (after_listing b m o w).0.0 ≡ true
  listing-outcome none w = refl
  listing-outcome (some models) w = elim (Bool-cases (contains m models)) [
    | inl resident ↦ rw resident (unload-outcome (unload m w).0 (unload m w).1)
    | inr absent ↦ rw absent refl
  ]

  probe-outcome : (o : Option String) (w : W) → is_outcome (after_probe b m o w).0.0 ≡ true
  probe-outcome none w = listing-outcome (resident_models w).0 (resident_models w).1
  probe-outcome (some detail) w = refl

-- The probe answered that the unload is safe: it did not raise, and its answer is neither no nor unknown.
abbrev pub says_yes : Option (Option Bool × Option String) → Bool
says_yes none = false
says_yes (some (none, reason)) = false
says_yes (some (some safe, reason)) = safe

safe-yes : (o : Option (Option Bool × Option String)) → not (is_some (unsafe_reason o)) ≡ says_yes o
safe-yes none = refl
safe-yes (some (none, none)) = refl
safe-yes (some (none, some reason)) = refl
safe-yes (some (some true, reason)) = refl
safe-yes (some (some false, none)) = refl
safe-yes (some (some false, some reason)) = refl

module _ {W : Type 0} (b : Backend W) (m : String) (w : W) where
  open b use {external_check, resident_models, unload}

  -- The outside world after each of the four calls that a sweep may make for a model.
  abbrev probed : W
  probed = (external_check m w).1

  abbrev listed : W
  listed = (resident_models probed).1

  abbrev unloaded : W
  unloaded = (unload m listed).1

  abbrev is_safe : Bool
  is_safe = says_yes (external_check m w).0

  abbrev is_resident : Bool
  is_resident = reports m (resident_models probed).0

  abbrev is_unloaded : Bool
  is_unloaded = (unload m listed).0

  abbrev is_gone : Bool
  is_gone = excludes m (resident_models unloaded).0

  -- The unload of a model is confirmed exactly if the probe answered and its answer was yes (not no, and not
  -- unknown), Ollama reported the model resident, the unload completed, and the residents read back
  -- afterwards do not hold the model.
  -- The calls are made in this order, and none is made after one that failed: without a safe probe the
  -- residents are not asked for, and only a safe and resident model is unloaded.
  pub expire_one-confirms :
      (((expire_one b m w).0.0 == "unloaded_confirmed")
        ≡ (is_safe && is_resident && is_unloaded && is_gone))
      × ((expire_one b m w).1 ≡ (
          if is_safe
          then if is_resident
            then if is_unloaded then (resident_models unloaded).1 else unloaded
            else listed
          else probed))
  unfolding expire_one
  expire_one-confirms =
      rw⁻¹ (safe-yes (external_check m w).0)
        (probe-confirms b m (unsafe_reason (external_check m w).0) probed)

  pub outcome-known : is_outcome (expire_one b m w).0.0 ≡ true
  unfolding expire_one
  outcome-known = probe-outcome b m (unsafe_reason (external_check m w).0) probed

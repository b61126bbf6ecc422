-- ===== src/Tests/Goldens.antt =====
-- The goldens of localbench/golden.py on small documents: runs, and the theorems at them.
use localbench.Base.{
  String, true, false, none, some, List, [], ◌∷◌, ◌≡◌, refl, all, tabulate, has_key, remove_suffix,
  if◌then◌else◌, ◌==◌,
}
use localbench.Golden.Pins.{
  Pins, pin_keys, tier_keys, stored_pin_block, banked_pins, tier_diff, golden_tier_pins,
  with_pin_defaults, pin_diff,
}
use localbench.Golden.Document.{
  Golden, GoldenMetric, Measured, measured, Row, compare, merge, tier_of, tiers_of, is_in,
  kept_tiers,
}
use localbench.Golden.Document.Fresh.{is_vouched, compare-vouched}
use localbench.Golden.Document.Kept.{merge-keeps}

-- Every pin is recorded, with its own name.
abbrev run_pins : Pins
run_pins = tabulate (λ k. some k) pin_keys

-- Another omp configuration.
abbrev moved_pins : Pins
moved_pins = tabulate (λ k. if k == "omp_agent_config" then some "other" else some k) pin_keys

abbrev speed : GoldenMetric
speed = record { value = 400_000; better = "higher"; tol = 500; tol_source = "receipt" }

abbrev banked : Golden
banked = record {
  pins = banked_pins run_pins ("micro" ∷ "e2e" ∷ []);
  aa_receipt = "receipt";
  metrics = ("micro.decode_tps", speed) ∷ ("e2e.turn_tps", speed) ∷ [];
  conformance = [];
}

abbrev measurements : List (String × Measured)
measurements = ("micro.decode_tps", measured 379_999) ∷ ("e2e.turn_tps", measured 400_000) ∷ []

abbrev row : String → String → Row
row key status = record { key = key; status = status }

same_run :
    compare measurements [] banked run_pins none []
    ≡ row "micro.decode_tps" "REGRESSED" ∷ row "e2e.turn_tps" "PASS" ∷ []
unfolding compare tier_diff golden_tier_pins with_pin_defaults tier_keys banked_pins
    stored_pin_block tier_of remove_suffix
same_run = refl

moved_run :
    compare measurements [] banked moved_pins none []
    ≡ row "micro.decode_tps" "REGRESSED" ∷ row "e2e.turn_tps" "GENERATION-MISMATCH" ∷ []
unfolding compare tier_diff golden_tier_pins with_pin_defaults tier_keys banked_pins
    stored_pin_block tier_of remove_suffix
moved_run = refl

compare-vouched_example :
    all (is_vouched banked.pins moved_pins) (compare measurements [] banked moved_pins none [])
    ≡ true
compare-vouched_example = compare-vouched measurements [] banked moved_pins none []

abbrev again : Golden
again = record {
  pins = banked_pins moved_pins ("e2e" ∷ []);
  aa_receipt = "receipt 2";
  metrics = ("e2e.turn_tps", speed) ∷ [];
  conformance = [];
}

kept_run : is_in (kept_tiers banked ("e2e" ∷ [])) "micro" ≡ true
unfolding tiers_of tier_of
kept_run = refl

undropped_run : is_in (merge (some banked) again ("e2e" ∷ [])).1 "micro" ≡ false
unfolding merge tiers_of tier_of pin_diff with_pin_defaults banked_pins stored_pin_block tier_keys
undropped_run = refl

unmeasured_run : has_key "micro" again.pins.tier_pins ≡ false
unfolding banked_pins stored_pin_block
unmeasured_run = refl

merge-keeps_example :
    tier_diff (merge (some banked) again ("e2e" ∷ [])).0.pins "micro" run_pins
    ≡ tier_diff banked.pins "micro" run_pins
merge-keeps_example =
    merge-keeps banked again ("e2e" ∷ []) "micro" run_pins kept_run undropped_run unmeasured_run

-- ===== src/Golden/Document.antt =====
-- The golden document of localbench/golden.py: `tiers_of`, `merge` and `compare`. Values and tolerances are
-- numbers of ten-thousandths, to which the code rounds them; a row keeps its key and its status.
pub mod Fresh
pub mod Kept
use Prim.Native.Char.{code}
use localbench.Base.{
  ℕ, ◌+◌, ◌-◌, ◌*◌, String, Bool, true, false, not, ◌&&◌, ◌||◌, Option, none, some, List, [], ◌∷◌,
  ◌++◌, map, ◌==◌, any, select, delete, sorted_set, ltb, eqb, if◌then◌else◌, is_some, get, has_key,
  tabulate, merged, remove_suffix,
}
use localbench.Golden.Pins.{
  Pins, GoldenPins, backend_keys, golden_tier_pins, tier_diff, pin_diff, with_pin_defaults,
  Difference,
}

pub record GoldenMetric : Type 0 where
  pub value : ℕ
  pub better : String
  pub tol : ℕ
  pub tol_source : String

-- A metric of a run: a value, or the reason why it is void.
pub data Measured : Type 0 where
  measured : ℕ → Measured
  voided : String → Measured

pub record Entry : Type 0 where
  pub level : String
  pub verdict : String
  pub shape : String

pub record Golden : Type 0 where
  pub pins : GoldenPins
  pub aa_receipt : String
  pub metrics : List (String × GoldenMetric)
  pub conformance : List (String × Entry)

-- `key.split(".", 1)[0]`
unfoldable pub tier_of : String → String
tier_of String.[] = ""
tier_of (String.◌∷◌ c key) =
    let rest = tier_of key in if eqb (code c) 46 then "" else String.◌∷◌ c rest

abbrev pub keys_of {ℓ} : {A : Type ℓ} → List (String × A) → List String
keys_of rows = map (λ r. r.0) rows

unfoldable pub tiers_of : Golden → List String
unfolding tier_of
tiers_of g = sorted_set (map tier_of (keys_of g.metrics ++ keys_of g.conformance))

abbrev pub is_in : List String → String → Bool
is_in tiers t = any (λ u. u == t) tiers

abbrev pub rows_in {ℓ} : {A : Type ℓ} → List String → List (String × A) → List (String × A)
rows_in tiers rows = select (λ r. is_in tiers (tier_of r.0)) rows

abbrev pub is_none_left : List Difference → Bool
is_none_left [] = true
is_none_left _ = false

-- The old tiers that were not measured again.
abbrev pub kept_tiers : Golden → List String → List String
kept_tiers old tiers = delete (is_in tiers) (tiers_of old)

abbrev pub merged_pins : GoldenPins → GoldenPins → List String → GoldenPins
merged_pins old new keep = record {
  pins = new.pins;
  tier_pins = merged (tabulate (λ t. golden_tier_pins old t) keep) new.tier_pins;
}

abbrev pub merge_rows : Golden → Golden → List String → Golden
merge_rows old new keep = record {
  pins = merged_pins old.pins new.pins keep;
  aa_receipt = new.aa_receipt;
  metrics = merged (rows_in keep old.metrics) new.metrics;
  conformance = merged (rows_in keep old.conformance) new.conformance;
}

-- The golden and the tiers that it drops.
unfoldable pub merge : Option Golden → Golden → List String → Golden × List String
unfolding tiers_of
merge none new tiers = (new, [])
merge (some old) new tiers =
    let keep = kept_tiers old tiers in
    if is_none_left (pin_diff (with_pin_defaults old.pins.pins) new.pins.pins backend_keys)
    then (merge_rows old new keep, [])
    else (new, keep)

pub record Row : Type 0 where
  pub key : String
  pub status : String

abbrev pub abs_slack : ℕ
abs_slack = 1500

abbrev one : ℕ
one = 10_000

abbrev slack_of : String → ℕ
slack_of key = if remove_suffix "_s" key == key then 0 else abs_slack

-- The band about the golden value.
abbrev pub band_status : String → GoldenMetric → ℕ → String
band_status key g value =
    if g.better == "higher"
    then if ltb (value * one) (g.value * (one - g.tol))
      then "REGRESSED"
      else if ltb (g.value * (one + g.tol)) (value * one)
      then "IMPROVED"
      else "PASS"
    else if ltb (g.value * (one + g.tol) + slack_of key * one) (value * one)
    then "REGRESSED"
    else if ltb (value * one + slack_of key * one) (g.value * (one - g.tol))
    then "IMPROVED"
    else "PASS"

abbrev pub measured_status : String → GoldenMetric → Option Measured → String
measured_status key g none = "MISSING"
measured_status key g (some a) =
    if g.tol_source == ""
    then "TOL-UNPROVEN"
    else elim a [ voided reason ↦ "VOID" | measured value ↦ band_status key g value ]

abbrev pub new_status : Measured → String
new_status (voided reason) = "VOID"
new_status (measured value) = "NEW"

abbrev same_entry : Entry → Entry → Bool
same_entry a b = a.level == b.level && a.verdict == b.verdict && a.shape == b.shape

abbrev pub equal_status : Bool → Entry → String
equal_status listed a =
    if a.verdict == "VOID"
    then if a.level == "MUST" then "MUST-VOID" else "VOID"
    else if a.verdict == "PASS"
    then "PASS"
    else if listed
    then "XFAIL"
    else "FAIL"

abbrev pub changed_status : Entry → Entry → String
changed_status g a =
    if a.verdict == "PASS" && g.verdict == "FAIL"
    then "IMPROVED"
    else if a.verdict == "VOID" && g.verdict == "FAIL"
    then "VOID"
    else "FAIL"

abbrev pub case_status : Bool → Entry → Option Entry → String
case_status listed g none = "MISSING"
case_status listed g (some a) =
    if g.verdict == "FLAKY"
    then "FLAKY"
    else if same_entry a g
    then equal_status listed a
    else changed_status g a

abbrev pub new_case_status : Entry → String
new_case_status a =
    if a.verdict == "PASS" then "NEW" else if a.verdict == "VOID" then "VOID" else "FAIL"

abbrev pub in_tiers {ℓ} :
    {A : Type ℓ} → Option (List String) → List (String × A) → List (String × A)
in_tiers none rows = rows
in_tiers (some tiers) rows = rows_in tiers rows

-- Whether a pin moved on which the tier of a key depends.
abbrev pub is_stale : GoldenPins → Pins → String → Bool
is_stale golden pins key = not (is_none_left (tier_diff golden (tier_of key) pins))

-- `listed` is the set of the cases that DISCREPANCIES.md lists for the backend and the model.
module _ (golden : GoldenPins) (pins : Pins) (listed : List String) where
  abbrev pub judged : String → String → String
  judged key status = if is_stale golden pins key then "GENERATION-MISMATCH" else status

  abbrev pub metric_rows : List (String × GoldenMetric) → List (String × Measured) → List Row
  metric_rows [] metrics = []
  metric_rows ((key, g) ∷ rest) metrics =
      record { key = key; status = judged key (measured_status key g (get key metrics)) }
      ∷ metric_rows rest metrics

  abbrev pub case_rows : List (String × Entry) → List (String × Entry) → List Row
  case_rows [] conformance = []
  case_rows ((key, g) ∷ rest) conformance =
      record {
        key = key;
        status = judged key (case_status (is_in listed key) g (get key conformance));
      }
      ∷ case_rows rest conformance

-- The rows of a run that the golden does not have.
abbrev pub new_rows {ℓ κ} :
    {A : Type ℓ} {B : Type κ} → (A → String) → List (String × B) → List (String × A) → List Row
new_rows status golden [] = []
new_rows status golden ((key, a) ∷ rest) =
    let later = new_rows status golden rest in
    if has_key key golden then later else record { key = key; status = status a } ∷ later

unfoldable pub compare :
    List (String × Measured)
    → List (String × Entry)
    → Golden
    → Pins
    → Option (List String)
    → List String
    → List Row
compare metrics conformance golden pins tiers listed =
    let golden_metrics = in_tiers tiers golden.metrics in
    let golden_cases = in_tiers tiers golden.conformance in
    metric_rows golden.pins pins listed golden_metrics metrics
    ++ new_rows new_status golden_metrics metrics
    ++ case_rows golden.pins pins listed golden_cases conformance
    ++ new_rows new_case_status golden_cases conformance

-- ===== src/Golden/Arms.antt =====
-- The A/B legs of localbench/golden.py: `arm_pin_drift`, `load_balance` and `ab_table`. Values are natural
-- numbers, and a median is kept doubled, so that the mean of two is exact; ratios are compared by products.
pub mod Verdicts
use localbench.Base.{
  join_with, ℕ, suc, ◌+◌, ◌-◌, ◌*◌, ◌/◌, ◌%◌, min, max, String, Bool, true, false, not, ◌&&◌, ◌||◌,
  Option, none, some, List, [], ◌∷◌, ◌++◌, map, ◌==◌, any, all, sort, length, drop, leb, ltb, eqb,
  concat, if◌then◌else◌, is_some, holds, get, remove_suffix,
}
use localbench.Golden.Pins.{Pins, pin, omp_keys, tier_keys}
use localbench.Golden.Document.{tier_of}

abbrev pub drift_keys : List String
drift_keys = "omp_version" ∷ "omp_sha" ∷ []

abbrev is_among : List String → String → Bool
is_among names n = any (λ m. m == n) names

abbrev pub checked_keys : String → List String
checked_keys tier =
    let keys = tier_keys tier in if all (is_among keys) omp_keys then keys ++ drift_keys else keys

-- `str(p.get(k))`
abbrev pub shown : Option String → String
shown none = "None"
shown (some v) = v

-- `len(dict.fromkeys(…)) > 1`
abbrev pub differs : List String → Bool
differs [] = false
differs (v ∷ vs) = any (λ w. not (w == v)) vs

abbrev pub leg_values : List Pins → String → List String
leg_values legs k = map (λ p. shown (pin k p)) legs

abbrev drop_same : String → List String → List String
drop_same v [] = []
drop_same v (w ∷ ws) = let rest = drop_same v ws in if w == v then rest else w ∷ rest

-- `list(dict.fromkeys(values))`
abbrev distinct : List String → List String
distinct [] = []
distinct (v ∷ vs) = v ∷ drop_same v (distinct vs)

abbrev pub first_drift : String → List Pins → List String → Option String
first_drift arm legs [] = none
first_drift arm legs (k ∷ ks) =
    let later = first_drift arm legs ks in
    if differs (leg_values legs k)
    then some (
        concat (
          "arm "
          ∷ arm
          ∷ " legs ran different "
          ∷ k
          ∷ ": "
          ∷ join_with " / " (distinct (leg_values legs k))
          ∷ []))
    else later

-- Why the legs of one arm are not one configuration for the tier; the first key counts.
unfoldable pub tier_drift : List Pins → List Pins → String → Option String
tier_drift a_pins b_pins tier = elim (first_drift "A" a_pins (checked_keys tier)) [
  | some reason ↦ some reason
  | none ↦ first_drift "B" b_pins (checked_keys tier)
]

unfoldable pub arm_pin_drift : List Pins → List Pins → List String → List (String × String)
unfolding tier_drift
arm_pin_drift a_pins b_pins [] = []
arm_pin_drift a_pins b_pins (tier ∷ tiers) =
    let rest = arm_pin_drift a_pins b_pins tiers in
    elim (tier_drift a_pins b_pins tier) [ none ↦ rest | some reason ↦ (tier, reason) ∷ rest ]

abbrev nth : ℕ → List ℕ → ℕ
nth n xs = elim (drop n xs) [ [] ↦ 0 | x ∷ rest ↦ x ]

-- Twice the median of a list that is not empty.
unfoldable pub double_median : List ℕ → ℕ
double_median xs =
    let sorted = sort leb xs in
    let middle = length xs / 2 in
    if eqb (length xs % 2) 1
    then nth middle sorted + nth middle sorted
    else nth (middle - 1) sorted + nth middle sorted

abbrev pub least : ℕ → List ℕ → ℕ
least x [] = x
least x (y ∷ ys) = least (min x y) ys

abbrev pub greatest : ℕ → List ℕ → ℕ
greatest x [] = x
greatest x (y ∷ ys) = greatest (max x y) ys

-- `max(xs) - min(xs)`
abbrev pub range : List ℕ → ℕ
range [] = 0
range (x ∷ xs) = greatest x xs - least x xs

-- Percentages in thousandths.
abbrev pub load_tol_pct : ℕ
load_tol_pct = 5_000

abbrev pub all_given : List (Option ℕ) → Option (List ℕ)
all_given [] = some []
all_given (none ∷ xs) = none
all_given (some x ∷ xs) =
    let rest = all_given xs in elim rest [ none ↦ none | some ys ↦ some (x ∷ ys) ]

abbrev favoured : List ℕ → List ℕ → Option String
favoured (a ∷ as_rest) (b ∷ bs) =
    let middle = double_median (b ∷ bs) in
    if ltb (middle + 2 * load_tol_pct) (2 * least a as_rest)
    then some "B"
    else if ltb (2 * (greatest a as_rest + load_tol_pct)) middle
    then some "A"
    else none
favoured _ _ = none

-- The arm that the CPU load favoured, if all legs recorded it.
unfoldable pub load_favours : List (Option ℕ) → List (Option ℕ) → Option String
unfolding double_median
load_favours a_busy b_busy = elim (all_given a_busy) [
  | none ↦ none
  | some a ↦ elim (all_given b_busy) [ none ↦ none | some b ↦ favoured a b ]
]

-- A leg's metric: a value, none, or void with a reason.
pub record Cell : Type 0 where
  pub value : Option ℕ
  pub void : Option String

abbrev pub is_void : Cell → Bool
is_void c = is_some c.void || not (is_some c.value)

-- In ten-thousandths.
abbrev pub tol_floor : String → ℕ
tol_floor better = if better == "higher" then 500 else 1000

abbrev distance : ℕ → ℕ → ℕ
distance a b = if leb a b then b - a else a - b

-- |b/a - 1| <= max(3 * max(aa_rel, bb_rel), floor), for doubled medians and a > 0.
abbrev within_band : ℕ → ℕ → List ℕ → List ℕ → String → Bool
within_band a b a_values b_values better =
    let gap = distance a b in
    leb gap (3 * (2 * range a_values))
    || ltb 1 (length b_values) && ltb 0 b && leb (gap * b) (3 * (2 * range b_values) * a)
    || leb (gap * 10_000) (tol_floor better * a)

-- A ratio over a zero median is infinite, unless both are zero.
abbrev pub raw_verdict : ℕ → ℕ → List ℕ → List ℕ → String → String
raw_verdict a b a_values b_values better =
    let noise = if eqb a 0 then eqb b 0 else within_band a b a_values b_values better in
    if noise
    then "WITHIN-NOISE"
    else if ltb a b
    then if better == "higher" then "B-BETTER" else "B-WORSE"
    else if better == "higher"
    then "B-WORSE"
    else "B-BETTER"

abbrev pub withheld_verdict : Option String → Option String
withheld_verdict favours =
    if holds favours "B"
    then some "B-BETTER"
    else if holds favours "A"
    then some "B-WORSE"
    else none

abbrev ends_with : String → String → Bool
ends_with suffix key = not (remove_suffix suffix key == key)

abbrev pub is_time_key : String → Bool
is_time_key key = ends_with "_s" key || ends_with "_tps" key

abbrev pub load_verdict : String → Option String → String → String
load_verdict key favours verdict =
    if holds (withheld_verdict favours) verdict && is_time_key key then "LOAD-FAVOURED" else verdict

abbrev pub measured_verdict :
    String → String → Option String → Option (List ℕ) → Option (List ℕ) → String
measured_verdict key better favours (some a) (some b) =
    load_verdict key favours (raw_verdict (double_median a) (double_median b) a b better)
measured_verdict key better favours _ _ = "VOID"

abbrev pub values_of : List Cell → Option (List ℕ)
values_of cells = all_given (map (λ c. c.value) cells)

-- The verdict of one metric over the legs of both arms.
unfoldable pub ab_verdict :
    List (String × String) → Option String → String → String → List Cell → List Cell → String
unfolding double_median
ab_verdict void_tiers favours key better a_cells b_cells =
    if is_some (get (tier_of key) void_tiers) || any is_void (a_cells ++ b_cells)
    then "VOID"
    else measured_verdict key better favours (values_of a_cells) (values_of b_cells)

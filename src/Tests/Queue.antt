-- ===== src/Tests/Queue.antt =====
-- The proof queue of localbench/proofqueue.py and the A/B legs of localbench/golden.py: runs, and the
-- theorems at concrete inputs.
use localbench.Base.{
  ℕ, zero, suc, String, Bool, true, false, none, some, List, [], ◌∷◌, ◌≡◌, refl, split_on,
  partition, strip, strip_prefix,
}
use localbench.ProofQueue.Marker.{Item, Bead, short, parse_marker}
use localbench.ProofQueue.Planned.{Action, create, noop, plan_unit, adopted}
use localbench.ProofQueue.Applied.{apply, apply_each, err}
use localbench.ProofQueue.Fits.{fits}
use localbench.ProofQueue.Chosen.{plan_unit-fits}
use localbench.Golden.Pins.{Pins, tier_keys}
use localbench.Golden.Document.{tier_of}
use localbench.Golden.Arms.{Cell, tier_drift, arm_pin_drift, ab_verdict, double_median}

abbrev item : String → Item
item status = record {
  feature = "title";
  route = "qwen";
  status = status;
  reason = "no  receipt ";
  receipt = none;
  row = record { proof_suite = "decision"; route_kind = "chat" };
  detail = [];
}

abbrev filed : Bead
filed = record {
  id = "b1";
  title = "prove title on qwen";
  description = "prove title on qwen\nproof-trigger status=STALE | no receipt";
  comments = none;
}

marker_run : parse_marker filed.description ≡ some ("STALE", "no receipt")
unfolding parse_marker split_on strip_prefix partition strip
marker_run = refl

noop_run : plan_unit (filed ∷ []) (item "STALE") ≡ some (noop "prove title on qwen")
unfolding plan_unit adopted short parse_marker split_on strip_prefix partition strip
noop_run = refl

plan_unit-fits_example :
    fits (filed ∷ []) (item "PROVEN") (plan_unit (filed ∷ []) (item "PROVEN")) ≡ true
plan_unit-fits_example = plan_unit-fits (filed ∷ []) (item "PROVEN")

-- Each call is logged, and only the first succeeds.
abbrev br : List String → ℕ → Bool × ℕ
br argv zero = (true, 1)
br argv (suc n) = (false, suc (suc n))

abbrev actions : List Action
actions = create "t" "b" ∷ create "u" "b" ∷ noop "v" ∷ []

apply_run : apply br actions 0 ≡ (err ("u" ∷ []), 2)
unfolding apply apply_each
apply_run = refl

abbrev leg : String → Pins
leg sha = ("omp_sha", some sha) ∷ []

drift_run :
    arm_pin_drift (leg "1" ∷ leg "2" ∷ []) (leg "1" ∷ []) ("micro" ∷ "e2e" ∷ [])
    ≡ ("e2e", "arm A legs ran different omp_sha: 1 / 2") ∷ []
unfolding arm_pin_drift tier_drift tier_keys
drift_run = refl

abbrev cell : ℕ → Cell
cell n = record { value = some n; void = none }

better_run :
    ab_verdict [] none "micro.decode_tps" "higher" (cell 100 ∷ cell 101 ∷ []) (cell 120 ∷ [])
    ≡ "B-BETTER"
unfolding ab_verdict double_median tier_of
better_run = refl

abbrev slower : String
slower =
    ab_verdict [] (some "B") "micro.decode_tps" "higher" (cell 100 ∷ cell 101 ∷ []) (cell 120 ∷ [])

abbrev even : String
even = ab_verdict [] none "micro.decode_tps" "higher" (cell 100 ∷ cell 101 ∷ []) (cell 120 ∷ [])

-- ===== src/Gateway/Policy.antt =====
-- `GatewayPolicy.expire_due` of localbench/gateway.py: each due lease is claimed, then unloaded if no
-- external client uses the model, and the outcome is recorded in the ledger.
pub mod Sweep
pub mod Settled
use localbench.Base.{
  ℕ, String, Bool, true, false, Option, none, some, List, [], ◌∷◌, ◌==◌, any, if◌then◌else◌,
  or_text,
}
use localbench.Gateway.Store.{Store}
use localbench.Gateway.Residency.{claim_due, mark_result}

-- What the outside answers: `none` where the call raises. A call changes the outside world `W`.
pub record Backend (W : Type 0) : Type 0 where
  pub external_check : String → W → Option (Option Bool × Option String) × W
  pub resident_models : W → Option (List String) × W
  pub unload : String → W → Bool × W

pub record Outcome : Type 0 where
  pub model : String
  pub outcome : String
  pub reason : Option String

-- The recorded outcome of one lease, with the detail that goes to the ledger.
abbrev pub Verdict : Type 0
Verdict = String × Option String

abbrev pub contains : String → List String → Bool
contains m models = any (λ r. r == m) models

-- `safe is not True`; a probe that raises is unsafe.
abbrev pub unsafe_reason : Option (Option Bool × Option String) → Option String
unsafe_reason none = some "external-client activity probe failed"
unsafe_reason (some (some true, reason)) = none
unsafe_reason (some (_, none)) = some "external-client activity is unknown"
unsafe_reason (some (_, some reason)) = some (or_text reason "external-client activity is unknown")

-- After the unload the residents are read back.
abbrev pub readback : String → Option (List String) → Verdict
readback model none = (
  "verification_failed",
  some "Ollama /api/ps readback failed after unload; residency is unknown",
)
readback model (some after) =
    if contains model after
    then ("verification_failed", some "Ollama still reports the model resident after unload")
    else ("unloaded_confirmed", none)

module _ {W : Type 0} (b : Backend W) (model : String) where
  abbrev pub after_unload : Bool → W → Verdict × W
  after_unload false w =
      (("unload_failed", some "Ollama rejected or did not complete the unload request"), w)
  after_unload true w = let (after, w') = b.resident_models w in (readback model after, w')

  abbrev pub unload_model : W → Verdict × W
  unload_model w = let (done, w') = b.unload model w in after_unload done w'

  abbrev pub after_listing : Option (List String) → W → Verdict × W
  after_listing none w =
      (("deferred", some "Ollama resident state is unavailable; unload deferred"), w)
  after_listing (some residents) w =
      if contains model residents then unload_model w else (("not_resident_confirmed", none), w)

  abbrev pub after_probe : Option String → W → Verdict × W
  after_probe (some detail) w = (("deferred", some detail), w)
  after_probe none w = let (residents, w') = b.resident_models w in after_listing residents w'

  -- The body of the loop.
  unfoldable pub expire_one : W → Verdict × W
  expire_one w = let (check, w') = b.external_check model w in after_probe (unsafe_reason check) w'

module _ {W : Type 0} (b : Backend W) where
  unfoldable pub expire_each : ℕ → List String → Store → W → List Outcome × Store × W
  expire_each now [] s w = ([], s, w)
  expire_each now (model ∷ models) s w =
      let ((outcome, detail), w') = expire_one b model w in
      let (rest, t, w'') = expire_each now models (mark_result model outcome detail now s) w' in
      (record { model = model; outcome = outcome; reason = detail } ∷ rest, t, w'')

  unfoldable pub expire_due : ℕ → Store → W → List Outcome × Store × W
  unfolding expire_each
  expire_due now s w = let (claimed, t) = claim_due now s in expire_each now claimed t w

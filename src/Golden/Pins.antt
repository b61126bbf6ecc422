-- ===== src/Golden/Pins.antt =====
-- The pins of localbench/golden.py: which of them a tier depends on, which of them a golden recorded, and
-- which moved. A value is a text; a key that is absent reads as None.
use localbench.Base.{
  String, Bool, true, false, not, ◌||◌, Option, none, some, List, [], ◌∷◌, ◌++◌, map, ◌==◌, select,
  if◌then◌else◌, is_some, holds, get, put, set_default, merged, tabulate,
}

abbrev pub Pins : Type 0
Pins = List (String × Option String)

abbrev pub joined : Option (Option String) → Option String
joined none = none
joined (some v) = v

-- `pins.get(k)`
abbrev pub pin : String → Pins → Option String
pin k pins = joined (get k pins)

abbrev pub backend_keys : List String
backend_keys =
    "host_id" ∷ "backend" ∷ "backend_version" ∷ "backend_sha" ∷ "backend_args" ∷ "model"
    ∷ "model_digest" ∷ "macos_build" ∷ []

abbrev pub omp_keys : List String
omp_keys = "omp_child_config" ∷ "omp_agent_config" ∷ []

abbrev pub pin_keys : List String
pin_keys = backend_keys ++ omp_keys ++ "fixtures_sha" ∷ "omp_mem_config" ∷ "omp_mem_tools" ∷ []

abbrev pub splash_keys : List String
splash_keys = "splash_version" ∷ "splash_sha" ∷ []

abbrev is_omp_tier : String → Bool
is_omp_tier tier = tier == "e2e" || tier == "rel" || tier == "relcold" || tier == "relfresh"

unfoldable pub tier_keys : String → List String
tier_keys tier =
    if tier == "mem"
    then backend_keys ++ omp_keys ++ "omp_mem_config" ∷ "omp_mem_tools" ∷ []
    else if tier == "sess"
    then backend_keys ++ omp_keys ++ "omp_mem_config" ∷ []
    else if is_omp_tier tier
    then backend_keys ++ omp_keys
    else if tier == "replay"
    then backend_keys ++ "fixtures_sha" ∷ []
    else backend_keys

-- A golden of before the key existed was launched without server flags.
unfoldable pub with_pin_defaults : Pins → Pins
with_pin_defaults pins =
    if is_some (pin "backend_args" pins) then pins else put "backend_args" (some "") pins

-- The pins of a golden: its block, and the blocks by tier.
pub record GoldenPins : Type 0 where
  pub pins : Pins
  pub tier_pins : List (String × Pins)

abbrev pub is_splash : Pins → Bool
is_splash pins = holds (pin "backend" pins) "splash"

-- `{k: pins.get(k) for k in keys}`
abbrev pub block_of : List String → Pins → Pins
block_of keys pins = tabulate (λ k. pin k pins) keys

abbrev pub recorded_pins : GoldenPins → String → Option Pins → Pins
recorded_pins g tier none = with_pin_defaults (block_of (tier_keys tier) g.pins)
recorded_pins g tier (some recorded) = with_pin_defaults recorded

-- `recorded or g["pins"]`: an empty dict counts as none.
abbrev pub splash_source : GoldenPins → Option Pins → Pins
splash_source g none = g.pins
splash_source g (some []) = g.pins
splash_source g (some (e ∷ es)) = e ∷ es

abbrev pub default_each : Pins → List String → Pins → Pins
default_each source [] out = out
default_each source (k ∷ ks) out = default_each source ks (set_default k (pin k source) out)

unfoldable pub golden_tier_pins : GoldenPins → String → Pins
unfolding with_pin_defaults tier_keys
golden_tier_pins g tier =
    let recorded = get tier g.tier_pins in
    let out = recorded_pins g tier recorded in
    if is_splash g.pins then default_each (splash_source g recorded) splash_keys out else out

abbrev pub same_pin : Option String → Option String → Bool
same_pin none none = true
same_pin (some a) (some b) = a == b
same_pin _ _ = false

abbrev pub Difference : Type 0
Difference = String × Option String × Option String

-- A pin that the golden never recorded counts as moved.
abbrev pub has_moved : Pins → Pins → String → Bool
has_moved golden pins k = not (is_some (pin k golden)) || not (same_pin (pin k golden) (pin k pins))

abbrev pub compared_keys : GoldenPins → String → Pins → List String
compared_keys g tier pins =
    if is_splash g.pins || is_splash pins then tier_keys tier ++ splash_keys else tier_keys tier

abbrev pub difference : Pins → Pins → String → Difference
difference golden pins k = (k, pin k golden, pin k pins)

unfoldable pub tier_diff : GoldenPins → String → Pins → List Difference
unfolding golden_tier_pins tier_keys
tier_diff g tier pins =
    let golden = golden_tier_pins g tier in
    map (difference golden pins) (select (has_moved golden pins) (compared_keys g tier pins))

-- Without the rule on unrecorded pins.
unfoldable pub pin_diff : Pins → Pins → List String → List Difference
pin_diff golden pins keys =
    map (difference golden pins) (select (λ k. not (same_pin (pin k golden) (pin k pins))) keys)

unfoldable pub attach_splash : Pins → String → Bool → Pins → Pins
attach_splash pins backend resident splash =
    if backend == "splash" || resident then merged pins (block_of splash_keys splash) else pins

-- The pins written into a golden, for a tier or for its block.
abbrev pub stored_keys : Option String → List String
stored_keys none = pin_keys
stored_keys (some tier) = tier_keys tier

unfoldable pub stored_pin_block : Pins → Option String → Pins
unfolding tier_keys
stored_pin_block pins tier =
    let block = block_of (stored_keys tier) pins in
    if is_splash pins then merged block (block_of splash_keys pins) else block

-- The pins of a golden that `from_aa` builds.
abbrev tier_blocks : Pins → List String → List (String × Pins)
tier_blocks pins tiers = tabulate (λ t. stored_pin_block pins (some t)) tiers

unfoldable pub banked_pins : Pins → List String → GoldenPins
unfolding stored_pin_block
banked_pins pins tiers = record {
  pins = stored_pin_block pins none;
  tier_pins = tier_blocks pins tiers;
}

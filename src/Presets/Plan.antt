-- ===== src/Presets/Plan.antt =====
-- `plan` of localbench/presets.py. The grades of the features
-- (`proof_statuses`) and the running sessions are parameters.
pub mod Folded
use Prim.Native.Char.{code}
use mathlib.Core.Option
use Prim.Native.String
use localbench.Base.{
  ℕ, String, Bool, true, false, not, ◌&&◌, ◌||◌, Option, none, some, List, [], ◌∷◌, ◌++◌, map, ◌==◌,
  all, any, find, select, leb, eqb, if◌then◌else◌, all_codes, concat, get, put, is_some,
}
use localbench.Presets.Values.{
  Value, value_eq, Op, set_key, role, list_add, list_remove, provider, Expect, fold, expect,
}
use localbench.Presets.Block.{provider_block, managed, models_text}
use localbench.Presets.Registry.{
  Preset, Registry, is_in, is_nonempty, distinct, check, find_preset, family,
}
use localbench.Presets.Host.{
  Failure, bad_target, repeated_profiles, unknown_preset, bad_preset, duplicate_names, no_config,
  type_error, refused, unproven_family, not_test, Result, err, ok, ◌>>=◌, ◌>>◌, raise_if, Host,
  Files, agent_file, path, is_file, read_text,
}

pub data Target : Type 0 where
  test live other_target : Target

pub data Change : Type 0 where
  setting : Value → Value → Change
  provider_change : Option String → Option String → Change

pub record Step : Type 0 where
  pub profile : String
  pub key : String
  pub change : Change
  pub changed : Bool
  pub expected : List Expect

pub record Kept : Type 0 where
  pub pid : ℕ
  pub profile : String
  pub key : String

pub record Plan : Type 0 where
  pub preset : String
  pub target : Target
  pub profiles : List String
  pub forced : Option Failure
  pub refusal : Option Failure
  pub steps : List Step
  pub keeps_old : List Kept

abbrev gateway_url : String → String
gateway_url profile = String.◌++◌ "http://127.0.0.1:11300/omp-profile/" profile

-- `op.get("key", "modelRoles")`
abbrev key_of : Op → String
key_of (set_key key v) = key
key_of (list_add key item) = key
key_of (list_remove key item) = key
key_of op = "modelRoles"

abbrev is_provider : Op → Bool
is_provider (provider model) = true
is_provider op = false

abbrev or_empty : Option (List Op) → List Op
or_empty none = []
or_empty (some ops) = ops

-- `keys.setdefault(op.get("key", "modelRoles"), []).append(op)`, for each op
unfoldable pub grouped : List Op → List (String × List Op) → List (String × List Op)
grouped [] keys = keys
grouped (op ∷ ops) keys = grouped ops (
    if is_provider op
    then keys
    else put (key_of op) (or_empty (get (key_of op) keys) ++ op ∷ []) keys)

unfoldable pub fold_all : List Op → Value → Option Value
unfolding fold
fold_all [] value = some value
fold_all (op ∷ ops) value = elim (fold op value) [ none ↦ none | some next ↦ fold_all ops next ]

abbrev set_step : String → String → List Op → Value → Option Value → Result Step
set_step profile key ops before none = err type_error
set_step profile key ops before (some after) = ok (record {
  profile = profile;
  key = key;
  change = setting before after;
  changed = not (value_eq after before);
  expected = map expect ops;
})

abbrev joined : Result (List Step) → (Unit {0} → Result (List Step)) → Result (List Step)
joined first rest = first >>= λ steps. rest tt >>= λ more. ok (steps ++ more)

module _ (h : Host) (files : Files) where
  -- The step of a provider op.
  unfoldable pub provider_step : String → Option String → Result Step
  unfolding path
  provider_step profile model = do
    place ← path h profile "models.yml"
    let current = read_text (files place)
    let added = Option.map (provider_block (gateway_url profile)) model
    new ← models_text current added
    before ← managed current
    ok (record {
      profile = profile;
      key = "providers.localbench-sys1";
      change = provider_change before added;
      changed = not (new == current);
      expected = Expect.block added ∷ [];
    })

  unfoldable pub provider_steps : String → List Op → Result (List Step)
  provider_steps profile [] = ok []
  provider_steps profile (provider model ∷ ops) = do
    s ← provider_step profile model
    more ← provider_steps profile ops
    ok (s ∷ more)
  provider_steps profile (set_key key v ∷ ops) = provider_steps profile ops
  provider_steps profile (role r selector ∷ ops) = provider_steps profile ops
  provider_steps profile (list_add key item ∷ ops) = provider_steps profile ops
  provider_steps profile (list_remove key item ∷ ops) = provider_steps profile ops

  unfoldable pub set_steps : String → List (String × List Op) → Result (List Step)
  unfolding fold_all expect
  set_steps profile [] = ok []
  set_steps profile ((key, ops) ∷ keys) = do
    before ← Host.omp_get h profile key files
    s ← set_step profile key ops before (fold_all ops before)
    more ← set_steps profile keys
    ok (s ∷ more)

  unfoldable pub steps_of : List Op → List String → Result (List Step)
  unfolding provider_steps set_steps grouped
  steps_of ops [] = ok []
  steps_of ops (profile ∷ profiles) =
      joined (joined (provider_steps profile ops) (λ _. set_steps profile (grouped ops [])))
        (λ _. steps_of ops profiles)

  -- The profiles without a config.yml.
  unfoldable pub missing : List String → Result (List String)
  unfolding path
  missing [] = ok []
  missing (profile ∷ profiles) = do
    place ← path h profile "config.yml"
    more ← missing profiles
    ok (if is_file (files place) then more else profile ∷ more)

abbrev raise_nonempty : List String → (List String → Failure) → Result (Unit {0})
raise_nonempty [] f = ok tt
raise_nonempty xs f = err (f xs)

abbrev is_known : Target → Bool
is_known other_target = false
is_known t = true

-- The refusal of the test target.
abbrev outside : Target → List String → List String → Option Failure
outside test profiles allowed = elim (select (λ p. not (is_in p allowed)) profiles) [
  | [] ↦ none
  | p ∷ ps ↦ some (not_test (p ∷ ps))
]
outside t profiles allowed = none

-- A grade: the feature and the profile, and whether it is PROVEN.
abbrev pub Grades : Type 0
Grades = List ((String × String) × Bool)

abbrev unproven : Grades → List (String × String)
unproven grades = map (λ g. g.0) (select (λ g. not g.1) grades)

-- The refusal of the proof gate.
unfoldable pub proof_refusal : String → Grades → Option Failure
proof_refusal fam [] = some (unproven_family fam)
proof_refusal fam grades = elim (unproven grades) [ [] ↦ none | g ∷ gs ↦ some (refused (g ∷ gs)) ]

abbrev is_gated : Target → Preset → Bool
is_gated live p = p.is_local
is_gated t p = false

abbrev is_setting : Step → Bool
is_setting s = elim s.change [
  | setting before after ↦ s.changed
  | provider_change before after ↦ false
]

abbrev keeps : List Step → ℕ × String → List Kept
keeps steps (pid, profile) =
    if any (λ s. s.profile == profile && s.key == "defaultThinkingLevel" && is_setting s) steps
    then record { pid = pid; profile = profile; key = "defaultThinkingLevel" } ∷ []
    else []

unfoldable pub keeps_old : List Step → List (ℕ × String) → List Kept
keeps_old steps [] = []
keeps_old steps (s ∷ sessions) = keeps steps s ++ keeps_old steps sessions

-- The refusal and the forced one.
abbrev gate : Bool → Option Failure → Option Failure × Option Failure
gate true (some f) = (none, some f)
gate force r = (r, none)

abbrev gates :
    Target → Preset → List String → Registry → Grades → Bool → Option Failure × Option Failure
gates target p profiles r graded force =
    if is_gated target p
    then gate force (proof_refusal (family p.name) graded)
    else (outside target profiles r.test_profiles, none)

module _ (h : Host) (grades : List Step → Grades) (sessions : List (ℕ × String)) where
  unfoldable pub plan : Registry → String → List String → Target → Bool → Files → Result Plan
  unfolding find_preset missing steps_of family proof_refusal
  plan r name profiles target force files = do
    raise_if (not (is_known target)) bad_target
    raise_if (not (is_nonempty profiles && distinct profiles)) repeated_profiles
    p ← find_preset name r
    absent ← missing h files profiles
    raise_nonempty absent no_config
    steps ← steps_of h files p.ops profiles
    let (refusal, forced) = gates target p profiles r (grades steps) force
    ok (record {
      preset = name;
      target = target;
      profiles = profiles;
      forced = forced;
      refusal = refusal;
      steps = steps;
      keeps_old = keeps_old steps sessions;
    })

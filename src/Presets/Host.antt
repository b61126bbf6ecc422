-- ===== src/Presets/Host.antt =====
-- What localbench/presets.py works on: the agent files of the profiles and the backups, the paths it may touch
-- (`_agent_dir`, `_path`), and omp. The bytes of a file are a text; a link that leads nowhere is no file.
use mathlib.Core.Logic.{◌↔◌}
use localbench.Base.{
  is_alnum, starts_alnum, ℕ, String, Bool, true, false, not, ◌&&◌, ◌||◌, Option, none, some, List,
  [], ◌∷◌, ◌==◌, ◌≡◌, arith, eqb, if◌then◌else◌, all_codes, strip_prefix, is_some, concat, eq_iff,
}
use localbench.Presets.Values.{Value}

pub data Failure : Type 0 where
  invalid_profile : String → Failure
  outside_omp : String → Failure
  bad_target : Failure
  repeated_profiles : Failure
  unknown_preset : String → Failure
  bad_preset : String → Failure
  duplicate_names : Failure
  no_config : List String → Failure
  damaged_block foreign_provider inline_providers : Failure
  is_link : String → String → Failure
  foreign_entry bad_backup not_restored : String → String → Failure
  changed_since_plan : String → Failure
  mismatch : List (String × String) → Failure
  omp_failed : String → Failure
  type_error os_error : Failure
  refused : List (String × String) → Failure
  unproven_family : String → Failure
  not_test : List String → Failure
  bad_id no_rollback wrong_status : String → Failure
  changed_since_apply : List (String × String) → Failure
  restored_after restore_failed : Failure → Failure

pub data Result {ℓ} (A : Type ℓ) : Type ℓ where
  err : Failure → Result A
  ok : A → Result A

infixl 5 ◌>>=◌ ◌>>◌
abbrev pub ◌>>=◌ {ℓ κ} : {A : Type ℓ} {B : Type κ} → Result A → (A → Result B) → Result B
err failed >>= rest = err failed
ok a >>= rest = rest a

abbrev pub ◌>>◌ {ℓ} : {B : Type ℓ} → Result (Unit {0}) → Result B → Result B
check >> rest = check >>= λ _. rest

abbrev pub raise_if : Bool → Failure → Result (Unit {0})
raise_if true failed = err failed
raise_if false failed = ok tt

-- A file of a profile's agent directory, or one of a backup directory.
pub data Place : Type 0 where
  agent_file : String → String → Place
  backup_file : String → String → String → Place

abbrev pub same : Place → Place → Bool
same (agent_file p n) (agent_file q m) = p == q && n == m
same (backup_file i p n) (backup_file j q m) = i == j && (p == q && n == m)
same p q = false

pub same_iff : (p q : Place) → (same p q ≡ true) ↔ (p ≡ q)
same_iff (agent_file p n) (agent_file q m) = grind (arith, eq_iff p q, eq_iff n m)
same_iff (backup_file i p n) (backup_file j q m) = grind (arith, eq_iff i j, eq_iff p q, eq_iff n m)
same_iff (agent_file p n) (backup_file j q m) = grind arith
same_iff (backup_file i p n) (agent_file q m) = grind arith

pub record File : Type 0 where
  pub bytes : String
  pub mode : ℕ
  pub symlink : Bool

abbrev pub Files : Type 0
Files = Place → Option File

abbrev pub store : Place → Option File → Files → Files
store p f files q = if same p q then f else files q

abbrev pub is_file : Option File → Bool
is_file f = is_some f

abbrev pub bytes_of : Option File → Option String
bytes_of none = none
bytes_of (some f) = some f.bytes

-- `_read_text`
abbrev pub read_text : Option File → String
read_text none = ""
read_text (some f) = f.bytes

-- The operating system and omp: the home directory, `Path.resolve`, which places can be written, and the two calls
-- of `omp config`. A call that fails may have written before.
pub record Host : Type 0 where
  pub home : String
  pub resolve : String → String
  pub writable : Place → Bool
  pub omp_get : String → String → Files → Result Value
  pub omp_set : String → String → Value → Files → Option Failure × Files

abbrev is_profile_char : ℕ → Bool
is_profile_char n = is_alnum n || eqb n 46 || eqb n 95 || eqb n 45

unfoldable pub has_dots : String → Bool
unfolding strip_prefix
has_dots String.[] = false
has_dots (String.◌∷◌ c rest) = is_some (strip_prefix ".." (String.◌∷◌ c rest)) || has_dots rest

-- `_PROFILE.fullmatch(profile) and ".." not in profile`
unfoldable pub is_profile_name : String → Bool
unfolding all_codes has_dots
is_profile_name profile =
    starts_alnum profile && all_codes is_profile_char profile && not (has_dots profile)

abbrev pub agent_under : String → String → String
agent_under omp profile =
    if profile == "default"
    then concat (omp ∷ "/agent" ∷ [])
    else concat (omp ∷ "/profiles/" ∷ profile ∷ "/agent" ∷ [])

module _ (h : Host) where
  open h use {home, resolve}

  -- `_agent_dir`
  unfoldable pub agent_dir : String → Result (Unit {0})
  unfolding is_profile_name
  agent_dir profile = do
    raise_if (not (is_profile_name profile)) (invalid_profile profile)
    let omp = concat (home ∷ "/.omp" ∷ [])
    raise_if (not (resolve (agent_under omp profile) == agent_under (resolve omp) profile))
        (outside_omp profile)

  -- `_path`
  unfoldable pub path : String → String → Result Place
  unfolding agent_dir
  path profile name = agent_dir profile >> ok (agent_file profile name)

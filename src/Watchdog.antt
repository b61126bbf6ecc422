-- ===== src/Watchdog.antt =====
-- The run watchdog of localbench/watchdog.py, with `classify` and `foreign_models` of
-- localbench/sysstats.py. A violation is a constructor where the code formats a text.
pub mod Closed
use localbench.Base.{
  ℕ, String, Bool, true, false, not, ◌&&◌, ◌||◌, Option, none, some, List, [], ◌∷◌, ◌++◌, ◌==◌, any,
  select, map, ltb, if◌then◌else◌, is_some, get,
}

-- The models of each server; `none` where the server did not answer.
abbrev pub Resident : Type 0
Resident = List (String × Option (List String))

pub record GpuProc : Type 0 where
  pub pid : ℕ
  pub name : String
  pub cmd : String
  pub pct : ℕ

-- `gpu_procs` of a sample: no list, a list with a row that `classify` cannot read, or rows.
pub data GpuState : Type 0 where
  absent malformed : GpuState
  rows : List GpuProc → GpuState

pub record Sample : Type 0 where
  pub resident : Option Resident
  pub gpu_procs : GpuState

pub data Violation : Type 0 where
  residency_unknown gpu_client_state_unknown omp_sha_unavailable : Violation
  residency_unknown_of : String → Violation
  expected_model_not_resident : String → Violation
  foreign_resident : Resident → Violation
  foreign_gpu_client : List GpuProc → Violation
  omp_sha_changed : String → String → Violation

pub record Target : Type 0 where
  pub backend : String
  pub models : List String

-- `__init__`: `none` where it raises, for a target without a backend and a model or without a pinned sha.
unfoldable pub run_watchdog : List String → String → Option Target
run_watchdog (backend ∷ model ∷ models) expected_omp_sha =
    if expected_omp_sha == ""
    then none
    else some (record { backend = backend; models = model ∷ models })
run_watchdog _ expected_omp_sha = none

abbrev pub is_among : List String → String → Bool
is_among names n = any (λ m. m == n) names

abbrev others : List String → List String → List String
others ours names = select (λ n. not (is_among ours n)) names

-- Everything resident outside the declared models, by server.
unfoldable pub foreign_models : List String → Resident → Resident
foreign_models ours [] = []
foreign_models ours ((server, none) ∷ rest) = foreign_models ours rest
foreign_models ours ((server, some names) ∷ rest) =
    let later = foreign_models ours rest in
    if any (λ n. not (is_among ours n)) names
    then (server, some (others ours names)) ∷ later
    else later

abbrev expected : List String → List String → List Violation
expected server_models models =
    map expected_model_not_resident (select (λ m. not (is_among server_models m)) models)

abbrev pub server_violations : Target → Option (Option (List String)) → List Violation
server_violations t (some (some server_models)) = expected server_models t.models
server_violations t _ = residency_unknown_of t.backend ∷ []

abbrev pub has_unknown : Resident → Bool
has_unknown resident = any (λ e. not (is_some e.1)) resident

abbrev pub resident_violations : Target → Option Resident → List Violation
resident_violations t none = residency_unknown ∷ []
resident_violations t (some resident) =
    (if has_unknown resident then residency_unknown ∷ [] else [])
    ++ server_violations t (get t.backend resident)

abbrev pub foreign_violation : Resident → List Violation
foreign_violation [] = []
foreign_violation (e ∷ es) = foreign_resident (e ∷ es) ∷ []

abbrev pub client_violation : List GpuProc → List Violation
client_violation [] = []
client_violation (r ∷ rs) = foreign_gpu_client (r ∷ rs) ∷ []

abbrev pub sha_violations : String → Option String → List Violation
sha_violations wanted none = omp_sha_unavailable ∷ []
sha_violations wanted (some current) =
    if current == wanted then [] else omp_sha_changed wanted current ∷ []

-- `is_ours` is `gpu_is_ours` for the target, and `is_inference` is the test of that name: both look for
-- the names of servers in a process's command line.
module _ (is_ours is_inference : GpuProc → Bool) where
  abbrev pub is_foreign_client : ℕ → GpuProc → Bool
  is_foreign_client max_pct r = ltb max_pct r.pct && not (is_ours r) && is_inference r

  abbrev pub gpu_violations : Target → ℕ → Option Resident → GpuState → List Violation
  gpu_violations t max_pct (some resident) (rows procs) =
      foreign_violation (foreign_models t.models resident)
      ++ client_violation (select (is_foreign_client max_pct) procs)
  gpu_violations t max_pct _ _ = gpu_client_state_unknown ∷ []

  -- `current_sha` is `none` where it is missing or cannot be read.
  unfoldable pub violations : Target → String → ℕ → Option String → Sample → List Violation
  unfolding foreign_models
  violations t expected_omp_sha gpu_foreign_max_pct current_sha sample =
      resident_violations t sample.resident
      ++ gpu_violations t gpu_foreign_max_pct sample.resident sample.gpu_procs
      ++ sha_violations expected_omp_sha current_sha

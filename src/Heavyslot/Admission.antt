-- ===== src/Heavyslot/Admission.antt =====
-- `admission` of localbench/heavyslot.py: which readings of the machine let a heavy job start. A percentage
-- is a number of thousandths; a problem is a constructor where the code formats a text.
pub mod Closed
use localbench.Base.{
  ℕ, String, Bool, true, false, not, ◌&&◌, ◌||◌, Option, none, some, List, [], ◌∷◌, ◌++◌, ◌==◌, leb,
  ltb, if◌then◌else◌, holds,
}

abbrev pub cpu_busy_limit_pct : ℕ
cpu_busy_limit_pct = 80_000

abbrev pub gpu_limit_pct : ℕ
gpu_limit_pct = 80_000

-- `sysstats.GPU_IDLE_THRESHOLD_PCT`
abbrev pub gpu_idle_threshold_pct : ℕ
gpu_idle_threshold_pct = 5_000

-- What a sensor gives: a finite number that is not negative, or anything else (also an exception, a
-- Boolean, a text, NaN and an infinity).
pub data Sensed : Type 0 where
  number : ℕ → Sensed
  unreadable : Sensed

-- `0 <= pct <= 100`
abbrev pub pct_of : Sensed → Option ℕ
pct_of unreadable = none
pct_of (number n) = if leb n 100_000 then some n else none

abbrev pub number_of : Sensed → Option ℕ
number_of unreadable = none
number_of (number n) = some n

abbrev pub pressure_of : Option String → Option String
pressure_of none = none
pressure_of (some level) =
    if level == "normal" || level == "warn" || level == "critical" then some level else none

-- The window of the GPU sensor, where it gave a dict.
pub record GpuWindow : Type 0 where
  pub device_pct : Sensed
  pub process_pct : Sensed
  pub status : Option String
  pub coverage : Sensed

pub record Sensors : Type 0 where
  pub cpu : Sensed
  pub memory : Option String
  pub gpu : Option GpuWindow

pub record Readings : Type 0 where
  pub cpu_busy : Option ℕ
  pub mem_pressure : Option String
  pub gpu_pct : Option ℕ
  pub gpu_status : Option String
  pub gpu_process_pct : Option ℕ
  pub gpu_coverage : Option ℕ

-- The GPU fields of the readings; the sensor is skipped for a job that does not need the GPU.
abbrev gpu_readings : Bool → Option GpuWindow → Readings → Readings
gpu_readings false gpu r = record r { gpu_status = some "SKIPPED" }
gpu_readings true none r = r
gpu_readings true (some g) r = record r {
  gpu_pct = pct_of g.device_pct;
  gpu_status = g.status;
  gpu_process_pct = number_of g.process_pct;
  gpu_coverage = number_of g.coverage;
}

unfoldable pub readings : Bool → Sensors → Readings
readings check_gpu s = gpu_readings check_gpu s.gpu (record {
  cpu_busy = pct_of s.cpu;
  mem_pressure = pressure_of s.memory;
  gpu_pct = none;
  gpu_status = none;
  gpu_process_pct = none;
  gpu_coverage = none;
})

pub data Problem : Type 0 where
  cpu_unreadable memory_unreadable gpu_unreadable : Problem
  cpu_busy : ℕ → Problem
  memory_pressure : String → Problem
  gpu_idle_inconsistent gpu_unattributed gpu_unaligned gpu_coverage_low : Problem
  gpu_busy : ℕ → Problem

abbrev pub cpu_problems : Option ℕ → List Problem
cpu_problems none = cpu_unreadable ∷ []
cpu_problems (some busy) = if leb cpu_busy_limit_pct busy then cpu_busy busy ∷ [] else []

abbrev pub memory_problems : Option String → List Problem
memory_problems none = memory_unreadable ∷ []
memory_problems (some level) = if level == "normal" then [] else memory_pressure level ∷ []

-- `not isinstance(coverage, …) or coverage < 90`
abbrev pub is_low : Option ℕ → Bool
is_low none = true
is_low (some coverage) = ltb coverage 90_000

-- The statuses that are known.
abbrev pub known_problems : ℕ → String → ℕ → ℕ → Option ℕ → List Problem
known_problems idle_threshold status pct process_pct coverage =
    if status == "IDLE"
    then if leb idle_threshold pct || leb idle_threshold process_pct
      then gpu_idle_inconsistent ∷ []
      else []
    else if status == "UNATTRIBUTED"
    then gpu_unattributed ∷ []
    else if status == "UNALIGNED"
    then gpu_unaligned ∷ []
    else if not (status == "ATTRIBUTED")
    then gpu_unreadable ∷ []
    else if is_low coverage
    then gpu_coverage_low ∷ []
    else if leb gpu_limit_pct pct
    then gpu_busy pct ∷ []
    else []

abbrev pub gpu_problems : ℕ → Option ℕ → Option ℕ → Option String → Option ℕ → List Problem
gpu_problems idle_threshold (some pct) (some process_pct) (some status) coverage =
    known_problems idle_threshold status pct process_pct coverage
gpu_problems idle_threshold _ _ _ coverage = gpu_unreadable ∷ []

unfoldable pub problems_of : Bool → Readings → List Problem
problems_of check_gpu r =
    cpu_problems r.cpu_busy
    ++ memory_problems r.mem_pressure
    ++ (if check_gpu
        then gpu_problems gpu_idle_threshold_pct r.gpu_pct r.gpu_process_pct r.gpu_status
            r.gpu_coverage
        else [])

unfoldable pub admission : Bool → Sensors → Readings × List Problem
unfolding readings problems_of
admission check_gpu s = let r = readings check_gpu s in (r, problems_of check_gpu r)

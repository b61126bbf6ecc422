-- ===== src/Heavyslot/Admission/Closed.antt =====
-- The admission of localbench/heavyslot.py fails closed: what the sensors must show for a job to start.
use localbench.Base.{
  ℕ, String, Bool, true, false, not, ◌&&◌, ◌||◌, Option, none, some, List, [], ◌∷◌, ◌++◌, ◌==◌, leb,
  ltb, if◌then◌else◌, holds, ◌≡◌, refl, arith, Bool-cases, inl, inr, Option-cases, eq_iff,
}
use localbench.Heavyslot.Admission.{
  Sensed, number, unreadable, pct_of, number_of, pressure_of, GpuWindow, Sensors, readings, Problem,
  cpu_problems, memory_problems, is_low, known_problems, gpu_problems, problems_of, admission,
  cpu_busy_limit_pct, gpu_limit_pct, gpu_idle_threshold_pct,
}

abbrev pub is_empty : List Problem → Bool
is_empty [] = true
is_empty (p ∷ ps) = false

-- A sensed number within bounds.
abbrev pub below : ℕ → Sensed → Bool
below limit unreadable = false
below limit (number n) = ltb n limit

abbrev pub within : Sensed → Bool
within unreadable = false
within (number n) = leb n 100_000

abbrev pub covers : Sensed → Bool
covers unreadable = false
covers (number n) = leb 90_000 n

abbrev pub is_number : Sensed → Bool
is_number unreadable = false
is_number (number n) = true

-- The GPU is idle by both accounts, or its work is attributed to processes and leaves room.
abbrev pub gpu_free : ℕ → Option GpuWindow → Bool
gpu_free idle_threshold none = false
gpu_free idle_threshold (some g) =
    within g.device_pct
    && is_number g.process_pct
    && (holds g.status "IDLE"
          && below idle_threshold g.device_pct
          && below idle_threshold g.process_pct
        || holds g.status "ATTRIBUTED" && covers g.coverage && below gpu_limit_pct g.device_pct)

is_empty-append : (ps qs : List Problem) → is_empty (ps ++ qs) ≡ (is_empty ps && is_empty qs)
is_empty-append [] qs = refl
is_empty-append (p ∷ ps) qs = refl

cpu-free : (c : Sensed) → is_empty (cpu_problems (pct_of c)) ≡ below cpu_busy_limit_pct c
cpu-free unreadable = refl
cpu-free (number n) = ground arith

memory-free : (m : Option String) → is_empty (memory_problems (pressure_of m)) ≡ holds m "normal"
memory-free none = refl
memory-free (some level) = ground arith

covers-low : (c : Sensed) → is_low (number_of c) ≡ not (covers c)
covers-low unreadable = refl
covers-low (number n) = ground arith

known-free :
    (idle_threshold pct process_pct : ℕ) (status : String) (coverage : Sensed)
    → is_empty (known_problems idle_threshold status pct process_pct (number_of coverage)) ≡ (
        status == "IDLE" && ltb pct idle_threshold && ltb process_pct idle_threshold
        || status == "ATTRIBUTED" && covers coverage && ltb pct gpu_limit_pct)
known-free idle_threshold pct process_pct status coverage = elim (Bool-cases (status == "IDLE")) [
  | inl idle ↦ rw ((eq_iff status "IDLE").0 idle) (ground arith)
  | inr busy ↦ rw busy (elim (Bool-cases (status == "ATTRIBUTED")) [
    | inl attributed ↦
        rw ((eq_iff status "ATTRIBUTED").0 attributed) (ground (arith, covers-low coverage))
    | inr other ↦ rw other (ground arith)
  ])
]

gpu-free :
    (idle_threshold : ℕ) (device process : Sensed) (status : Option String) (coverage : Sensed)
    → is_empty (
        gpu_problems idle_threshold (pct_of device) (number_of process) status (number_of coverage))
      ≡ gpu_free idle_threshold (
          some (record {
            device_pct = device;
            process_pct = process;
            status = status;
            coverage = coverage;
          }))
gpu-free i unreadable p st c = refl
gpu-free i (number n) unreadable st c = ground arith
gpu-free i (number n) (number m) none c = ground arith
gpu-free i (number n) (number m) (some st) c = ground (arith, known-free i n m st c)

gpu_readings-free :
    (i : ℕ) (g : Option GpuWindow) (s : Sensors)
    → s.gpu ≡ g
    → let r = readings true s in
      is_empty (gpu_problems i r.gpu_pct r.gpu_process_pct r.gpu_status r.gpu_coverage)
      ≡ gpu_free i g
unfolding readings
gpu_readings-free i none s e = rw e refl
gpu_readings-free i (some g) s e = rw e (gpu-free i g.device_pct g.process_pct g.status g.coverage)

sensed-readings :
    (check_gpu : Bool) (s : Sensors)
    → ((readings check_gpu s).cpu_busy ≡ pct_of s.cpu)
      × ((readings check_gpu s).mem_pressure ≡ pressure_of s.memory)
unfolding readings
sensed-readings false s = (refl, refl)
sensed-readings true s = elim (Option-cases s.gpu) [
  | inl missing ↦ rw missing (refl, refl)
  | inr (g, given) ↦ rw given (refl, refl)
]

-- A job is admitted, without a problem, exactly if the CPU is read and is below its limit, the memory
-- pressure is normal, and, for a job that needs the GPU, the GPU is idle by both accounts or is read,
-- attributed for at least 90% and below its limit. A sensor that cannot be read refuses.
pub admission-closed :
    (check_gpu : Bool) (s : Sensors)
    → is_empty (admission check_gpu s).1 ≡ (
        below cpu_busy_limit_pct s.cpu
        && holds s.memory "normal"
        && (not check_gpu || gpu_free gpu_idle_threshold_pct s.gpu))
unfolding admission problems_of
admission-closed check_gpu s =
    let r = readings check_gpu s in
    let gpu =
      gpu_problems gpu_idle_threshold_pct r.gpu_pct r.gpu_process_pct r.gpu_status r.gpu_coverage in
    let sensed = sensed-readings check_gpu s in
    ground (
      arith,
      sensed.0,
      sensed.1,
      is_empty-append (cpu_problems r.cpu_busy)
          (memory_problems r.mem_pressure ++ (if check_gpu then gpu else [])),
      is_empty-append (memory_problems r.mem_pressure) (if check_gpu then gpu else []),
      cpu-free s.cpu,
      memory-free s.memory,
      gpu_readings-free gpu_idle_threshold_pct s.gpu s refl,
    )

-- ===== src/Quiet.antt =====
-- localbench/quiet.py: pausing omp's managed browser for a measurement, and resuming it. A machine has its processes,
-- those that are stopped, and the rows of runs/quiet.json. The output of `ps` is taken as the processes.
pub mod Signals
pub mod Stopped
use localbench.Base.{
  ℕ, String, Bool, true, false, not, ◌&&◌, ◌||◌, Option, none, some, List, [], ◌∷◌, ◌++◌, ◌==◌, any,
  select, leb, eqb, if◌then◌else◌, is_some, strip_prefix,
}
use Prim.Native.String

pub record Row : Type 0 where
  pub pid : ℕ
  pub cmd : String

pub record Machine : Type 0 where
  pub procs : ℕ → Option String
  pub stopped : ℕ → Bool
  pub rows : List Row

-- `PAUSABLE.search(cmd)`
unfoldable pub is_pausable : String → Bool
unfolding strip_prefix
is_pausable String.[] = false
is_pausable (String.◌∷◌ c cmd) =
    is_some (strip_prefix "/.omp/puppeteer/" (String.◌∷◌ c cmd)) || is_pausable cmd

-- `candidates`
unfoldable pub candidates : List Row → List Row
unfolding is_pausable
candidates procs = select (λ r. is_pausable r.cmd) procs

abbrev pub insert_row : Row → List Row → List Row
insert_row r [] = r ∷ []
insert_row r (q ∷ qs) = if leb r.pid q.pid then r ∷ q ∷ qs else q ∷ insert_row r qs

-- `sorted(procs.items())`: the pids are distinct.
unfoldable pub sorted : List Row → List Row
sorted [] = []
sorted (r ∷ rs) = insert_row r (sorted rs)

abbrev pub has_pid : ℕ → List Row → Bool
has_pid pid rows = any (λ r. eqb r.pid pid) rows

-- `plan_pause`, for the processes that `ps` lists
unfoldable pub plan_pause : List Row → List Row → List Row
unfolding candidates sorted
plan_pause listed rows = select (λ r. not (has_pid r.pid rows)) (sorted (candidates listed))

abbrev pub set_stopped : ℕ → Bool → (ℕ → Bool) → ℕ → Bool
set_stopped pid b stopped p = if eqb pid p then b else stopped p

-- `kill` with SIGSTOP or SIGCONT: a ProcessLookupError where no process has the pid
abbrev pub signalled : ℕ → Bool → Machine → Machine
signalled pid b m = record m { stopped = set_stopped pid b m.stopped }

-- The loop of `pause` and of `resume`: the rows whose process was signalled.
unfoldable pub signal_each : Bool → List Row → Machine → List Row × Machine
signal_each b [] m = ([], m)
signal_each b (r ∷ rs) m =
    let live = is_some (m.procs r.pid) in
    let (now, after) = signal_each b rs (if live then signalled r.pid b m else m) in
    (if live then r ∷ now else now, after)

-- `pause` with a plan; it returns the rows that it paused.
unfoldable pub pause : List Row → Machine → List Row × Machine
unfolding signal_each
pause plan m =
    let (now, after) = signal_each true plan m in (now, record after { rows = m.rows ++ now })

abbrev pub runs : Option String → String → Bool
runs none cmd = false
runs (some c) cmd = c == cmd

-- `plan_resume`
unfoldable pub plan_resume : Machine → List Row
plan_resume m = select (λ r. runs (m.procs r.pid) r.cmd) m.rows

-- `resume`: every recorded pause is forgotten.
unfoldable pub resume : Machine → List Row × Machine
unfolding signal_each plan_resume
resume m =
    let (done, after) = signal_each false (plan_resume m) m in (done, record after { rows = [] })

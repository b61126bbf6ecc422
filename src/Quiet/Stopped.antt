-- ===== src/Quiet/Stopped.antt =====
-- No pause is lost: whatever is stopped is recorded with its command, so a resume continues all of it.
use localbench.Base.{
  ℕ, String, true, false, ◌&&◌, none, some, List, ◌==◌, ◌≡◌, refl, ◌∙◌, ap, arith, inl, inr,
  any-append, eqb, if◌then◌else◌, Bool-cases,
}
use localbench.Quiet.{
  is_pausable, Row, Machine, plan_pause, set_stopped, signal_each, pause, plan_resume, resume,
}
use localbench.Quiet.Signals.{
  has_row, IsPlan, IsListed, signal_each-frame, continue_each, continue_each-free, stop_each,
  has_pid-plan_resume, plan_pause-IsPlan,
}

-- A stopped process is alive and recorded with its command.
abbrev pub Recorded : Machine → Type 0
Recorded m =
    (pid : ℕ)
    → m.stopped pid ≡ true
    → (cmd : String) × (m.procs pid ≡ some cmd)
      × (is_pausable cmd ≡ true)
      × (has_row pid cmd m.rows ≡ true)

-- What the program and the machine do.
pub data Step : Machine → Machine → Type 0 where
  paused :
      {m : Machine} (listed : List Row)
      → IsListed listed m
      → Step m (pause (plan_pause listed m.rows) m).1
  resumed : (m : Machine) → Step m (resume m).1
  exited :
      (m : Machine) (pid : ℕ)
      → Step m (record m {
        procs = λ p. if eqb pid p then none else m.procs p;
        stopped = set_stopped pid false m.stopped;
      })
  started :
      (m : Machine) (pid : ℕ) (cmd : String)
      → m.procs pid ≡ none
      → Step m (record m {
        procs = λ p. if eqb pid p then some cmd else m.procs p;
        stopped = set_stopped pid false m.stopped;
      })

pub data Reach (start : Machine) : Machine → Type 0 where
  here : Reach start start
  next : {m n : Machine} → Reach start m → Step m n → Reach start n

resume-none : (m : Machine) → Recorded m → (pid : ℕ) → (resume m).1.stopped pid ≡ false
unfolding resume
resume-none m r pid = elim (Bool-cases (m.stopped pid)) [
  | inl held ↦
      let (cmd, e, _, h) = r pid held in
      continue_each (plan_resume m) m pid (rw e refl) (has_pid-plan_resume m pid cmd e h)
  | inr free ↦ continue_each-free (plan_resume m) m pid free
]

pause-Recorded :
    (m : Machine) (plan : List Row) → IsPlan plan m → Recorded m → Recorded (pause plan m).1
unfolding pause
pause-Recorded m plan l r pid h =
    let frame = signal_each-frame true plan m in
    elim (stop_each plan m pid l h) [
      | inl held ↦
          let (cmd, e, browser, row) = r pid held in
          (
            cmd,
            ap (λ f. f pid) frame.0 ∙ e,
            browser,
            rw (any-append (λ q. eqb q.pid pid && q.cmd == cmd) m.rows (signal_each true plan m).0)
                (rw row refl),
          )
      | inr (cmd, e, browser, row) ↦ (
        cmd,
        ap (λ f. f pid) frame.0 ∙ e,
        browser,
        rw (any-append (λ q. eqb q.pid pid && q.cmd == cmd) m.rows (signal_each true plan m).0)
            (rw row (ground arith)),
      )
    ]

Step-Recorded : {m n : Machine} → Step m n → Recorded m → Recorded n
Step-Recorded (paused {m} listed l) r p h =
    pause-Recorded m (plan_pause listed m.rows) (plan_pause-IsPlan listed m.rows m l) r p h
Step-Recorded (resumed m) r p h = absurd (cc (resume-none m r p))
Step-Recorded (exited m pid) r p h = elim (Bool-cases (eqb pid p)) [
  | inl gone ↦ absurd (ground arith)
  | inr other ↦ let (cmd, e, browser, row) = r p (ground arith) in (cmd, rw other e, browser, row)
]
Step-Recorded (started m pid cmd free) r p h = elim (Bool-cases (eqb pid p)) [
  | inl new ↦ absurd (ground arith)
  | inr other ↦ let (c, e, browser, row) = r p (ground arith) in (c, rw other e, browser, row)
]

Reach-Recorded : {m n : Machine} → Recorded m → Reach m n → Recorded n
Reach-Recorded r here = r
Reach-Recorded r (next path step) = Step-Recorded step (Reach-Recorded r path)

-- From a machine on which nothing is stopped, after any pauses, resumes, starts and ends of processes in
-- any order, also where a pid is used again: only processes of omp's managed browser are stopped, each is
-- recorded with the command that it runs, and a resume leaves no process stopped. Each pause plans from the
-- processes that run when it signals.
pub Reach-resumes :
    {start m : Machine}
    → ((pid : ℕ) → start.stopped pid ≡ false)
    → Reach start m
    → Recorded m × ((pid : ℕ) → (resume m).1.stopped pid ≡ false)
Reach-resumes {start} {m} none_stopped path =
    let recorded : Recorded m = Reach-Recorded (λ pid h. absurd (cc (none_stopped pid))) path in
    (recorded, resume-none m recorded)

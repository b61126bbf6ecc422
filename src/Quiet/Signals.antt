-- ===== src/Quiet/Signals.antt =====
-- What a round of signals of localbench/quiet.py does to a machine, and what a plan of `pause` names.
use localbench.Base.{
  ℕ, String, Bool, true, false, not, ◌&&◌, Option, some, List, [], ◌∷◌, ◌==◌, ◌≡◌, refl, sym, ◌∙◌,
  ap, arith, inl, inr, ◌⊎◌, and-eq-true, any, leb, select, eqb, if◌then◌else◌, is_some, eq_iff,
  eq_refl, Bool-cases,
}
use localbench.Quiet.{
  is_pausable, candidates, sorted, insert_row, Row, Machine, has_pid, plan_pause, signal_each,
  plan_resume, runs, signalled,
}

-- The row of a process.
abbrev pub has_row : ℕ → String → List Row → Bool
has_row pid cmd rows = any (λ r. eqb r.pid pid && r.cmd == cmd) rows

-- A plan: each row is a process that runs, and its command is that of the managed browser.
abbrev pub IsPlan : List Row → Machine → Type 0
IsPlan [] m = Unit
IsPlan (r ∷ rs) m = (m.procs r.pid ≡ some r.cmd) × (is_pausable r.cmd ≡ true) × IsPlan rs m

-- The processes that `ps` lists: each row is a process that runs.
abbrev pub IsListed : List Row → Machine → Type 0
IsListed [] m = Unit
IsListed (r ∷ rs) m = (m.procs r.pid ≡ some r.cmd) × IsListed rs m

eqb→eq : (a b : ℕ) → eqb a b ≡ true → a ≡ b
eqb→eq a b h = ground arith

abbrev signalled_if : Row → Bool → Machine → Machine
signalled_if r b m = if is_some (m.procs r.pid) then signalled r.pid b m else m

signalled_if-frame :
    (r : Row) (b : Bool) (m : Machine)
    → ((signalled_if r b m).procs ≡ m.procs) × ((signalled_if r b m).rows ≡ m.rows)
signalled_if-frame r b m = elim (Bool-cases (is_some (m.procs r.pid))) [
  | inl live ↦ rw live (refl, refl)
  | inr gone ↦ rw gone (refl, refl)
]

-- A round of signals changes no process and no row.
pub signal_each-frame :
    (b : Bool) (rs : List Row) (m : Machine)
    → ((signal_each b rs m).1.procs ≡ m.procs) × ((signal_each b rs m).1.rows ≡ m.rows)
unfolding signal_each
signal_each-frame b [] m = (refl, refl)
signal_each-frame b (r ∷ rs) m =
    let rest = signal_each-frame b rs (signalled_if r b m) in
    let first = signalled_if-frame r b m in (rest.0 ∙ first.0, rest.1 ∙ first.1)

-- A pid that no row has keeps its state.
signal_each-others :
    (b : Bool) (rs : List Row) (m : Machine) (pid : ℕ)
    → has_pid pid rs ≡ false
    → (signal_each b rs m).1.stopped pid ≡ m.stopped pid
unfolding signal_each
signal_each-others b [] m pid h = refl
signal_each-others b (r ∷ rs) m pid h =
    signal_each-others b rs (signalled_if r b m) pid (ground arith) ∙ ground arith

continued :
    (r : Row) (m : Machine) (pid : ℕ)
    → is_some (m.procs pid) ≡ true
    → eqb r.pid pid ≡ true
    → (signalled_if r false m).stopped pid ≡ false
continued r m pid live same =
    let e : r.pid ≡ pid = ground arith in rw (ap (λ p. is_some (m.procs p)) e ∙ live) (rw same refl)

continued_free :
    (r : Row) (m : Machine) (pid : ℕ)
    → m.stopped pid ≡ false
    → (signalled_if r false m).stopped pid ≡ false
continued_free r m pid free = elim (Bool-cases (is_some (m.procs r.pid))) [
  | inl live ↦ rw live (ground arith)
  | inr gone ↦ rw gone free
]

pub continue_each-free :
    (rs : List Row) (m : Machine) (pid : ℕ)
    → m.stopped pid ≡ false
    → (signal_each false rs m).1.stopped pid ≡ false
unfolding signal_each
continue_each-free [] m pid free = free
continue_each-free (r ∷ rs) m pid free =
    continue_each-free rs (signalled_if r false m) pid (continued_free r m pid free)

-- A round of SIGCONT continues every live pid that a row has.
pub continue_each :
    (rs : List Row) (m : Machine) (pid : ℕ)
    → is_some (m.procs pid) ≡ true
    → has_pid pid rs ≡ true
    → (signal_each false rs m).1.stopped pid ≡ false
unfolding signal_each
continue_each [] m pid live h = cc
continue_each (r ∷ rs) m pid live h = elim (Bool-cases (has_pid pid rs)) [
  | inl later ↦
      continue_each rs (signalled_if r false m) pid
        (ap (λ f. is_some (f pid)) (signalled_if-frame r false m).0 ∙ live) later
  | inr only ↦
      signal_each-others false rs (signalled_if r false m) pid only
      ∙ continued r m pid live (ground arith)
]

IsPlan-frame : (rs : List Row) (m n : Machine) → n.procs ≡ m.procs → IsPlan rs m → IsPlan rs n
IsPlan-frame [] m n e l = tt
IsPlan-frame (r ∷ rs) m n e l = (ap (λ f. f r.pid) e ∙ l.0, l.1, IsPlan-frame rs m n e l.2)

IsPlan-candidates : (rs : List Row) (m : Machine) → IsListed rs m → IsPlan (candidates rs) m
unfolding candidates
IsPlan-candidates [] m l = tt
IsPlan-candidates (r ∷ rs) m l = elim (Bool-cases (is_pausable r.cmd)) [
  | inl browser ↦ rw browser (l.0, browser, IsPlan-candidates rs m l.1)
  | inr other ↦ rw other (IsPlan-candidates rs m l.1)
]

IsPlan-insert_row :
    (r : Row) (rs : List Row) (m : Machine) → IsPlan (r ∷ rs) m → IsPlan (insert_row r rs) m
IsPlan-insert_row r [] m l = l
IsPlan-insert_row r (q ∷ qs) m l = elim (Bool-cases (leb r.pid q.pid)) [
  | inl first ↦ rw first l
  | inr later ↦ rw later (l.2.0, l.2.1, IsPlan-insert_row r qs m (l.0, l.1, l.2.2))
]

IsPlan-sorted : (rs : List Row) (m : Machine) → IsPlan rs m → IsPlan (sorted rs) m
unfolding sorted
IsPlan-sorted [] m l = tt
IsPlan-sorted (r ∷ rs) m l = IsPlan-insert_row r (sorted rs) m (l.0, l.1, IsPlan-sorted rs m l.2)

IsPlan-select :
    (p : Row → Bool) (rs : List Row) (m : Machine) → IsPlan rs m → IsPlan (select p rs) m
IsPlan-select p [] m l = tt
IsPlan-select p (r ∷ rs) m l = elim (Bool-cases (p r)) [
  | inl kept ↦ rw kept (l.0, l.1, IsPlan-select p rs m l.2)
  | inr gone ↦ rw gone (IsPlan-select p rs m l.2)
]

pub plan_pause-IsPlan :
    (listed rows : List Row) (m : Machine) → IsListed listed m → IsPlan (plan_pause listed rows) m
unfolding plan_pause
plan_pause-IsPlan listed rows m l =
    IsPlan-select (λ r. not (has_pid r.pid rows)) (sorted (candidates listed)) m
      (IsPlan-sorted (candidates listed) m (IsPlan-candidates listed m l))

later_row :
    (r : Row) (pid : ℕ) (cmd : String) (live : Bool) (now : List Row)
    → has_row pid cmd now ≡ true
    → has_row pid cmd (if live then r ∷ now else now) ≡ true
later_row r pid cmd true now h = rw h (ground arith)
later_row r pid cmd false now h = h

first_row :
    (r : Row) (pid : ℕ) (live : Bool) (now : List Row)
    → live ≡ true
    → eqb r.pid pid ≡ true
    → has_row pid r.cmd (if live then r ∷ now else now) ≡ true
first_row r pid true now e same = rw (same, eq_refl r.cmd) refl
first_row r pid false now e same = cc

-- A round of SIGSTOP stops what was stopped before, and what it returns.
pub stop_each :
    (rs : List Row) (m : Machine) (pid : ℕ)
    → IsPlan rs m
    → (signal_each true rs m).1.stopped pid ≡ true
    → (m.stopped pid ≡ true)
      ⊎ ((cmd : String) × (m.procs pid ≡ some cmd)
          × (is_pausable cmd ≡ true)
          × (has_row pid cmd (signal_each true rs m).0 ≡ true))
unfolding signal_each
stop_each [] m pid l h = inl h
stop_each (r ∷ rs) m pid l h =
    let live : is_some (m.procs r.pid) ≡ true = ap is_some l.0 in
    let frame = signalled_if-frame r true m in
    elim (stop_each rs (signalled_if r true m) pid
      (IsPlan-frame rs m (signalled_if r true m) frame.0 l.2) h) [
        | inr (cmd, e, browser, row) ↦ inr (
          cmd,
          sym (ap (λ f. f pid) frame.0) ∙ e,
          browser,
          later_row r pid cmd (is_some (m.procs r.pid)) _ row,
        )
        | inl held ↦ elim (Bool-cases (eqb r.pid pid)) [
          | inl same ↦ inr (
            r.cmd,
            ap m.procs (sym (eqb→eq r.pid pid same)) ∙ l.0,
            l.1,
            first_row r pid (is_some (m.procs r.pid)) _ live same,
          )
          | inr other ↦ inl (ground arith)
        ]
      ]

has_pid-select :
    (procs : ℕ → Option String) (pid : ℕ) (cmd : String) (rows : List Row)
    → procs pid ≡ some cmd
    → has_row pid cmd rows ≡ true
    → has_pid pid (select (λ r. runs (procs r.pid) r.cmd) rows) ≡ true
has_pid-select procs pid cmd [] e h = cc
has_pid-select procs pid cmd (r ∷ rows) e h = elim (Bool-cases (eqb r.pid pid && r.cmd == cmd)) [
  | inl mine ↦
      let (same, named) = and-eq-true mine in
      let at : procs r.pid ≡ some cmd = ap procs (eqb→eq r.pid pid same) ∙ e in
      rw at (rw (← ((eq_iff r.cmd cmd).0 named)) (rw (eq_refl r.cmd) (rw same refl)))
  | inr other ↦
      let rest = has_pid-select procs pid cmd rows e (ground arith) in
      elim (Bool-cases (runs (procs r.pid) r.cmd)) [
        | inl taken ↦ rw taken (ground (arith, rest))
        | inr left ↦ rw left rest
      ]
]

pub has_pid-plan_resume :
    (m : Machine) (pid : ℕ) (cmd : String)
    → m.procs pid ≡ some cmd
    → has_row pid cmd m.rows ≡ true
    → has_pid pid (plan_resume m) ≡ true
unfolding plan_resume
has_pid-plan_resume m pid cmd e h = has_pid-select m.procs pid cmd m.rows e h

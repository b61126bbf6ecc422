-- ===== src/Tests/Families.antt =====
-- `holm_reject` and the pauses of localbench/quiet.py: runs, and the theorems at concrete inputs.
use localbench.Base.{
  ℕ, String, Bool, true, false, Option, none, some, List, [], ◌∷◌, ◌≡◌, refl, eqb, get,
  if◌then◌else◌, arith,
}
use localbench.Stats.{Family, decided, holm_reject}
use localbench.Stats.Holm.{holm_closed}
use localbench.Stats.Holm.Sorted.{holm_reject-closed}
use localbench.Quiet.{Row, Machine, plan_pause, pause, resume}
use localbench.Quiet.Stopped.{Recorded, paused, here, next, Reach-resumes}

abbrev family : Family
family = ("speed", 200) ∷ ("memory", 10) ∷ ("recall", 300) ∷ []

rejects :
    holm_reject 10000 500 family
    ≡ decided (("speed", true) ∷ ("memory", true) ∷ ("recall", true) ∷ [])
unfolding holm_reject
rejects = refl

stops :
    holm_reject 10000 500 (("a", 400) ∷ ("b", 300) ∷ ("c", 10) ∷ [])
    ≡ decided (("a", false) ∷ ("b", false) ∷ ("c", true) ∷ [])
unfolding holm_reject
stops = refl

-- A value above one is seen only if no earlier value ends the loop.
unseen :
    holm_reject 10000 500 (("a", 20000) ∷ ("b", 600) ∷ [])
    ≡ decided (("a", false) ∷ ("b", false) ∷ [])
unfolding holm_reject
unseen = refl

holm_reject-closed_example :
    (out : List (String × Bool)) × (holm_reject 10000 500 family ≡ decided out)
    × ((name : String) (p : ℕ)
        → get name family ≡ some p
        → get name out ≡ some (holm_closed 500 family p))
holm_reject-closed_example =
    holm_reject-closed 10000 500 family (omega arith) (omega arith) (refl, (refl, (refl, tt)))
      (omega arith, (omega arith, (omega arith, tt)))

abbrev browser : String
browser = "/Users/me/.omp/puppeteer/chrome --type=gpu"

abbrev procs : ℕ → Option String
procs p = if eqb p 7 then some browser else if eqb p 8 then some "/bin/zsh" else none

abbrev machine : Machine
machine = record { procs = procs; stopped = λ p. false; rows = [] }

abbrev listed : List Row
listed = record { pid = 8; cmd = "/bin/zsh" } ∷ record { pid = 7; cmd = browser } ∷ []

pauses_browser : (pause (plan_pause listed []) machine).0 ≡ record { pid = 7; cmd = browser } ∷ []
unfolding plan_pause pause
pauses_browser = refl

Reach-resumes_example :
    Recorded (pause (plan_pause listed []) machine).1
    × ((pid : ℕ) → (resume (pause (plan_pause listed []) machine).1).1.stopped pid ≡ false)
Reach-resumes_example = Reach-resumes (λ pid. refl) (next here (paused listed (refl, (refl, tt))))

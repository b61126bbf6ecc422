-- ===== src/Heavyslot/Slot.antt =====
-- The slot of localbench/heavyslot.py: `_take`, `Slot.release` and `holder`, over the processes of one
-- machine. A process that ends loses its lock, and its owner file stays.
pub mod Exclusive
use localbench.Base.{
  ℕ, suc, ◌-◌, String, Bool, true, false, not, Option, none, some, List, [], ◌∷◌, ◌++◌, eqb, ltb,
  if◌then◌else◌,
}

pub record Owner : Type 0 where
  pub pid : ℕ
  pub verb : String
  pub repo : String
  pub started_at : ℕ

-- The object that `_take` returns; `slot_id` is its identity.
pub record Slot : Type 0 where
  pub slot_id : ℕ
  pub owner : Owner
  pub gpu_checked : Bool
  pub waited_s : ℕ

-- An entry of `_HELD`.
pub record Held : Type 0 where
  pub slot : Slot
  pub count : ℕ

pub record HistoryRow : Type 0 where
  pub verb : String
  pub repo : String
  pub pid : ℕ
  pub needs_gpu : Bool
  pub acquired_at : ℕ
  pub released_at : ℕ
  pub waited_s : ℕ

-- `lock` is the process that holds the flock, and `held` is `_HELD` of each process at the slot's path.
pub record World : Type 0 where
  pub lock : Option ℕ
  pub owner : Option Owner
  pub history : List HistoryRow
  pub held : ℕ → Option Held
  pub next_slot : ℕ

abbrev pub idle_world : World
idle_world = record { lock = none; owner = none; history = []; held = λ pid. none; next_slot = 0 }

abbrev pub hold : ℕ → Option Held → World → World
hold pid h w = record w { held = λ q. if eqb q pid then h else w.held q }

abbrev pub owner_of : ℕ → String → String → ℕ → Owner
owner_of pid verb repo now = record { pid = pid; verb = verb; repo = repo; started_at = now }

abbrev pub new_slot : Owner → World → Slot
new_slot o w = record { slot_id = w.next_slot; owner = o; gpu_checked = true; waited_s = 0 }

-- The flock is free: the owner file is written and the slot is entered.
abbrev pub take_fresh : Owner → World → World
take_fresh o w =
    hold o.pid (some (record { slot = new_slot o w; count = 1 }))
      (record w { lock = some o.pid; owner = some o; next_slot = suc w.next_slot })

abbrev pub reenter : ℕ → Held → World → World
reenter pid h w = hold pid (some (record h { count = suc h.count })) w

abbrev pub lock_fresh : Owner → Option ℕ → World → Option Slot × Bool × World
lock_fresh o (some other) w = (none, false, w)
lock_fresh o none w = (some (new_slot o w), true, take_fresh o w)

abbrev pub take_held : Owner → Option Held → World → Option Slot × Bool × World
take_held o (some h) w = (some h.slot, false, reenter o.pid h w)
take_held o none w = lock_fresh o w.lock w

-- A hold of the process is entered again; a lock that another holds is not waited for.
unfoldable pub take : Owner → World → Option Slot × Bool × World
take o w = take_held o (w.held o.pid) w

abbrev pub history_row : Slot → ℕ → HistoryRow
history_row s now = record {
  verb = s.owner.verb;
  repo = s.owner.repo;
  pid = s.owner.pid;
  needs_gpu = s.gpu_checked;
  acquired_at = s.owner.started_at;
  released_at = now;
  waited_s = s.waited_s;
}

-- The last hold unlocks and drops the owner file.
abbrev pub unlock : Slot → ℕ → World → World
unlock s now w =
    hold s.owner.pid none
      (record w { lock = none; owner = none; history = w.history ++ history_row s now ∷ [] })

abbrev pub release_held : Slot → ℕ → Option Held → World → World
release_held s now none w = w
release_held s now (some h) w =
    let left = h.count - 1 in
    if not (eqb h.slot.slot_id s.slot_id)
    then w
    else if ltb 0 left
    then hold s.owner.pid (some (record h { count = left })) w
    else unlock s now w

unfoldable pub release : Slot → ℕ → World → World
release s now w = release_held s now (w.held s.owner.pid) w

abbrev pub locks : ℕ → Option ℕ → Bool
locks pid none = false
locks pid (some q) = eqb q pid

-- The end of a process.
unfoldable pub exit : ℕ → World → World
exit pid w = hold pid none (record w { lock = if locks pid w.lock then none else w.lock })

-- A lock that nobody holds is free even where a stale owner file remains.
unfoldable pub holder : World → Option Owner
holder w = elim w.lock [ none ↦ none | some pid ↦ w.owner ]

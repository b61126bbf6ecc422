-- ===== src/Tests/Slots.antt =====
-- The heavy-job slot of localbench/heavyslot.py: runs, and the theorems at concrete states.
use localbench.Base.{
  ℕ, Bool, true, false, not, ◌&&◌, ◌||◌, none, some, [], ◌∷◌, ◌≡◌, refl, holds, is_some,
}
use localbench.Heavyslot.Slot.{Owner, Held, World, idle_world, take, release, owner_of}
use localbench.Heavyslot.Slot.Exclusive.{takes, Reach, here, next, Reach-exclusive, release-take}
use localbench.Heavyslot.Admission.{
  Sensors, number, admission, readings, problems_of, cpu_busy_limit_pct, gpu_idle_threshold_pct,
}
use localbench.Heavyslot.Admission.Closed.{admission-closed, is_empty, below, gpu_free}
use localbench.Heavyslot.Queue.{Ticket, TicketFile, Machine, Pass, attempt, waiters, before}

abbrev runner : Owner
runner = owner_of 7 "prove" "localbench" 100

abbrev other : Owner
other = owner_of 8 "run" "localbench" 101

-- 7 takes the slot, 8 tries, and 7 takes it again.
abbrev busy_world : World
busy_world = (take runner (take other (take runner idle_world).2).2).2

refused_run : (take other (take runner idle_world).2).0 ≡ none
unfolding take
refused_run = refl

abbrev history : Reach idle_world busy_world
history = next (next (next here (takes runner refl)) (takes other refl)) (takes runner refl)

held_run : is_some (busy_world.held 7) ≡ true
unfolding take
held_run = refl

abbrev runner_pid : ℕ
runner_pid = 7

Reach-exclusive_example : runner_pid ≡ runner_pid
Reach-exclusive_example = Reach-exclusive busy_world runner_pid runner_pid history held_run held_run

abbrev first_world : World
first_world = (take runner idle_world).2

abbrev first_held : Held
first_held = record {
  slot = record { slot_id = 0; owner = runner; gpu_checked = true; waited_s = 0 };
  count = 1;
}

first_run : first_world.held 7 ≡ some first_held
unfolding take
first_run = refl

release-take_example :
    ((p : ℕ)
      → (release first_held.slot 102 (take runner first_world).2).held p ≡ first_world.held p)
    × ((release first_held.slot 102 (take runner first_world).2).lock ≡ first_world.lock)
    × ((release first_held.slot 102 (take runner first_world).2).owner ≡ first_world.owner)
    × ((release first_held.slot 102 (take runner first_world).2).history ≡ first_world.history)
release-take_example =
    release-take first_world runner first_held 102 (next here (takes runner refl)) first_run

-- The GPU sensor is unreadable.
abbrev blind : Sensors
blind = record { cpu = number 12_000; memory = some "normal"; gpu = none }

cpu_only_run : is_empty (admission false blind).1 ≡ true
unfolding admission readings problems_of
cpu_only_run = refl

admission-closed_example : is_empty (admission true blind).1 ≡ (
    below cpu_busy_limit_pct blind.cpu
    && holds blind.memory "normal"
    && (not true || gpu_free gpu_idle_threshold_pct blind.gpu))
admission-closed_example = admission-closed true blind

abbrev waiting : ℕ → Bool → ℕ → Ticket
waiting pid needs_gpu order = record {
  pid = pid;
  verb = "prove";
  repo = "localbench";
  needs_gpu = needs_gpu;
  enqueued_at = 50;
  queue_order = some order;
}

abbrev ticket_file : Ticket → TicketFile
ticket_file t = record { name = t.pid; content = some t }

-- A CPU ticket was first, the GPU ticket of 7 came later.
abbrev machine : Machine
machine = record {
  world = idle_world;
  files = ticket_file (waiting 8 false 1) ∷ ticket_file (waiting 7 true 2) ∷ [];
}

abbrev pass : Pass
pass = record {
  owner = runner;
  needs_gpu = true;
  no_problems = true;
  may_wait = true;
  has_ticket = true;
  now = 60;
}

abbrev living : ℕ → Bool
living pid = true

attempt_run : is_some (attempt living pass machine).0 ≡ true
unfolding attempt waiters before take
attempt_run = refl

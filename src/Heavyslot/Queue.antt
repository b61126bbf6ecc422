-- ===== src/Heavyslot/Queue.antt =====
-- The queue of localbench/heavyslot.py: the tickets of the waiters, and the body of the loop of `acquire`,
-- which runs under the guard of the queue.
pub mod Turns
use localbench.Base.{
  ℕ, suc, max, String, Bool, true, false, not, ◌&&◌, ◌||◌, Option, none, some, List, [], ◌∷◌, ◌++◌,
  delete, sort, leb, ltb, eqb, if◌then◌else◌, is_some,
}
use localbench.Heavyslot.Slot.{World, Owner, Slot, take}

-- The JSON of a ticket. An order that is not an integer counts as 0.
pub record Ticket : Type 0 where
  pub pid : ℕ
  pub verb : String
  pub repo : String
  pub needs_gpu : Bool
  pub enqueued_at : ℕ
  pub queue_order : Option ℕ

-- A file <pid>.json of the directory; its content is `none` where it is not a ticket.
pub record TicketFile : Type 0 where
  pub name : ℕ
  pub content : Option Ticket

pub record Machine : Type 0 where
  pub world : World
  pub files : List TicketFile

abbrev pub order_of : Ticket → ℕ
order_of t = elim t.queue_order [ none ↦ 0 | some n ↦ n ]

abbrev pub class_of : Ticket → ℕ
class_of t = if t.needs_gpu then 0 else 1

-- The sort key: the class, the order, the time, the process.
unfoldable pub before : Ticket → Ticket → Bool
before t u =
    ltb (class_of t) (class_of u)
    || eqb (class_of t) (class_of u)
      && (ltb (order_of t) (order_of u)
          || eqb (order_of t) (order_of u)
            && (ltb t.enqueued_at u.enqueued_at
                || eqb t.enqueued_at u.enqueued_at && leb t.pid u.pid))

module _ (alive : ℕ → Bool) where
  abbrev pub is_live : TicketFile → Bool
  is_live f = elim f.content [ none ↦ false | some t ↦ alive t.pid ]

  abbrev pub live_tickets : List TicketFile → List Ticket
  live_tickets [] = []
  live_tickets (f ∷ fs) =
      let rest = live_tickets fs in
      elim f.content [ none ↦ rest | some t ↦ if alive t.pid then t ∷ rest else rest ]

  -- The queue; dead and unreadable tickets are removed from the directory.
  unfoldable pub waiters : List TicketFile → List Ticket × List TicketFile
  waiters files = (sort before (live_tickets files), delete (λ f. not (is_live f)) files)

-- `max(orders, default=0)`
unfoldable pub max_order : List Ticket → ℕ
max_order [] = 0
max_order (t ∷ ts) = max (order_of t) (max_order ts)

abbrev pub new_ticket : Owner → Bool → ℕ → List Ticket → Ticket
new_ticket o needs_gpu now queue = record {
  pid = o.pid;
  verb = o.verb;
  repo = o.repo;
  needs_gpu = needs_gpu;
  enqueued_at = now;
  queue_order = some (suc (max_order queue));
}

abbrev pub remove_ticket : ℕ → List TicketFile → List TicketFile
remove_ticket pid files = delete (λ f. eqb f.name pid) files

-- Writing a file replaces one of the same name.
abbrev pub write_ticket : Ticket → List TicketFile → List TicketFile
write_ticket t files = remove_ticket t.pid files ++ record { name = t.pid; content = some t } ∷ []

-- A process without a ticket has its turn when the queue is empty, one with a ticket when it is first.
abbrev pub is_turn : ℕ → Bool → List Ticket → Bool
is_turn pid false [] = true
is_turn pid false (t ∷ ts) = false
is_turn pid true [] = false
is_turn pid true (t ∷ ts) = eqb t.pid pid

-- What a pass knows: whether admission found no problem, whether the wait has time left, and whether the
-- process has a ticket.
pub record Pass : Type 0 where
  pub owner : Owner
  pub needs_gpu : Bool
  pub no_problems : Bool
  pub may_wait : Bool
  pub has_ticket : Bool
  pub now : ℕ

abbrev pub try_take : Bool → Owner → World → Option Slot × World
try_take true o w = let (slot, fresh, u) = take o w in (slot, u)
try_take false o w = (none, w)

-- The slot if it is taken, and whether the process has a ticket afterwards.
unfoldable pub attempt : (ℕ → Bool) → Pass → Machine → Option Slot × Bool × Machine
unfolding waiters
attempt alive p m =
    let (queue, files) = waiters alive m.files in
    let (slot, world) =
      try_take (is_turn p.owner.pid p.has_ticket queue && p.no_problems) p.owner m.world in
    let enqueues = not p.has_ticket && p.may_wait in
    let queued =
      if enqueues then write_ticket (new_ticket p.owner p.needs_gpu p.now queue) files else files in
    let has_ticket = p.has_ticket || enqueues in
    let leaves = is_some slot && has_ticket in
    (
      slot,
      has_ticket && not leaves,
      record { world = world; files = if leaves then remove_ticket p.owner.pid queued else queued },
    )

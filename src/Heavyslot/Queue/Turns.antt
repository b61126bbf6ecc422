-- ===== src/Heavyslot/Queue/Turns.antt =====
-- Whose turn it is in localbench/heavyslot.py: no waiting ticket is overtaken in its class, and GPU tickets
-- come first.
use localbench.Base.{
  leb, ltb, if◌then◌else◌, ◌++◌, delete, some, ℕ, Bool, true, false, not, ◌&&◌, ◌||◌, List, [], ◌∷◌,
  ◌≡◌, refl, arith, all, eqb, ◌<◌,
}
use localbench.Heavyslot.Slot.{Owner}
use localbench.Heavyslot.Queue.{
  TicketFile, Ticket, order_of, class_of, before, max_order, new_ticket, Pass,
}

before_refl : (t : Ticket) → before t t ≡ true
unfolding before
before_refl t = ground arith

-- The first of the sorted tickets is before all.
abbrev leads : List Ticket → Bool
leads [] = true
leads (t ∷ ts) = all (before t) ts

-- A ticket is placed after another of its class.
abbrev pub is_after : Ticket → Ticket → Bool
is_after new t = not (eqb (class_of t) (class_of new)) || before t new && not (before new t)

after-orders :
    (new : Ticket) (ts : List Ticket) → max_order ts < order_of new → all (is_after new) ts ≡ true
unfolding before max_order
after-orders new [] h = refl
after-orders new (t ∷ ts) h = ground (arith, after-orders new ts)

-- A new ticket is placed after every waiting ticket of its class, so each class is first in, first out.
pub new_ticket-last :
    (o : Owner) (needs_gpu : Bool) (now : ℕ) (queue : List Ticket)
    → all (is_after (new_ticket o needs_gpu now queue)) queue ≡ true
new_ticket-last o needs_gpu now queue =
    after-orders (new_ticket o needs_gpu now queue) queue (omega arith)

-- The place in the queue: a GPU ticket before another, and in one class the lower order first.
abbrev pub precedes : Ticket → Ticket → Bool
precedes t u =
    if t.needs_gpu
    then not u.needs_gpu || leb (order_of t) (order_of u)
    else not u.needs_gpu && leb (order_of t) (order_of u)

-- The process's ticket is the first, and precedes every other ticket.
abbrev pub is_first : ℕ → List Ticket → Bool
is_first pid [] = false
is_first pid (t ∷ ts) = eqb t.pid pid && all (precedes t) ts

-- A ticket with a higher order than all the others.
abbrev pub is_last : Ticket → List Ticket → Bool
is_last t queue = all (λ u. ltb (order_of u) (order_of t)) queue

-- By whether the process has a ticket: its ticket is the first, or none waits.
abbrev pub IsTurn : Bool → ℕ → List Ticket → Type 0
IsTurn true pid queue = is_first pid queue ≡ true
IsTurn false pid queue = queue ≡ []

-- What a pass that starts to wait writes: its ticket, beside those of the other processes.
abbrev pub Enqueued : Pass → List Ticket → List TicketFile → List TicketFile → Type 0
Enqueued p queue kept files =
    (t : Ticket) × (t.pid ≡ p.owner.pid)
    × (t.needs_gpu ≡ p.needs_gpu)
    × (is_last t queue ≡ true)
    × (files
        ≡ delete (λ f. eqb f.name p.owner.pid) kept
          ++ record { name = p.owner.pid; content = some t } ∷ [])

-- By whether the pass starts to wait: it writes its ticket, or leaves the tickets that are kept.
abbrev pub Waited : Bool → Pass → List Ticket → List TicketFile → List TicketFile → Type 0
Waited true p queue kept files = Enqueued p queue kept files
Waited false p queue kept files = files ≡ kept

-- By whether the pass took the slot.
abbrev pub Passed : Bool → Pass → List Ticket → List TicketFile → List TicketFile → Type 0
Passed true p queue kept files = (p.no_problems ≡ true) × IsTurn p.has_ticket p.owner.pid queue
Passed false p queue kept files = Waited (not p.has_ticket && p.may_wait) p queue kept files

-- ===== src/Heavyslot/Slot/Exclusive.antt =====
-- The slot of localbench/heavyslot.py is held by one process at a time, whatever the processes do.
use localbench.Base.{
  ℕ, ◌-◌, Bool, true, false, ◌&&◌, Option, none, some, ◌≡◌, refl, arith, eqb, ltb, is_some,
  Bool-cases, Option-cases, inl, inr,
}
use localbench.Heavyslot.Slot.{
  World, Owner, Slot, Held, idle_world, hold, take, take_held, lock_fresh, take_fresh, reenter,
  release, release_held, unlock, exit, locks,
}

-- What a process keeps in `_HELD`: a slot of its own, held at least once.
abbrev is_sound : ℕ → Option Held → Bool
is_sound pid none = true
is_sound pid (some h) = eqb h.slot.owner.pid pid && ltb 0 h.count

abbrev names : ℕ → Option Owner → Bool
names pid none = false
names pid (some o) = eqb o.pid pid

-- A process holds the slot exactly if it has the lock, and then the owner file names it.
pub record IsExclusive (w : World) : Type 0 where
  pub lock_held : (pid : ℕ) → is_some (w.held pid) ≡ locks pid w.lock
  pub sound : (pid : ℕ) → is_sound pid (w.held pid) ≡ true
  pub owner_named : (pid : ℕ) → locks pid w.lock ≡ true → names pid w.owner ≡ true

take_fresh-IsExclusive :
    (o : Owner) (w : World) → w.lock ≡ none → IsExclusive w → IsExclusive (take_fresh o w)
take_fresh-IsExclusive o w free v = record {
  lock_held = λ p. ground (arith, v.lock_held p, free);
  sound = λ p. ground (arith, v.sound p);
  owner_named = λ p h. ground arith;
}

reenter-IsExclusive :
    (pid : ℕ) (h : Held) (w : World)
    → w.held pid ≡ some h
    → IsExclusive w
    → IsExclusive (reenter pid h w)
reenter-IsExclusive pid h w mine v = record {
  lock_held = λ p. ground (arith, v.lock_held p, mine);
  sound = λ p. ground (arith, v.sound p, v.sound pid, mine);
  owner_named = λ p l. v.owner_named p l;
}

lock-IsExclusive :
    (o : Owner) (l : Option ℕ) (w : World)
    → w.lock ≡ l
    → IsExclusive w
    → IsExclusive (lock_fresh o l w).2
lock-IsExclusive o none w e v = take_fresh-IsExclusive o w e v
lock-IsExclusive o (some other) w e v = v

held-IsExclusive :
    (o : Owner) (h : Option Held) (w : World)
    → w.held o.pid ≡ h
    → IsExclusive w
    → IsExclusive (take_held o h w).2
held-IsExclusive o none w e v = lock-IsExclusive o w.lock w refl v
held-IsExclusive o (some h) w e v = reenter-IsExclusive o.pid h w e v

take-IsExclusive : (o : Owner) (w : World) → IsExclusive w → IsExclusive (take o w).2
unfolding take
take-IsExclusive o w v = held-IsExclusive o (w.held o.pid) w refl v

unlock-IsExclusive :
    (s : Slot) (now : ℕ) (w : World)
    → is_some (w.held s.owner.pid) ≡ true
    → IsExclusive w
    → IsExclusive (unlock s now w)
unlock-IsExclusive s now w mine v = record {
  lock_held = λ p. ground (arith, v.lock_held p, v.lock_held s.owner.pid, mine);
  sound = λ p. ground (arith, v.sound p);
  owner_named = λ p l. cc;
}

lower-IsExclusive :
    (pid left : ℕ) (h : Held) (w : World)
    → w.held pid ≡ some h
    → ltb 0 left ≡ true
    → IsExclusive w
    → IsExclusive (hold pid (some (record h { count = left })) w)
lower-IsExclusive pid left h w mine some_left v = record {
  lock_held = λ p. ground (arith, v.lock_held p, mine);
  sound = λ p. ground (arith, v.sound p, v.sound pid, mine, some_left);
  owner_named = λ p l. v.owner_named p l;
}

release_held-IsExclusive :
    (s : Slot) (now : ℕ) (h : Option Held) (w : World)
    → w.held s.owner.pid ≡ h
    → IsExclusive w
    → IsExclusive (release_held s now h w)
release_held-IsExclusive s now none w e v = v
release_held-IsExclusive s now (some h) w e v = elim (Bool-cases (eqb h.slot.slot_id s.slot_id)) [
  | inr other ↦ rw other v
  | inl same ↦ rw same (elim (Bool-cases (ltb 0 (h.count - 1))) [
    | inl left ↦ rw left (lower-IsExclusive s.owner.pid (h.count - 1) h w e left v)
    | inr last ↦ rw last (unlock-IsExclusive s now w (ground (arith, e)) v)
  ])
]

release-IsExclusive :
    (s : Slot) (now : ℕ) (w : World) → IsExclusive w → IsExclusive (release s now w)
unfolding release
release-IsExclusive s now w v = release_held-IsExclusive s now (w.held s.owner.pid) w refl v

exit-IsExclusive : (pid : ℕ) (w : World) → IsExclusive w → IsExclusive (exit pid w)
unfolding exit
exit-IsExclusive pid w v = record {
  lock_held = λ p. elim (Option-cases w.lock) [
    | inl free ↦ ground (arith, v.lock_held p, v.lock_held pid, free)
    | inr (q, taken) ↦ ground (arith, v.lock_held p, v.lock_held pid, taken)
  ];
  sound = λ p. ground (arith, v.sound p);
  owner_named = λ p l. ground (arith, v.owner_named p);
}

-- What a process does with the slot. `release` may be called with any slot, also with one that has been
-- released before.
pub data Step (w : World) (u : World) : Type 0 where
  takes : (o : Owner) → u ≡ (take o w).2 → Step w u
  releases : (s : Slot) (now : ℕ) → u ≡ release s now w → Step w u
  exits : (pid : ℕ) → u ≡ exit pid w → Step w u

pub data Reach (w : World) : World → Type 0 where
  here : Reach w w
  next : {u v : World} → Reach w u → Step u v → Reach w v

Step-IsExclusive : (w u : World) → Step w u → IsExclusive w → IsExclusive u
Step-IsExclusive w u (takes o e) v = rw e (take-IsExclusive o w v)
Step-IsExclusive w u (releases s now e) v = rw e (release-IsExclusive s now w v)
Step-IsExclusive w u (exits pid e) v = rw e (exit-IsExclusive pid w v)

idle-IsExclusive : IsExclusive idle_world
idle-IsExclusive = record { lock_held = λ p. refl; sound = λ p. refl; owner_named = λ p l. cc }

pub Reach-IsExclusive : (w : World) → Reach idle_world w → IsExclusive w
Reach-IsExclusive w here = idle-IsExclusive
Reach-IsExclusive w (next {u} r st) = Step-IsExclusive u w st (Reach-IsExclusive u r)

-- After any takes, releases and ends of processes, in any order, two processes that both hold the slot are
-- one process.
pub Reach-exclusive :
    (w : World) (p q : ℕ)
    → Reach idle_world w
    → is_some (w.held p) ≡ true
    → is_some (w.held q) ≡ true
    → p ≡ q
Reach-exclusive w p q r hp hq =
    let v = Reach-IsExclusive w r in
    elim (Option-cases w.lock) [
      | inl free ↦ ground (arith, v.lock_held p, v.lock_held q, free)
      | inr (o, taken) ↦ ground (arith, v.lock_held p, v.lock_held q, taken)
    ]

-- A re-entry that is released again leaves the lock, the owner file, the history and every hold as they
-- were: the lock goes with the last hold only.
pub release-take :
    (w : World) (o : Owner) (h : Held) (now : ℕ)
    → Reach idle_world w
    → w.held o.pid ≡ some h
    → let u = release h.slot now (take o w).2 in
      ((p : ℕ) → u.held p ≡ w.held p)
      × (u.lock ≡ w.lock)
      × (u.owner ≡ w.owner)
      × (u.history ≡ w.history)
unfolding take release
release-take w o h now r mine =
    let fine = (Reach-IsExclusive w r).sound o.pid in
    (
      λ p. ground (arith, fine, mine),
      ground (arith, fine, mine),
      ground (arith, fine, mine),
      ground (arith, fine, mine),
    )

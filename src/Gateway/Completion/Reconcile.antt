-- ===== src/Gateway/Completion/Reconcile.antt =====
-- `reconcile_abandoned_requests` of localbench/gateway.py: which admitted requests it ends.
use localbench.Base.{
  zero, suc, true, none, negsuc, select, eqb, ◌||◌, ℕ, String, Bool, false, not, ◌&&◌, List, [],
  ◌∷◌, ◌==◌, ◌≡◌, refl, any, delete, sort, length, arith, eq_refl, some, Option, ℤ, pos, is_some,
  any-delete_key, any-sort, length-sort, length-select-sort, Bool-cases, inl, inr,
}
use localbench.Gateway.Store.{Store, ActiveRequest, Result, ok, err}
use localbench.Gateway.Completion.{
  Ending, finish_row, finish_request, vacuum, settle, finish_all, unless_raised, abandon,
  abandoned_rows, abandoned_reason, reconcile_abandoned_requests, started_before, count_of,
  no_clients, is_gone, below_zero,
}
use localbench.Gateway.Completion.Finish.{active-finish_row}

settled-ok : (s t : Store) (r : Result Store) → settle s r ≡ (ok tt, t) → r ≡ ok t
settled-ok s t (ok u) h = ground arith
settled-ok s t (err e) h = ground arith

pub active-finish_request :
    (vacuumed : Bool) (id : String) (e : Ending) (now : ℕ) (s t : Store)
    → finish_request vacuumed id e now s ≡ (ok tt, t)
    → t.active ≡ delete (λ a. a.request_id == id) s.active
unfolding finish_request
active-finish_request vacuumed id e now s t h =
    let u = vacuum vacuumed now s in
    let same : u.active ≡ s.active = ground arith in
    rw (← same) (active-finish_row id e now u t (settled-ok u t (finish_row id e now u) h))

abbrev pub has_id : String → ActiveRequest → Bool
has_id i a = a.request_id == i

raised-ok :
    (r : Result (Unit {0})) (u t : Store) (next : Result (Unit {0}) × Store)
    → unless_raised r u next ≡ (ok tt, t)
    → (r ≡ ok tt) × (next ≡ (ok tt, t))
raised-ok (ok x) u t next h = (refl, h)
raised-ok (err e) u t next h = ground arith

active-finish_all :
    (vacuumed : Bool) (now : ℕ) (rows : List (String × String)) (s t : Store) (i : String)
    → finish_all vacuumed now rows s ≡ (ok tt, t)
    → any (has_id i) t.active ≡ (any (has_id i) s.active && not (any (λ r. r.0 == i) rows))
unfolding finish_all
active-finish_all vacuumed now [] s t i h = ground arith
active-finish_all vacuumed now ((id, reason) ∷ rows) s t i h =
    let u = finish_request vacuumed id (abandon reason) now s in
    let (first, later) = raised-ok u.0 u.1 t (finish_all vacuumed now rows u.1) h in
    ground (
      arith,
      active-finish_all vacuumed now rows u.1 t i later,
      active-finish_request vacuumed id (abandon reason) now s u.1 (ground (arith, first)),
      any-delete_key (λ a. a.request_id) id i s.active,
    )

abbrev is_known_gone : Option Bool → Bool
is_known_gone none = false
is_known_gone (some alive) = not alive

abbrev is_known_zero : Option ℤ → Bool
is_known_zero (some (pos n)) = eqb n 0
is_known_zero _ = false

-- When an admitted request counts as abandoned.
abbrev pub is_abandoned : (ℕ → Option Bool) → Option ℤ → ActiveRequest → Bool
is_abandoned alive connections a =
    not (eqb a.owner_pid 0) && is_known_gone (alive a.owner_pid) || is_known_zero connections

zero_clients : (c : Option ℤ) → no_clients c ≡ is_known_zero c
zero_clients none = refl
zero_clients (some (pos zero)) = refl
zero_clients (some (pos (suc n))) = ground arith
zero_clients (some (negsuc n)) = refl

gone_known : (o : Option Bool) → is_gone o ≡ is_known_gone o
gone_known none = refl
gone_known (some true) = refl
gone_known (some false) = refl

module _ (show : ℕ → String) (alive : ℕ → Option Bool) where
  reason-abandoned :
      (c : Option ℤ) (a : ActiveRequest)
      → is_some (abandoned_reason show alive c a) ≡ is_abandoned alive c a
  reason-abandoned c a = ground (arith, zero_clients c, gone_known (alive a.owner_pid))

  any-reason :
      (c : Option ℤ) (i : String) (rs : List ActiveRequest)
      → any (λ a. is_some (abandoned_reason show alive c a) && has_id i a) rs
        ≡ any (λ a. is_abandoned alive c a && has_id i a) rs
  any-reason c i [] = refl
  any-reason c i (a ∷ rs) = ground (arith, reason-abandoned c a, any-reason c i rs)

  length-rows :
      (c : Option ℤ) (rs : List ActiveRequest)
      → length (abandoned_rows show alive c rs) ≡ length (select (is_abandoned alive c) rs)
  length-rows c [] = refl
  length-rows c (a ∷ rs) = ground (arith, reason-abandoned c a, length-rows c rs)

  -- The rows that have a reason.
  rows-abandoned :
      (c : Option ℤ) (i : String) (rs : List ActiveRequest)
      → any (λ r. r.0 == i) (abandoned_rows show alive c rs)
        ≡ any (λ a. is_some (abandoned_reason show alive c a) && has_id i a) rs
  rows-abandoned c i [] = refl
  rows-abandoned c i (a ∷ rs) = ground (arith, rows-abandoned c i rs)

  -- With no client left every admitted request has a reason.
  length-abandoned :
      (rs : List ActiveRequest) → length (abandoned_rows show alive (some (pos 0)) rs) ≡ length rs
  length-abandoned [] = refl
  length-abandoned (a ∷ rs) = ground (arith, length-abandoned rs)

  all-abandoned :
      (i : String) (rs : List ActiveRequest)
      → any (λ a. is_some (abandoned_reason show alive (some (pos 0)) a) && has_id i a) rs
        ≡ any (has_id i) rs
  all-abandoned i [] = refl
  all-abandoned i (a ∷ rs) = ground (arith, all-abandoned i rs)

  counted-ok : (k n : ℕ) (r : Result (Unit {0})) → count_of k r ≡ ok n → (r ≡ ok tt) × (n ≡ k)
  counted-ok k n (ok x) h = ground arith
  counted-ok k n (err e) h = ground arith

  module _ (vacuumed : Bool) (c : Option ℤ) (now n : ℕ) (s t : Store)
      (done : reconcile_abandoned_requests show alive vacuumed c now s ≡ (ok n, t)) where
    abbrev rows : List (String × String)
    rows = abandoned_rows show alive c (sort started_before s.active)

    reconcile-finishes : (finish_all vacuumed now rows s ≡ (ok tt, t)) × (n ≡ length rows)
    unfolding reconcile_abandoned_requests
    reconcile-finishes = elim (Bool-cases (below_zero c)) [
      | inl negative ↦ absurd (cc (rw negative at done))
      | inr valid ↦
          let all = finish_all vacuumed now rows s in
          let counted : (count_of (length rows) all.0, all.1) ≡ (ok n, t) = rw valid at done in
          let (first, size) = counted-ok (length rows) n all.0 (ground (arith, counted)) in
          (ground (arith, counted, first), size)
    ]

    reconcile-reasons :
        (i : String)
        → any (has_id i) t.active ≡ (
            any (has_id i) s.active
            && not (any (λ a. is_some (abandoned_reason show alive c a) && has_id i a) s.active))
    reconcile-reasons i = ground (
      arith,
      active-finish_all vacuumed now rows s t i reconcile-finishes.0,
      any-sort started_before (has_id i) s.active,
      any-sort started_before (λ a. is_some (abandoned_reason show alive c a) && has_id i a)
          s.active,
      rows-abandoned c i (sort started_before s.active),
    )

    -- When the call returns, the admitted requests of an id are gone exactly if one of them is abandoned: its
    -- gateway process has an id above zero and is known to be gone, or it is known that no client is
    -- connected. The count that the call returns is the number of the abandoned requests that there were.
    pub reconcile-ends :
        (i : String)
        → (any (has_id i) t.active ≡ (
            any (has_id i) s.active
            && not (any (λ a. is_abandoned alive c a && has_id i a) s.active)))
          × (n ≡ length (select (is_abandoned alive c) s.active))
    reconcile-ends i = (
      ground (arith, reconcile-reasons i, any-reason c i s.active),
      omega (
        arith,
        reconcile-finishes.1,
        length-rows c (sort started_before s.active),
        length-select-sort started_before (is_abandoned alive c) s.active,
      ),
    )

has_none : (rs : List ActiveRequest) → ((i : String) → any (has_id i) rs ≡ false) → rs ≡ []
has_none [] h = refl
has_none (a ∷ rs) h = ground (arith, h a.request_id, eq_refl a.request_id)

module _ (show : ℕ → String) (alive : ℕ → Option Bool) where
  -- When no client is connected and the call returns, no admitted request is left, and the count that it
  -- returns is the number of those that there were.
  pub reconcile-no_clients :
      (vacuumed : Bool) (now n : ℕ) (s t : Store)
      → reconcile_abandoned_requests show alive vacuumed (some (pos 0)) now s ≡ (ok n, t)
      → (t.active ≡ []) × (n ≡ length s.active)
  reconcile-no_clients vacuumed now n s t done =
      let ended = reconcile-reasons show alive vacuumed (some (pos 0)) now n s t done in
      (
        has_none t.active λ i. ground (arith, ended i, all-abandoned show alive i s.active),
        omega (
          arith,
          (reconcile-finishes show alive vacuumed (some (pos 0)) now n s t done).1,
          length-abandoned show alive (sort started_before s.active),
          length-sort started_before s.active,
        ),
      )

-- ===== src/Gateway/Safety/Closing.antt =====
-- Finishing requests keeps the exclusions.
use localbench.Base.{
  ℕ, String, Bool, true, false, Option, none, some, List, [], ◌∷◌, ◌==◌, ◌≡◌, refl, arith, sort, ℤ,
  eq_iff, any-delete, find-update_key, Bool-cases, inl, inr,
}
use localbench.Gateway.Store.{Store, ActiveRequest, Result, ok, err, busy, has_fence, lease_of}
use localbench.Gateway.Admission.{unload_pending}
use localbench.Gateway.Completion.{
  Ending, vacuum, finish_request, close_request, finish_found, unless_raised, below_zero,
  drop_request, idle_lease, idle_from, finish_all, abandon, settle, reconcile_abandoned_requests,
  abandoned_rows, started_before,
}
use localbench.Gateway.Safety.{IsSafe}

vacuum-IsSafe : (vacuumed : Bool) (now : ℕ) (s : Store) → IsSafe s → IsSafe (vacuum vacuumed now s)
unfolding vacuum
vacuum-IsSafe vacuumed now s v = record {
  fence_idle = λ m h. ground (arith, v.fence_idle m);
  unload_idle = λ m h. ground (arith, v.unload_idle m);
}

module _ (row : ActiveRequest) (e : Ending) (now : ℕ) (s : Store) (v : IsSafe s) where
  abbrev dropped : Store
  dropped = drop_request row e now s

  busy-dropped : (m : String) → busy dropped m ≡ true → busy s m ≡ true
  busy-dropped m h = any-delete (λ a. a.model == m) (λ a. a.request_id == row.request_id) s.active h

  idle-fence_idle :
      (m : String)
      → has_fence (idle_lease row.model e now dropped) m ≡ true
      → busy (idle_lease row.model e now dropped) m ≡ false
  idle-fence_idle m h = ground (arith, v.fence_idle m, busy-dropped m)

  idle-unload_idle :
      (m : String)
      → unload_pending (lease_of (idle_lease row.model e now dropped) m) ≡ true
      → busy (idle_lease row.model e now dropped) m ≡ false
  idle-unload_idle m h = ground (
    arith,
    v.unload_idle m,
    busy-dropped m,
    eq_iff row.model m,
    find-update_key (λ l. l.model) (idle_from e now) row.model m s.leases (λ l. refl),
  )

  close-IsSafe : {t : Store} → close_request row e now s ≡ ok t → IsSafe t
  close-IsSafe {t} h =
      let same : t ≡ idle_lease row.model e now dropped = ground arith in
      rw same (record { fence_idle = idle-fence_idle; unload_idle = idle-unload_idle })

-- The state that a call leaves, whether it raises or not.
settle-IsSafe :
    {s : Store} (r : Result Store)
    → IsSafe s
    → ((t : Store) → r ≡ ok t → IsSafe t)
    → IsSafe (settle s r).1
settle-IsSafe (ok t) v keep = keep t refl
settle-IsSafe (err x) v keep = v

found-IsSafe :
    (o : Option ActiveRequest) (e : Ending) (now : ℕ) (s : Store)
    → IsSafe s
    → IsSafe (settle s (finish_found o e now s)).1
found-IsSafe none e now s v = v
found-IsSafe (some row) e now s v =
    settle-IsSafe (close_request row e now s) v (λ t h. close-IsSafe row e now s v h)

-- Finishing a request keeps the exclusions, whether the call raises or not.
pub finish_request-IsSafe :
    (vacuumed : Bool) (request_id : String) (e : Ending) (now : ℕ) (s : Store)
    → IsSafe s
    → IsSafe (finish_request vacuumed request_id e now s).1
unfolding finish_request
finish_request-IsSafe vacuumed request_id e now s v =
    found-IsSafe _ e now (vacuum vacuumed now s) (vacuum-IsSafe vacuumed now s v)

unless_raised-IsSafe :
    (r : Result (Unit {0})) (t : Store) (next : Result (Unit {0}) × Store)
    → IsSafe t
    → IsSafe next.1
    → IsSafe (unless_raised r t next).1
unless_raised-IsSafe (ok x) t next v w = w
unless_raised-IsSafe (err x) t next v w = v

finish_all-IsSafe :
    (vacuumed : Bool) (now : ℕ) (rows : List (String × String)) (s : Store)
    → IsSafe s
    → IsSafe (finish_all vacuumed now rows s).1
unfolding finish_all
finish_all-IsSafe vacuumed now [] s v = v
finish_all-IsSafe vacuumed now ((id, reason) ∷ rest) s v =
    let safe = finish_request-IsSafe vacuumed id (abandon reason) now s v in
    unless_raised-IsSafe _ _ _ safe (finish_all-IsSafe vacuumed now rest _ safe)

module _ (show : ℕ → String) (alive : ℕ → Option Bool) where
  pub reconcile-IsSafe :
      (vacuumed : Bool) (connections : Option ℤ) (now : ℕ) (s : Store)
      → IsSafe s
      → IsSafe (reconcile_abandoned_requests show alive vacuumed connections now s).1
  unfolding reconcile_abandoned_requests
  reconcile-IsSafe vacuumed connections now s v = elim (Bool-cases (below_zero connections)) [
    | inl negative ↦ rw negative v
    | inr valid ↦ rw valid (
        finish_all-IsSafe vacuumed now
          (abandoned_rows show alive connections (sort started_before s.active)) s v)
  ]

-- ===== src/Gateway/Completion/Finish.antt =====
-- What `finish_request` and `reconcile_abandoned_requests` of localbench/gateway.py leave in the ledger.
use localbench.Base.{
  ℕ, String, false, [], ◌∷◌, ◌++◌, ◌==◌, ◌≡◌, refl, find, delete, if◌then◌else◌, arith, eq_refl,
  eq_iff, some, none, Option, on_some, delete-none, find-none, find_sound, find-update_key, inl,
  inr, ◌⊎◌,
}
use localbench.Gateway.Store.{Store, ActiveRequest, ok, busy, lease_of, requests_max_rows}
use localbench.Gateway.Completion.{
  Ending, drop_request, ended_row, close_request, finish_row, finish_found, idle_lease, idle_from,
  refuse_request, refused_row,
}
use localbench.Gateway.Completion.Eviction.{IsBounded, evict_requests-bounded}

module _ (row : ActiveRequest) (e : Ending) (now : ℕ) (s : Store) {t : Store}
    (closed : close_request row e now s ≡ ok t) where
  closed-eq : t ≡ idle_lease row.model e now (drop_request row e now s)
  closed-eq = ground arith

  active-closed : t.active ≡ delete (λ a. a.request_id == row.request_id) s.active
  active-closed = ground (arith, closed-eq)

  closed-IsBounded : IsBounded now t
  closed-IsBounded = ground (
    arith,
    closed-eq,
    evict_requests-bounded requests_max_rows now (s.requests ++ ended_row row e now ∷ []),
  )

  lease-closed : lease_of t row.model ≡ (
      if busy t row.model
      then lease_of s row.model
      else on_some (idle_from e now) (lease_of s row.model))
  lease-closed = ground (
    arith,
    closed-eq,
    eq_refl row.model,
    find-update_key (λ l. l.model) (idle_from e now) row.model row.model s.leases (λ l. refl),
  )

  other-closed : (m : String) → (row.model == m) ≡ false → lease_of t m ≡ lease_of s m
  other-closed m h = ground (
    arith,
    closed-eq,
    find-update_key (λ l. l.model) (idle_from e now) row.model m s.leases (λ l. refl),
  )

finish_found-eq :
    (o : Option ActiveRequest) (e : Ending) (now : ℕ) (s t : Store)
    → finish_found o e now s ≡ ok t
    → (o ≡ none) × (t ≡ s)
      ⊎ ((row : ActiveRequest) × (o ≡ some row) × (close_request row e now s ≡ ok t))
finish_found-eq none e now s t h = inl (refl, ground arith)
finish_found-eq (some row) e now s t h = inr (row, refl, h)

-- A finished request is no longer admitted, and no other request is touched.
pub active-finish_row :
    (request_id : String) (e : Ending) (now : ℕ) (s t : Store)
    → finish_row request_id e now s ≡ ok t
    → t.active ≡ delete (λ a. a.request_id == request_id) s.active
unfolding finish_row
active-finish_row request_id e now s t h =
    let p = λ (a : ActiveRequest). a.request_id == request_id in
    elim (finish_found-eq (find p s.active) e now s t h) [
      | inl (missing, same) ↦ ground (arith, delete-none p s.active (find-none p s.active missing))
      | inr (row, found, closed) ↦
          let named = (eq_iff row.request_id request_id).0 (find_sound p s.active row found) in
          rw (← named) (active-closed row e now s closed)
    ]

-- Finishing an admitted request ends it: it leaves the table of admitted requests, the others stay, the
-- table of requests is within its bounds, the lease of its model starts to idle unless another request
-- is admitted for the model, and the leases of other models stay.
pub finish_row-ends :
    (request_id : String) (row : ActiveRequest) (e : Ending) (now : ℕ) (s t : Store)
    → find (λ a. a.request_id == request_id) s.active ≡ some row
    → finish_row request_id e now s ≡ ok t
    → (t.active ≡ delete (λ a. a.request_id == request_id) s.active)
      × IsBounded now t
      × (lease_of t row.model ≡ (
          if busy t row.model
          then lease_of s row.model
          else on_some (idle_from e now) (lease_of s row.model)))
      × ((m : String) → (row.model == m) ≡ false → lease_of t m ≡ lease_of s m)
unfolding finish_row
finish_row-ends request_id row e now s t found h =
    let closed : close_request row e now s ≡ ok t = rw found at h in
    (
      active-finish_row request_id e now s t h,
      closed-IsBounded row e now s closed,
      lease-closed row e now s closed,
      other-closed row e now s closed,
    )

-- A recorded refusal keeps the table of requests within its bounds and changes nothing else.
pub refuse_request-IsBounded :
    (request_id profile model purpose reason : String) (now : ℕ) (s t : Store)
    → refuse_request request_id profile model purpose reason now s ≡ ok t
    → IsBounded now t × (t.active ≡ s.active) × (t.leases ≡ s.leases) × (t.fences ≡ s.fences)
unfolding refuse_request
refuse_request-IsBounded request_id profile model purpose reason now s t h = ground (
  arith,
  evict_requests-bounded requests_max_rows now
      (s.requests ++ refused_row request_id profile model purpose reason now ∷ []),
)

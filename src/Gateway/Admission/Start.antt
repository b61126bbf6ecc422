-- ===== src/Gateway/Admission/Start.antt =====
-- What an admitted request shows: `start_request` of localbench/gateway.py.
use localbench.Base.{
  ℕ, String, true, false, ◌||◌, some, List, [], ◌∷◌, ◌==◌, ◌≡◌, refl, any, if◌then◌else◌, arith,
  any-append, find-upsert_key, or_new,
}
use localbench.Gateway.Store.{
  Store, ActiveRequest, ParkFence, ok, busy, has_fence, lease_of, is_external,
}
use localbench.Gateway.Admission.{
  Request, start_request, unload_pending, accepting, is_fenced, is_unregistered, new_request,
  lease_request, admit, has_request, new_lease, renew_lease,
}

any_all-false :
    (m : String) (fs : List ParkFence)
    → any (λ f. true) fs ≡ false
    → any (λ f. f.model == m) fs ≡ false
any_all-false m [] h = refl
any_all-false m (f ∷ fs) h = cc

module _ (r : Request) (request_id instance_id : String) (pid now : ℕ) (s : Store) {t : Store}
    (started : start_request r request_id instance_id pid now s ≡ ok t) where
  abbrev row : ActiveRequest
  row = new_request r request_id instance_id pid now

  pub start-eq : t ≡ admit row (lease_request r.profile r.model now s)
  unfolding start_request
  start-eq = ground arith

  pub start-accepting : accepting s ≡ true
  unfolding start_request accepting
  start-accepting = ground arith

  pub start-unfenced : is_fenced s r.profile r.model ≡ false
  unfolding start_request
  start-unfenced = ground arith

  pub start-registered : is_unregistered s r.profile ≡ false
  unfolding start_request
  start-registered = ground arith

  pub start-not_pending : unload_pending (lease_of s r.model) ≡ false
  unfolding start_request
  start-not_pending = ground arith

  pub start-fresh_id : has_request s request_id ≡ false
  unfolding start_request
  start-fresh_id = ground arith

  pub start-no_fence : has_fence s r.model ≡ false
  start-no_fence = ground (arith, any_all-false r.model s.fences, start-unfenced)

  pub busy-start : (m : String) → busy t m ≡ (busy s m || r.model == m)
  busy-start m = ground (arith, start-eq, any-append (λ a. a.model == m) s.active (row ∷ []))

  pub fences-start : t.fences ≡ s.fences
  fences-start = ground (arith, start-eq)

  -- An external profile leaves the leases, any other renews or makes that of its model.
  pub lease_of-start :
      (m : String)
      → lease_of t m ≡ (
          if is_external r.profile
          then lease_of s m
          else if r.model == m
          then some (or_new renew_lease (new_lease r.model) (lease_of s m))
          else lease_of s m)
  lease_of-start m =
      ground
        (arith, start-eq, find-upsert_key (λ l. l.model) renew_lease (new_lease r.model) m s.leases)

  pub leases-start : t.leases ≡ (lease_request r.profile r.model now s).leases
  leases-start = ground (arith, start-eq)

-- ===== src/Gateway/Safety.antt =====
-- The exclusions that localbench/gateway.py keeps between admitted requests, park fences and unloads.
pub mod Closing
pub mod Restart
pub mod Steps
pub mod Moves
use localbench.Base.{ℕ, String, true, false, ◌≡◌, arith, eq_iff}
use localbench.Gateway.Store.{Store, ok, busy, has_fence, lease_of}
use localbench.Gateway.Admission.{Request, start_request, unload_pending}
use localbench.Gateway.Admission.Start.{
  start-no_fence, start-not_pending, busy-start, fences-start, lease_of-start,
}

-- No model with a fence, and none whose unload is in progress, has an admitted request.
pub record IsSafe (s : Store) : Type 0 where
  pub fence_idle : (m : String) → has_fence s m ≡ true → busy s m ≡ false
  pub unload_idle : (m : String) → unload_pending (lease_of s m) ≡ true → busy s m ≡ false

module _ (r : Request) (request_id instance_id : String) (pid now : ℕ) (s : Store) {t : Store}
    (started : start_request r request_id instance_id pid now s ≡ ok t) (v : IsSafe s) where
  start-fence_idle : (m : String) → has_fence t m ≡ true → busy t m ≡ false
  start-fence_idle m h = ground (
    arith,
    v.fence_idle m,
    busy-start r request_id instance_id pid now s started m,
    start-no_fence r request_id instance_id pid now s started,
    fences-start r request_id instance_id pid now s started,
    eq_iff r.model m,
  )

  start-unload_idle : (m : String) → unload_pending (lease_of t m) ≡ true → busy t m ≡ false
  start-unload_idle m h = ground (
    arith,
    v.unload_idle m,
    busy-start r request_id instance_id pid now s started m,
    start-not_pending r request_id instance_id pid now s started,
    lease_of-start r request_id instance_id pid now s started m,
    eq_iff r.model m,
  )

  pub start_request-IsSafe : IsSafe t
  start_request-IsSafe = record { fence_idle = start-fence_idle; unload_idle = start-unload_idle }

-- ===== src/Gateway/Safety/Steps.antt =====
-- The ledger of localbench/gateway.py under every order of its operations. Each transaction is one step,
-- so the steps of concurrent requests, sweeps and commands interleave as SQLite serialises them.
use localbench.Base.{ℕ, ℤ, String, Bool, true, Option, List, ◌≡◌, ◌≢◌, refl, arith}
use localbench.Gateway.Store.{Store, Profile, ok, fresh}
use localbench.Gateway.Admission.{
  Request, start_request, acquire_park_fence, release_park_fence, set_profiles, set_accepting,
}
use localbench.Gateway.Completion.{
  Ending, finish_request, reconcile_abandoned_requests, mark_first_byte, refuse_request,
}
use localbench.Gateway.Residency.{
  set_manual_lease, clear_manual_lease, claim_due, mark_result, mark_unmanaged, recover_instance,
  recover_stale,
}
use localbench.Gateway.Safety.{IsSafe, start_request-IsSafe}
use localbench.Gateway.Safety.Closing.{finish_request-IsSafe, reconcile-IsSafe}
use localbench.Gateway.Safety.Moves.{
  release-IsSafe, first_byte-IsSafe, keep-IsSafe, clear-IsSafe, mark-IsSafe, claim-IsSafe,
  unmanage-IsSafe,
}
use localbench.Gateway.Safety.Restart.{
  recover_instance-IsSafe, recover_stale-IsSafe, acquire-IsSafe,
}

-- `mark` is called with the outcomes of `expire_due` and of `mark_unloaded`, never with 'unload_pending'.
pub data Step (s : Store) (t : Store) : Type 0 where
  accept : (b : Bool) → t ≡ set_accepting b s → Step s t
  register : (ps : List Profile) → t ≡ set_profiles ps s → Step s t
  start :
      (r : Request) (request_id instance_id : String) (pid now : ℕ)
      → start_request r request_id instance_id pid now s ≡ ok t
      → Step s t
  finish :
      (vacuumed : Bool) (request_id : String) (e : Ending) (now : ℕ)
      → t ≡ (finish_request vacuumed request_id e now s).1
      → Step s t
  reconcile :
      (show : ℕ → String) (alive : ℕ → Option Bool) (vacuumed : Bool) (connections : Option ℤ)
      (now : ℕ)
      → t ≡ (reconcile_abandoned_requests show alive vacuumed connections now s).1
      → Step s t
  first_byte : (request_id : String) (now : ℕ) → t ≡ mark_first_byte request_id now s → Step s t
  refuse :
      (request_id profile model purpose reason : String) (now : ℕ)
      → refuse_request request_id profile model purpose reason now s ≡ ok t
      → Step s t
  fence :
      (models : List String) (fence_id : String) (now : ℕ) (r : Option String)
      → acquire_park_fence models fence_id now s ≡ ok (r, t)
      → Step s t
  unfence : (fence_id : String) → t ≡ release_park_fence fence_id s → Step s t
  keep :
      (model : String) (expires_at now : ℕ)
      → set_manual_lease model expires_at now s ≡ ok t
      → Step s t
  clear : (model : String) → t ≡ clear_manual_lease model s → Step s t
  claim : (now : ℕ) → t ≡ (claim_due now s).1 → Step s t
  mark :
      (model outcome : String) (detail : Option String) (now : ℕ)
      → outcome ≢ "unload_pending"
      → t ≡ mark_result model outcome detail now s
      → Step s t
  unmanage : t ≡ mark_unmanaged s → Step s t
  recover :
      (instance_id : String) (now n : ℕ)
      → recover_instance instance_id true now s ≡ ok (n, t)
      → Step s t
  recover_all : (current : String) (now : ℕ) → t ≡ (recover_stale current now s).1 → Step s t

pub data Reach (s : Store) : Store → Type 0 where
  here : Reach s s
  next : {t u : Store} → Reach s t → Step t u → Reach s u

Step-IsSafe : (s t : Store) → Step s t → IsSafe s → IsSafe t
unfolding set_accepting set_profiles refuse_request
Step-IsSafe s t (accept b e) v =
    rw e (record { fence_idle = v.fence_idle; unload_idle = v.unload_idle })
Step-IsSafe s t (register ps e) v =
    rw e (record { fence_idle = v.fence_idle; unload_idle = v.unload_idle })
Step-IsSafe s t (start r id i pid now e) v = start_request-IsSafe r id i pid now s e v
Step-IsSafe s t (finish vac id x now e) v = rw e (finish_request-IsSafe vac id x now s v)
Step-IsSafe s t (reconcile show alive vac c now e) v =
    rw e (reconcile-IsSafe show alive vac c now s v)
Step-IsSafe s t (first_byte id now e) v = rw e (first_byte-IsSafe id now s v)
Step-IsSafe s t (refuse id p m u why now e) v = record {
  fence_idle = λ n h. ground (arith, v.fence_idle n);
  unload_idle = λ n h. ground (arith, v.unload_idle n);
}
Step-IsSafe s t (fence ms id now r e) v = acquire-IsSafe ms id now s t r e v
Step-IsSafe s t (unfence id e) v = rw e (release-IsSafe id s v)
Step-IsSafe s t (keep m x now e) v = keep-IsSafe m x now s t e v
Step-IsSafe s t (clear m e) v = rw e (clear-IsSafe m s v)
Step-IsSafe s t (claim now e) v = rw e (claim-IsSafe now s v)
Step-IsSafe s t (mark m o d now h e) v = rw e (mark-IsSafe m o d now s h v)
Step-IsSafe s t (unmanage e) v = rw e (unmanage-IsSafe s v)
Step-IsSafe s t (recover id now n e) v = recover_instance-IsSafe id now n s t e v
Step-IsSafe s t (recover_all c now e) v = rw e (recover_stale-IsSafe c now s v)

fresh-IsSafe : IsSafe fresh
fresh-IsSafe = record { fence_idle = λ m h. refl; unload_idle = λ m h. refl }

-- From a new database, after any operations in any order, no fenced model and no model whose unload is
-- in progress has an admitted request.
pub Reach-IsSafe : (s : Store) → Reach fresh s → IsSafe s
Reach-IsSafe s here = fresh-IsSafe
Reach-IsSafe s (next {t} r st) = Step-IsSafe t s st (Reach-IsSafe t r)

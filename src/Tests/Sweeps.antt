-- ===== src/Tests/Sweeps.antt =====
-- The sweeps of localbench/gateway.py on a small ledger: runs, and the theorems at concrete states.
use localbench.Base.{
  ◌*◌, String, true, none, some, List, [], ◌∷◌, ◌≡◌, refl, if◌then◌else◌, on_some, on_row, IsUnique,
  ◌==◌,
}
use localbench.Gateway.Store.{Store, Lease, fresh, second, lease_of, busy}
use localbench.Gateway.Residency.{claim_due, claim_each, is_settled, mark_result}
use localbench.Gateway.Residency.Claim.{claim_due-exact, names, is_unloadable}
use localbench.Gateway.Policy.{Backend, expire_one, expire_each, expire_due}
use localbench.Gateway.Policy.Sweep.{expire_one-confirms}
use localbench.Gateway.Policy.Settled.{IsSwept, expire_due-settles}

abbrev idle_lease_row : String → Lease
idle_lease_row model = record {
  model = model;
  last_completed_at = some (12 * second);
  idle_expires_at = some (312 * second);
  manual_expires_at = none;
  last_outcome = some "completed";
  last_error = none;
  next_retry_at = none;
}

abbrev idle : Store
idle = record fresh { leases = idle_lease_row "qwen" ∷ idle_lease_row "gemma" ∷ [] }

abbrev distinct_models : IsUnique (λ (l : Lease). l.model) idle.leases
distinct_models = (refl, (refl, tt))

claim_due-exact_example :
    (lease_of (claim_due (312 * second) idle).1 "gemma"
      ≡ on_some
          (λ l.
            if is_unloadable (312 * second) idle l
            then record l { last_outcome = some "unload_pending"; last_error = none }
            else l)
          (lease_of idle "gemma"))
    × (names "gemma" (claim_due (312 * second) idle).0
        ≡ on_row
            (λ (l : Lease). l.model)
            (is_unloadable (312 * second) idle)
            (lease_of idle "gemma"))
    × (busy (claim_due (312 * second) idle).1 "gemma" ≡ busy idle "gemma")
claim_due-exact_example = claim_due-exact (312 * second) idle "gemma" distinct_models

-- The world is the list of resident models: an unload removes its model, and only `qwen` is probed safe.
abbrev server : Backend (List String)
server = record {
  external_check = λ model w. (some (some (model == "qwen"), some "omp is active"), w);
  resident_models = λ w. (some w, w);
  unload = λ model w. (true, []);
}

expire_run :
    (expire_due server (312 * second) idle ("qwen" ∷ [])).0
    ≡ record { model = "gemma"; outcome = "deferred"; reason = some "omp is active" }
      ∷ record { model = "qwen"; outcome = "unloaded_confirmed"; reason = none }
      ∷ []
unfolding expire_due expire_each expire_one claim_due claim_each is_settled mark_result
expire_run = refl

expire_one-confirms_example :
    (((expire_one server "qwen" ("qwen" ∷ [])).0.0 == "unloaded_confirmed") ≡ true)
    × ((expire_one server "qwen" ("qwen" ∷ [])).1 ≡ [])
expire_one-confirms_example = expire_one-confirms server "qwen" ("qwen" ∷ [])

expire_due-settles_example :
    IsSwept
      (312 * second)
      idle
      (names "gemma" (claim_due (312 * second) idle).0)
      (expire_due server (312 * second) idle ("qwen" ∷ [])).1
      "gemma"
expire_due-settles_example =
    expire_due-settles server (312 * second) idle ("qwen" ∷ []) distinct_models "gemma"

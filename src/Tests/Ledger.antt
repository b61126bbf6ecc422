-- ===== src/Tests/Ledger.antt =====
-- The ledger of localbench/gateway.py on a small history: runs, and the theorems at concrete states.
use localbench.Base.{
  ◌||◌, length, select, ℕ, ◌+◌, ◌*◌, pos, String, Bool, true, false, not, ◌||◌, ◌&&◌, Option, none,
  some, List, [], ◌∷◌, ◌≡◌, ◌≢◌, refl, if◌then◌else◌, any, all, delete, on_some, length, ◌≤◌, ◌==◌,
}
use localbench.Gateway.Store.{
  has_fence, Store, Lease, ActiveRequest, RequestRow, ParkFence, fresh, second, ok, busy, has_fence,
  lease_of, requests_retention, has_nul, is_bad_name, is_bad_label,
}
use localbench.Gateway.Admission.{
  Request, start_request, acquire_park_fence, release_park_fence, accepting, unload_pending,
  fence_refusal,
}
use localbench.Gateway.Admission.Fences.{acquire-fences_all, release-acquire, names_model}
use localbench.Gateway.Completion.{
  Ending, finish_request, finish_row, reconcile_abandoned_requests, evict_over, evict_requests,
  vacuum, refuse_request, finish_all, idle_from,
}
use localbench.Gateway.Completion.Eviction.{IsBounded, is_recent, evict_requests-bounded}
use localbench.Gateway.Completion.Finish.{finish_row-ends}
use localbench.Gateway.Completion.Reconcile.{is_abandoned, reconcile-ends, has_id}
use localbench.Gateway.Residency.{claim_due, claim_each, is_settled, recover_stale, owned_by}
use localbench.Gateway.Residency.Restart.{recover_stale-clears}
use localbench.Gateway.Safety.{IsSafe}
use localbench.Gateway.Safety.Steps.{Reach, here, next, start, finish, claim, Reach-IsSafe}

abbrev request : Request
request = record { profile = ""; model = "qwen"; purpose = "main"; feature = "" }

abbrev completed : Ending
completed = record { completed = true; outcome = "completed"; abandon_reason = none }

abbrev row : ActiveRequest
row = record {
  request_id = "r1";
  model = "qwen";
  profile = "";
  started_at = 10 * second;
  owner_pid = 7;
  instance_id = "g1";
  purpose = "main";
  feature = "";
  first_byte_at = none;
}

abbrev lease_row : Lease
lease_row = record {
  model = "qwen";
  last_completed_at = none;
  idle_expires_at = none;
  manual_expires_at = none;
  last_outcome = none;
  last_error = none;
  next_retry_at = none;
}

-- The ledger after `r1` is admitted at 10 s by the instance `g1`.
abbrev working : Store
working = record fresh {
  leases = lease_row ∷ [];
  lease_profiles = record { model = "qwen"; profile = ""; last_seen_at = 10 * second } ∷ [];
  active = row ∷ [];
}

start_run : start_request request "r1" "g1" 7 (10 * second) fresh ≡ ok working
unfolding start_request accepting is_bad_name is_bad_label has_nul
start_run = refl

-- It completes at 12 s, and 300 s later its lease is claimed.
abbrev finished : Store
finished = (finish_request false "r1" completed (12 * second) working).1

abbrev claimed : Store
claimed = (claim_due (312 * second) finished).1

claim_run : (claim_due (312 * second) finished).0 ≡ "qwen" ∷ []
unfolding claim_due claim_each is_settled finish_request finish_row vacuum evict_requests evict_over
claim_run = refl

claim_early : (claim_due (311 * second) finished).0 ≡ []
unfolding claim_due claim_each is_settled finish_request finish_row vacuum evict_requests evict_over
claim_early = refl

abbrev history : Reach fresh claimed
history =
    next
      (next (next here (start request "r1" "g1" 7 (10 * second) start_run))
        (finish false "r1" completed (12 * second) refl))
      (claim (312 * second) refl)

Reach-IsSafe_example : IsSafe claimed
Reach-IsSafe_example = Reach-IsSafe claimed history

abbrev fence_row : ParkFence
fence_row = record { model = "gemma"; fence_id = "f1"; created_at = 20 * second }

abbrev parked : Store
parked = record working { fences = fence_row ∷ [] }

fence_run :
    acquire_park_fence ("gemma" ∷ "gemma" ∷ []) "f1" (20 * second) working ≡ ok (none, parked)
unfolding acquire_park_fence fence_refusal is_bad_name has_nul
fence_run = refl

acquire-fences_all_example :
    ((i : String)
      → any (λ f. f.model == "gemma" && f.fence_id == i) parked.fences ≡ (
          any (λ f. f.model == "gemma" && f.fence_id == i) working.fences
          || names_model "gemma" ("gemma" ∷ "gemma" ∷ []) && "f1" == i))
    × (has_fence parked "gemma"
        ≡ (has_fence working "gemma" || names_model "gemma" ("gemma" ∷ "gemma" ∷ [])))
    × (busy parked "gemma" ≡ busy working "gemma")
    × ((names_model "gemma" ("gemma" ∷ "gemma" ∷ [])
          && (busy working "gemma" || has_fence working "gemma"))
        ≡ false)
acquire-fences_all_example =
    acquire-fences_all ("gemma" ∷ "gemma" ∷ []) "f1" (20 * second) working parked fence_run "gemma"

refusal_run :
    acquire_park_fence ("gemma" ∷ "qwen" ∷ []) "f1" (20 * second) working
    ≡ ok (some "gateway request is in flight for this model: qwen", working)
unfolding acquire_park_fence fence_refusal is_bad_name has_nul
refusal_run = refl

abbrev fence_name : String
fence_name = "f1"

named : fence_name ≢ ""
named h = cc

release-acquire_example : release_park_fence "f1" parked ≡ working
release-acquire_example =
    release-acquire ("gemma" ∷ "gemma" ∷ []) "f1" (20 * second) working parked fence_run refl named

abbrev ended : Store
ended = record working {
  leases = idle_from completed (12 * second) lease_row ∷ [];
  active = [];
  purpose_stats =
      record { profile = ""; purpose = "main"; bucket_start = 0; requests = 1; busy_s = 2 * second }
      ∷ [];
  requests =
      record {
        request_id = "r1";
        profile = "";
        purpose = "main";
        model = "qwen";
        started_at = 10 * second;
        first_byte_at = none;
        ended_at = 12 * second;
        status = "completed";
        feature = "";
        abandon_reason = none;
      }
      ∷ [];
}

finish_run : finish_row "r1" completed (12 * second) working ≡ ok ended
unfolding finish_row evict_requests evict_over
finish_run = refl

finish_row-ends_example :
    (ended.active ≡ delete (λ a. a.request_id == "r1") working.active)
    × IsBounded (12 * second) ended
    × (lease_of ended "qwen" ≡ (
        if busy ended "qwen"
        then lease_of working "qwen"
        else on_some (idle_from completed (12 * second)) (lease_of working "qwen")))
    × ((m : String) → ("qwen" == m) ≡ false → lease_of ended m ≡ lease_of working m)
finish_row-ends_example =
    finish_row-ends "r1" row completed (12 * second) working ended refl finish_run

abbrev old_row : ℕ → String → RequestRow
old_row ended_at request_id = record {
  request_id = request_id;
  profile = "";
  purpose = "main";
  model = "qwen";
  started_at = 0;
  first_byte_at = none;
  ended_at = ended_at;
  status = "completed";
  feature = "";
  abandon_reason = none;
}

abbrev three_rows : List RequestRow
three_rows = old_row 9 "b" ∷ old_row 5 "c" ∷ old_row 0 "a" ∷ []

evict_run : evict_requests 1 (requests_retention + 1) three_rows ≡ old_row 9 "b" ∷ []
unfolding evict_requests evict_over
evict_run = refl

evict_requests-bounded_example :
    (length (evict_requests 1 (requests_retention + 1) three_rows) ≤ 1)
    × (all
          (is_recent (requests_retention + 1))
          (evict_requests 1 (requests_retention + 1) three_rows)
        ≡ true)
evict_requests-bounded_example = evict_requests-bounded 1 (requests_retention + 1) three_rows

abbrev refused : Store
refused = record fresh {
  requests =
      record {
        request_id = "r2";
        profile = "";
        purpose = "unspecified";
        model = "qwen";
        started_at = 30 * second;
        first_byte_at = none;
        ended_at = 30 * second;
        status = "draining";
        feature = "";
        abandon_reason = none;
      }
      ∷ [];
}

refuse_run : refuse_request "r2" "" "qwen" "" "gateway is draining" (30 * second) fresh ≡ ok refused
unfolding refuse_request evict_requests evict_over
refuse_run = refl

-- Every process is gone, and a process id is written as `7`.
abbrev show : ℕ → String
show pid = "7"

abbrev gone : ℕ → Option Bool
gone pid = some false

abbrev unknown : ℕ → Option Bool
unknown pid = none

abbrev swept : Store
swept = (reconcile_abandoned_requests show gone false none (40 * second) working).1

reconcile_run :
    reconcile_abandoned_requests show gone false none (40 * second) working ≡ (ok 1, swept)
unfolding reconcile_abandoned_requests finish_all finish_request finish_row vacuum evict_requests
    evict_over
reconcile_run = refl

reconcile-ends_example :
    (any (has_id "r1") swept.active ≡ (
      any (has_id "r1") working.active
      && not (any (λ a. is_abandoned gone none a && has_id "r1" a) working.active)))
    × (1 ≡ length (select (is_abandoned gone none) working.active))
reconcile-ends_example =
    reconcile-ends show gone false none (40 * second) 1 working swept reconcile_run "r1"

abbrev alone : Store
alone = (reconcile_abandoned_requests show unknown false (some (pos 0)) (40 * second) working).1

alone_run :
    reconcile_abandoned_requests show unknown false (some (pos 0)) (40 * second) working
    ≡ (ok 1, alone)
unfolding reconcile_abandoned_requests finish_all finish_request finish_row vacuum evict_requests
    evict_over
alone_run = refl

recover_stale-clears_example :
    (any (owned_by "g1") (recover_stale "g2" (50 * second) working).1.active
      ≡ (any (owned_by "g1") working.active && "g2" == "g1"))
    × (unload_pending (lease_of (recover_stale "g2" (50 * second) working).1 "qwen") ≡ false)
recover_stale-clears_example = recover_stale-clears "g2" (50 * second) working "g1" "qwen"

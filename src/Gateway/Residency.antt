-- ===== src/Gateway/Residency.antt =====
-- Residency in localbench/gateway.py: manual leases, the claim of due leases, the result of an unload,
-- the views of a lease, and the recovery after a restart.
pub mod Claim
pub mod Restart
use localbench.Base.{
  cut, ℕ, zero, suc, ◌+◌, max, String, Bool, true, not, ◌&&◌, ◌||◌, Option, none, some, List, [],
  ◌∷◌, map, ◌==◌, any, select, delete, update, upsert, sort, sorted_set, le_text, leb,
  if◌then◌else◌, is_some, holds, length,
}
use localbench.Gateway.Store.{
  Store, Lease, ActiveRequest, Result, ok, err, ◌>>◌, raise_if, manual_expiry_invalid, keep_refused,
  death_unproven, idle_seconds, retry_seconds, busy, lease_of,
}
use localbench.Gateway.Admission.{new_lease, unload_pending}

abbrev pub kept_until : ℕ → Lease → Lease
kept_until expires_at l = record l {
  manual_expires_at = some expires_at;
  last_outcome = none;
  last_error = none;
  next_retry_at = none;
}

-- Times are finite here, so of the guard on the expiry the order is left.
unfoldable pub set_manual_lease : String → ℕ → ℕ → Store → Result Store
set_manual_lease model expires_at now s = do
  raise_if (model == "" || leb expires_at now) manual_expiry_invalid
  raise_if (unload_pending (lease_of s model)) keep_refused
  ok (record s {
    leases =
        upsert (λ l. l.model == model) (kept_until expires_at)
          (kept_until expires_at (new_lease model)) s.leases;
  })

abbrev pub not_kept : Lease → Lease
not_kept l = record l { manual_expires_at = none }

unfoldable pub clear_manual_lease : String → Store → Store
clear_manual_lease model s = record s { leases = update (λ l. l.model == model) not_kept s.leases }

unfoldable pub active_requests : Option String → Store → ℕ
active_requests none s = length s.active
active_requests (some model) s = length (select (λ a. a.model == model) s.active)

abbrev or_zero : Option ℕ → ℕ
or_zero none = 0
or_zero (some t) = t

-- `t IS NULL OR t <= now`
abbrev passed : Option ℕ → ℕ → Bool
passed none now = true
passed (some t) now = leb t now

-- COALESCE(last_outcome,'') IN (…)
unfoldable pub is_settled : Option String → Bool
is_settled o =
    holds o "unload_pending"
    || holds o "unloaded_confirmed"
    || holds o "not_resident_confirmed"
    || holds o "unmanaged_on_remove"

abbrev pub is_expired : Lease → ℕ → Bool
is_expired l now =
    (is_some l.idle_expires_at || is_some l.manual_expires_at)
    && leb (max (or_zero l.idle_expires_at) (or_zero l.manual_expires_at)) now

abbrev pub is_due : ℕ → Store → Lease → Bool
is_due now s l =
    is_expired l now
    && passed l.next_retry_at now
    && not (is_settled l.last_outcome)
    && not (busy s l.model)

-- ORDER BY l.model
abbrev pub due_models : ℕ → Store → List String
due_models now s =
    map (λ l. l.model) (sort (λ l m. le_text l.model m.model) (select (is_due now s) s.leases))

abbrev pub claim : Lease → Lease
claim l = record l { last_outcome = some "unload_pending"; last_error = none }

abbrev pub claimable : String → Lease → Bool
claimable model l = l.model == model && not (is_settled l.last_outcome)

-- The loop over the selected rows: a model is claimed if its UPDATE changed a row.
unfoldable pub claim_each : List String → List Lease → List String × List Lease
claim_each [] leases = ([], leases)
claim_each (model ∷ models) leases =
    let (claimed, rest) = claim_each models (update (claimable model) claim leases) in
    (if any (claimable model) leases then model ∷ claimed else claimed, rest)

unfoldable pub claim_due : ℕ → Store → List String × Store
unfolding claim_each
claim_due now s =
    let (claimed, leases) = claim_each (due_models now s) s.leases in
    (claimed, record s { leases = leases })

-- `text or None`
abbrev pub none_if_empty : String → Option String
none_if_empty t = if t == "" then none else some t

-- `(detail or "")[:500]`
abbrev safe_detail : Option String → String
safe_detail none = ""
safe_detail (some t) = cut 500 t

abbrev pub is_retried : String → Bool
is_retried outcome =
    outcome == "deferred" || outcome == "unload_failed" || outcome == "verification_failed"

abbrev pub marked : String → Option String → ℕ → Lease → Lease
marked outcome detail now l = record l {
  last_outcome = some outcome;
  last_error = none_if_empty (safe_detail detail);
  next_retry_at = if is_retried outcome then some (now + retry_seconds) else none;
}

unfoldable pub mark_result : String → String → Option String → ℕ → Store → Store
mark_result model outcome detail now s = record s {
  leases = update (λ l. l.model == model) (marked outcome detail now) s.leases;
}

abbrev pub unmanaged : Lease → Lease
unmanaged l = record l {
  last_outcome = some "unmanaged_on_remove";
  last_error = none;
  next_retry_at = none;
}

unfoldable pub mark_unmanaged : Store → Store
mark_unmanaged s = record s { leases = map unmanaged s.leases }

-- What `lease` reports of a model.
pub record LeaseView : Type 0 where
  pub row : Lease
  pub profiles : List String
  pub active_requests : ℕ

-- An idle lease past its expiry is reported as expired; the table is not changed.
abbrev shown_outcome : ℕ → ℕ → Lease → Option String
shown_outcome active now l =
    if leb active 0
      && is_expired l now
      && (not (is_some l.last_outcome) || holds l.last_outcome "active")
    then some "expired"
    else l.last_outcome

abbrev lease_profiles_of : String → Store → List String
lease_profiles_of model s =
    sort le_text (map (λ r. r.profile) (select (λ r. r.model == model) s.lease_profiles))

unfoldable pub lease : String → ℕ → Store → Option LeaseView
unfolding active_requests
lease model now s = elim (lease_of s model) [
  | none ↦ none
  | some l ↦
      let active = active_requests (some model) s in
      some (record {
        row = record l { last_outcome = shown_outcome active now l };
        profiles = lease_profiles_of model s;
        active_requests = active;
      })
]

abbrev distinct : List String → List String
distinct ts = sorted_set ts

abbrev pub owned_by : String → ActiveRequest → Bool
owned_by instance_id a = a.instance_id == instance_id

abbrev pub interrupted : ℕ → Lease → Lease
interrupted now l = record l {
  idle_expires_at = some (now + idle_seconds);
  last_outcome = some "interrupted_on_restart";
  last_error = some "prior gateway process ended with request in flight";
  next_retry_at = none;
}

unfoldable pub interrupt_each : ℕ → List String → Store → Store
interrupt_each now [] s = s
interrupt_each now (model ∷ models) s = interrupt_each now models (
    if busy s model
    then s
    else record s { leases = update (λ l. l.model == model) (interrupted now) s.leases })

abbrev pub models_of : String → Store → List String
models_of instance_id s = distinct (map (λ a. a.model) (select (owned_by instance_id) s.active))

unfoldable pub recover_instance : String → Bool → ℕ → Store → Result (ℕ × Store)
unfolding interrupt_each
recover_instance instance_id previous_dead now s = do
  raise_if (not previous_dead) death_unproven
  ok (
    length (models_of instance_id s),
    interrupt_each now (models_of instance_id s)
        (record s { active = delete (owned_by instance_id) s.active }),
  )

abbrev pub defer_unload : ℕ → Lease → Lease
defer_unload now l = record l {
  last_outcome = some "deferred";
  last_error = some "gateway restarted during unload; resident state will be rechecked";
  next_retry_at = some now;
}

-- The sum over the old instances; `recover_instance` cannot raise where the death is proven.
unfoldable pub recover_each : ℕ → List String → Store → ℕ × Store
unfolding recover_instance
recover_each now [] s = (0, s)
recover_each now (old ∷ olds) s = elim (recover_instance old true now s) [
  | err e ↦ (0, s)
  | ok (n, t) ↦ let (m, u) = recover_each now olds t in (n + m, u)
]

abbrev pub other_instances : String → Store → List String
other_instances current s = distinct (map (λ a. a.instance_id) (delete (owned_by current) s.active))

unfoldable pub recover_stale : String → ℕ → Store → ℕ × Store
unfolding recover_each
recover_stale current now s =
    let (recovered, t) = recover_each now (other_instances current s) s in
    (
      recovered,
      record t {
        leases = update (λ l. holds l.last_outcome "unload_pending") (defer_unload now) t.leases;
      },
    )

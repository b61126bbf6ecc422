-- ===== src/Gateway/Completion.antt =====
-- Completion in localbench/gateway.py: `finish_request` with its statistics and its bounded table of
-- requests, `reconcile_abandoned_requests`, `mark_first_byte` and `refuse_request`.
pub mod Eviction
pub mod Finish
pub mod Reconcile
use text.Mathlib.Text.{find?}
use localbench.Base.{
  ℕ, zero, ◌+◌, ◌-◌, ◌*◌, ◌/◌, String, Bool, true, false, ◌&&◌, ◌||◌, Option, none, some, List, [],
  ◌∷◌, ◌++◌, ◌==◌, any, find, delete, update, upsert, sort, le_text, ltb, leb, eqb, concat,
  if◌then◌else◌, is_some, or_text, take, length, ℤ, pos, is_negative,
}
use localbench.Gateway.Store.{
  Store, Lease, ActiveRequest, PurposeStat, RequestRow, Result, ok, err, integrity,
  negative_connections, requests_retention, requests_max_rows, vacuum_interval, idle_seconds, hour,
  busy,
}

-- ORDER BY ended_at, request_id
abbrev pub ended_before : RequestRow → RequestRow → Bool
ended_before a b =
    ltb a.ended_at b.ended_at || eqb a.ended_at b.ended_at && le_text a.request_id b.request_id

-- request_id IN (SELECT …)
abbrev pub listed : List RequestRow → RequestRow → Bool
listed rows r = any (λ q. q.request_id == r.request_id) rows

-- By count: the oldest rows over the limit go.
unfoldable pub evict_over : ℕ → List RequestRow → List RequestRow
evict_over limit rows =
    let over = length rows - limit in
    if ltb 0 over then delete (listed (take over (sort ended_before rows))) rows else rows

-- By age, `ended_at < now - retention`, and then by count.
unfoldable pub evict_requests : ℕ → ℕ → List RequestRow → List RequestRow
unfolding evict_over
evict_requests limit now rows =
    evict_over limit (delete (λ r. ltb (r.ended_at + requests_retention) now) rows)

-- VACUUM once in an interval; `vacuumed` is whether the lock for it was free.
unfoldable pub vacuum : Bool → ℕ → Store → Store
vacuum vacuumed now s =
    let last : ℕ = elim s.requests_vacuum_at [ none ↦ 0 | some t ↦ t ] in
    if leb vacuum_interval (now - last) && vacuumed
    then record s { requests_vacuum_at = some now }
    else s

-- How a request ended.
pub record Ending : Type 0 where
  pub completed : Bool
  pub outcome : String
  pub abandon_reason : Option String

abbrev count_purpose : ActiveRequest → ℕ → List PurposeStat → List PurposeStat
count_purpose row now stats =
    let purpose = or_text row.purpose "unspecified" in
    let bucket = row.started_at / hour * hour in
    let busy_s = now - row.started_at in
    upsert (λ t. t.profile == row.profile && t.purpose == purpose && eqb t.bucket_start bucket)
      (λ t. record t { requests = t.requests + 1; busy_s = t.busy_s + busy_s })
      (record {
        profile = row.profile;
        purpose = purpose;
        bucket_start = bucket;
        requests = 1;
        busy_s = busy_s;
      })
      stats

abbrev pub ended_row : ActiveRequest → Ending → ℕ → RequestRow
ended_row row e now = record {
  request_id = row.request_id;
  profile = row.profile;
  purpose = or_text row.purpose "unspecified";
  model = row.model;
  started_at = row.started_at;
  first_byte_at = row.first_byte_at;
  ended_at = now;
  status = e.outcome;
  feature = row.feature;
  abandon_reason = e.abandon_reason;
}

abbrev pub idle_from : Ending → ℕ → Lease → Lease
idle_from e now l = record l {
  last_completed_at = if e.completed then some now else l.last_completed_at;
  idle_expires_at = some (now + idle_seconds);
  last_outcome = some e.outcome;
  last_error = e.abandon_reason;
  next_retry_at = none;
}

-- The lease starts to idle when no admitted request is left for the model.
abbrev pub idle_lease : String → Ending → ℕ → Store → Store
idle_lease model e now s =
    if busy s model
    then s
    else record s { leases = update (λ l. l.model == model) (idle_from e now) s.leases }

abbrev pub drop_request : ActiveRequest → Ending → ℕ → Store → Store
drop_request row e now s = record s {
  active = delete (λ a. a.request_id == row.request_id) s.active;
  purpose_stats =
      if e.outcome == "abandoned" then s.purpose_stats else count_purpose row now s.purpose_stats;
  requests = evict_requests requests_max_rows now (s.requests ++ ended_row row e now ∷ []);
}

abbrev pub close_request : ActiveRequest → Ending → ℕ → Store → Result Store
close_request row e now s =
    if any (λ q. q.request_id == row.request_id) s.requests
    then err integrity
    else ok (idle_lease row.model e now (drop_request row e now s))

abbrev pub finish_found : Option ActiveRequest → Ending → ℕ → Store → Result Store
finish_found none e now s = ok s
finish_found (some row) e now s = close_request row e now s

-- The transaction of `finish_request`; an unknown id changes nothing.
unfoldable pub finish_row : String → Ending → ℕ → Store → Result Store
finish_row request_id e now s =
    finish_found (find (λ a. a.request_id == request_id) s.active) e now s

-- The vacuum is committed before the transaction, and stays when that raises.
abbrev pub settle : Store → Result Store → Result (Unit {0}) × Store
settle s (ok t) = (ok tt, t)
settle s (err x) = (err x, s)

unfoldable pub finish_request : Bool → String → Ending → ℕ → Store → Result (Unit {0}) × Store
unfolding vacuum finish_row
finish_request vacuumed request_id e now s =
    let s' = vacuum vacuumed now s in settle s' (finish_row request_id e now s')

-- `established_connections == 0`
abbrev pub no_clients : Option ℤ → Bool
no_clients (some (pos zero)) = true
no_clients _ = false

-- `established_connections is not None and established_connections < 0`
abbrev pub below_zero : Option ℤ → Bool
below_zero none = false
below_zero (some n) = is_negative n

-- `_pid_alive(pid) is False`
abbrev pub is_gone : Option Bool → Bool
is_gone (some false) = true
is_gone _ = false

abbrev pub abandon : String → Ending
abandon reason = record { completed = false; outcome = "abandoned"; abandon_reason = some reason }

-- An exception ends the loop.
abbrev pub unless_raised :
    Result (Unit {0}) → Store → Result (Unit {0}) × Store → Result (Unit {0}) × Store
unless_raised (ok _) t next = next
unless_raised (err e) t next = (err e, t)

-- The second loop of `reconcile_abandoned_requests`.
unfoldable pub finish_all : Bool → ℕ → List (String × String) → Store → Result (Unit {0}) × Store
finish_all vacuumed now [] s = (ok tt, s)
finish_all vacuumed now ((request_id, reason) ∷ rest) s =
    let (r, t) = finish_request vacuumed request_id (abandon reason) now s in
    unless_raised r t (finish_all vacuumed now rest t)

abbrev pub count_of : ℕ → Result (Unit {0}) → Result ℕ
count_of n (ok _) = ok n
count_of n (err e) = err e

-- ORDER BY started_at, request_id
abbrev pub started_before : ActiveRequest → ActiveRequest → Bool
started_before a b =
    ltb a.started_at b.started_at
    || eqb a.started_at b.started_at && le_text a.request_id b.request_id

-- `show` writes a process id in decimal, and `alive` is `_pid_alive`.
module _ (show : ℕ → String) (alive : ℕ → Option Bool) where
  -- Why a row counts as abandoned, if it does.
  abbrev pub abandoned_reason : Option ℤ → ActiveRequest → Option String
  abandoned_reason connections row =
      if ltb 0 row.owner_pid && is_gone (alive row.owner_pid)
      then some (concat ("owner gateway pid " ∷ show row.owner_pid ∷ " is gone" ∷ []))
      else if no_clients connections
      then some "no established gateway client connections"
      else none

  abbrev pub abandoned_rows : Option ℤ → List ActiveRequest → List (String × String)
  abandoned_rows connections [] = []
  abandoned_rows connections (row ∷ rows) =
      let rest = abandoned_rows connections rows in
      elim (abandoned_reason connections row) [
        | none ↦ rest
        | some reason ↦ (row.request_id, reason) ∷ rest
      ]

  abbrev reconcile_rows : Bool → Option ℤ → ℕ → Store → Result ℕ × Store
  reconcile_rows vacuumed connections now s =
      let abandoned = abandoned_rows connections (sort started_before s.active) in
      let (r, t) = finish_all vacuumed now abandoned s in (count_of (length abandoned) r, t)

  -- `connections` is the number of established client sockets, where it is known.
  unfoldable pub reconcile_abandoned_requests : Bool → Option ℤ → ℕ → Store → Result ℕ × Store
  unfolding finish_all
  reconcile_abandoned_requests vacuumed connections now s =
      if below_zero connections
      then (err negative_connections, s)
      else reconcile_rows vacuumed connections now s

abbrev pub answered : ℕ → ActiveRequest → ActiveRequest
answered now a = record a { first_byte_at = some now }

unfoldable pub mark_first_byte : String → ℕ → Store → Store
mark_first_byte request_id now s = record s {
  active = update (λ a. a.request_id == request_id) (answered now) s.active;
}

-- `status = "draining" if "draining" in (reason or "") else "refused"`
abbrev pub refusal_status : String → String
refusal_status reason = if is_some (find? reason "draining") then "draining" else "refused"

abbrev pub refused_row : String → String → String → String → String → ℕ → RequestRow
refused_row request_id profile model purpose reason now = record {
  request_id = request_id;
  profile = profile;
  purpose = or_text purpose "unspecified";
  model = model;
  started_at = now;
  first_byte_at = none;
  ended_at = now;
  status = refusal_status reason;
  feature = "";
  abandon_reason = none;
}

unfoldable pub refuse_request :
    String → String → String → String → String → ℕ → Store → Result Store
refuse_request request_id profile model purpose reason now s =
    if any (λ q. q.request_id == request_id) s.requests
    then err integrity
    else ok (record s {
      requests =
          evict_requests requests_max_rows now
            (s.requests ++ refused_row request_id profile model purpose reason now ∷ []);
    })

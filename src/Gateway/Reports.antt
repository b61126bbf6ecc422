-- ===== src/Gateway/Reports.antt =====
-- The reports of localbench/gateway.py: profile_paths, requests_report, leases and purpose_report. They
-- read the ledger and change nothing.
pub mod Totals
use localbench.Base.{
  ℕ, suc, ◌+◌, min, max, ℤ, minus, String, Bool, true, false, not, ◌&&◌, ◌||◌, Option, none, some,
  List, [], ◌∷◌, map, ◌==◌, select, sort, upsert, take, leb, ltb, eqb, lt_text, le_text,
  if◌then◌else◌, holds,
}
use localbench.Gateway.Store.{Store, Profile, RequestRow, PurposeStat, hour}
use localbench.Gateway.Residency.{LeaseView, lease, none_if_empty}

unfoldable pub profile_paths : Store → List Profile
profile_paths s = sort (λ p q. le_text p.name q.name) s.profiles

pub record RequestView : Type 0 where
  pub row : RequestRow
  pub feature : Option String
  pub abandon_reason : Option String
  pub queue_wait_s : Option ℤ
  pub busy_s : Option ℤ

abbrev shown_reason : Option String → Option String
shown_reason none = none
shown_reason (some t) = none_if_empty t

abbrev pub request_view : RequestRow → RequestView
request_view r = record {
  row = r;
  feature = none_if_empty r.feature;
  abandon_reason = shown_reason r.abandon_reason;
  queue_wait_s = elim r.first_byte_at [ none ↦ none | some t ↦ some (minus t r.started_at) ];
  busy_s = if r.status == "abandoned" then none else some (minus r.ended_at r.started_at);
}

-- A filter that is None lets every row pass.
abbrev pub passes : Option String → String → Bool
passes none t = true
passes (some wanted) t = wanted == t

abbrev pub in_report : ℕ → ℕ → Option String → Option String → RequestRow → Bool
in_report since until purpose profile r =
    leb since r.started_at
    && ltb r.started_at until
    && passes purpose r.purpose
    && passes profile r.profile

-- ORDER BY started_at DESC, request_id
abbrev newer : RequestRow → RequestRow → Bool
newer a b =
    ltb b.started_at a.started_at
    || eqb a.started_at b.started_at && le_text a.request_id b.request_id

abbrev pub report_limit : ℕ → ℕ
report_limit limit = max 1 (min limit 5000)

-- A negative limit counts as 0 does.
unfoldable pub requests_report :
    ℕ → ℕ → Option String → Option String → ℕ → Store → List RequestView
requests_report since until purpose profile limit s = map request_view (
    take (report_limit limit)
      (sort newer (select (in_report since until purpose profile) s.requests)))

abbrev lease_views : List String → ℕ → Store → List LeaseView
lease_views [] now s = []
lease_views (model ∷ models) now s =
    let rest = lease_views models now s in
    elim (lease model now s) [ none ↦ rest | some view ↦ view ∷ rest ]

unfoldable pub leases : ℕ → Store → List LeaseView
leases now s = lease_views (sort le_text (map (λ l. l.model) s.leases)) now s

pub record PurposeTotal : Type 0 where
  pub profile : String
  pub purpose : String
  pub requests : ℕ
  pub busy_s : ℕ

abbrev pub in_window : ℕ → ℕ → PurposeStat → Bool
in_window since until t = ltb t.bucket_start until && ltb since (t.bucket_start + hour)

-- GROUP BY profile, purpose with the two sums
abbrev pub add_total : PurposeStat → List PurposeTotal → List PurposeTotal
add_total t totals =
    upsert (λ u. u.profile == t.profile && u.purpose == t.purpose)
      (λ u. record u { requests = u.requests + t.requests; busy_s = u.busy_s + t.busy_s })
      (record {
        profile = t.profile;
        purpose = t.purpose;
        requests = t.requests;
        busy_s = t.busy_s;
      })
      totals

abbrev pub totals_of : List PurposeStat → List PurposeTotal
totals_of [] = []
totals_of (t ∷ ts) = add_total t (totals_of ts)

abbrev by_purpose : PurposeTotal → PurposeTotal → Bool
by_purpose a b =
    lt_text a.profile b.profile || a.profile == b.profile && le_text a.purpose b.purpose

unfoldable pub purpose_report : ℕ → ℕ → Store → List PurposeTotal
purpose_report since until s =
    sort by_purpose (totals_of (select (in_window since until) s.purpose_stats))

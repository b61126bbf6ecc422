-- ===== src/Gateway/Reports/Totals.antt =====
-- What the reports of localbench/gateway.py show of the ledger.
use localbench.Base.{
  Bool-cases, and-eq-true, inl, inr, true, false, any, min, ltb, ◌*◌, ◌<◌, String, ◌==◌, ◌&&◌, max,
  eq_iff, if◌then◌else◌, ℕ, ◌+◌, Bool, List, [], ◌∷◌, ◌≡◌, refl, ◌∙◌, arith, select, sort, insert,
}
use localbench.Gateway.Store.{second, Store, PurposeStat}
use localbench.Gateway.Reports.{PurposeTotal, add_total, totals_of, in_window, purpose_report}

abbrev pub sum : {A : Type 0} → (A → ℕ) → List A → ℕ
sum f [] = 0
sum f (x ∷ xs) = f x + sum f xs

-- The rows of a report, and the buckets, of one profile and purpose.
abbrev pub is_total : String → String → PurposeTotal → Bool
is_total profile purpose u = u.profile == profile && u.purpose == purpose

abbrev pub is_stat : String → String → PurposeStat → Bool
is_stat profile purpose t = t.profile == profile && t.purpose == purpose

sum-select-insert :
    {A : Type 0} (before : A → A → Bool) (q : A → Bool) (f : A → ℕ) (x : A) (xs : List A)
    → sum f (select q (insert before x xs)) ≡ (if q x then f x else 0) + sum f (select q xs)
sum-select-insert before q f x [] = ground arith
sum-select-insert before q f x (y ∷ ys) = ground (arith, sum-select-insert before q f x ys)

sum-select-sort :
    {A : Type 0} (before : A → A → Bool) (q : A → Bool) (f : A → ℕ) (xs : List A)
    → sum f (select q (sort before xs)) ≡ sum f (select q xs)
sum-select-sort before q f [] = refl
sum-select-sort before q f (x ∷ xs) =
    ground (arith, sum-select-insert before q f x (sort before xs), sum-select-sort before q f xs)

module _ (profile purpose : String) where
  same-key :
      (u : PurposeTotal) (t : PurposeStat)
      → (u.profile == t.profile && u.purpose == t.purpose) ≡ true
      → is_total profile purpose u ≡ is_stat profile purpose t
  same-key u t h =
      let (first, second') = and-eq-true {a = u.profile == t.profile} h in
      rw ((eq_iff u.profile t.profile).0 first, (eq_iff u.purpose t.purpose).0 second') refl

  other-key :
      (u : PurposeTotal) (t : PurposeStat)
      → (u.profile == t.profile && u.purpose == t.purpose) ≡ false
      → is_total profile purpose u ≡ true
      → is_stat profile purpose t ≡ false
  other-key u t h hit = ground (
    arith,
    eq_iff u.profile profile,
    eq_iff u.purpose purpose,
    eq_iff t.profile profile,
    eq_iff t.purpose purpose,
    eq_iff u.profile t.profile,
    eq_iff u.purpose t.purpose,
  )

  sum-add_total :
      (t : PurposeStat) (us : List PurposeTotal)
      → (sum (λ u. u.requests) (select (is_total profile purpose) (add_total t us))
          ≡ (if is_stat profile purpose t then t.requests else 0)
            + sum (λ u. u.requests) (select (is_total profile purpose) us))
        × (sum (λ u. u.busy_s) (select (is_total profile purpose) (add_total t us))
            ≡ (if is_stat profile purpose t then t.busy_s else 0)
              + sum (λ u. u.busy_s) (select (is_total profile purpose) us))
        × (sum (λ u. 1) (select (is_total profile purpose) (add_total t us))
            ≡ max
                (if is_stat profile purpose t then 1 else 0)
                (sum (λ u. 1) (select (is_total profile purpose) us)))
  sum-add_total t [] = ground arith
  sum-add_total t (u ∷ us) =
      let (requests, busy, rows) = sum-add_total t us in
      elim (Bool-cases (u.profile == t.profile && u.purpose == t.purpose)) [
        | inl same ↦
            let alike = same-key u t same in
            rw same (elim (Bool-cases (is_stat profile purpose t)) [
              | inl hit ↦
                  let hit_u : is_total profile purpose u ≡ true = alike ∙ hit in
                  rw (hit, hit_u) (omega arith, omega arith, omega arith)
              | inr miss ↦
                  let miss_u : is_total profile purpose u ≡ false = alike ∙ miss in
                  rw (miss, miss_u) (omega arith, omega arith, omega arith)
            ])
        | inr differs ↦ rw differs (elim (Bool-cases (is_total profile purpose u)) [
          | inl hit_u ↦
              let miss = other-key u t differs hit_u in
              rw (hit_u, miss)
                (
                  omega (arith, rw miss at requests),
                  omega (arith, rw miss at busy),
                  omega (arith, rw miss at rows),
                )
          | inr miss_u ↦ rw miss_u (requests, busy, rows)
        ])
      ]

  sum-totals_of :
      (ts : List PurposeStat)
      → (sum (λ u. u.requests) (select (is_total profile purpose) (totals_of ts))
          ≡ sum (λ t. t.requests) (select (is_stat profile purpose) ts))
        × (sum (λ u. u.busy_s) (select (is_total profile purpose) (totals_of ts))
            ≡ sum (λ t. t.busy_s) (select (is_stat profile purpose) ts))
        × (sum (λ u. 1) (select (is_total profile purpose) (totals_of ts))
            ≡ (if any (is_stat profile purpose) ts then 1 else 0))
  sum-totals_of [] = (refl, refl, refl)
  sum-totals_of (t ∷ ts) =
      let added = sum-add_total t (totals_of ts) in
      let rest = sum-totals_of ts in
      (
        ground (arith, added.0, rest.0),
        ground (arith, added.1, rest.1),
        ground (arith, added.2, rest.2),
      )

-- The bucket of an hour and the window have a time in common.
abbrev pub overlaps : ℕ → ℕ → PurposeStat → Bool
overlaps since until t = ltb (max since t.bucket_start) (min until (t.bucket_start + 3600 * second))

in_window-overlaps :
    (since until : ℕ) (t : PurposeStat)
    → since < until
    → in_window since until t ≡ overlaps since until t
in_window-overlaps since until t h = ground arith

select-window :
    (since until : ℕ) (profile purpose : String) (ts : List PurposeStat)
    → since < until
    → select (is_stat profile purpose) (select (in_window since until) ts)
      ≡ select (λ t. is_stat profile purpose t && overlaps since until t) ts
select-window since until profile purpose [] h = refl
select-window since until profile purpose (t ∷ ts) h =
    ground
      (arith, in_window-overlaps since until t h, select-window since until profile purpose ts h)

any-window :
    (since until : ℕ) (profile purpose : String) (ts : List PurposeStat)
    → since < until
    → any (is_stat profile purpose) (select (in_window since until) ts)
      ≡ any (λ t. is_stat profile purpose t && overlaps since until t) ts
any-window since until profile purpose [] h = refl
any-window since until profile purpose (t ∷ ts) h =
    ground (arith, in_window-overlaps since until t h, any-window since until profile purpose ts h)

-- The rows of one profile and purpose, against the buckets that count.
abbrev pub IsTotalled : String → String → (PurposeStat → Bool) → List PurposeTotal → Store → Type 0
IsTotalled profile purpose counts report s =
    (sum (λ u. 1) (select (is_total profile purpose) report)
      ≡ (if any (λ t. is_stat profile purpose t && counts t) s.purpose_stats then 1 else 0))
    × (sum (λ u. u.requests) (select (is_total profile purpose) report)
        ≡ sum (λ t. t.requests)
            (select (λ t. is_stat profile purpose t && counts t) s.purpose_stats))
    × (sum (λ u. u.busy_s) (select (is_total profile purpose) report)
        ≡ sum (λ t. t.busy_s) (select (λ t. is_stat profile purpose t && counts t) s.purpose_stats))

-- In the report of a window that is not empty, a profile and purpose has one row if it has a bucket of an hour
-- that overlaps the window, and none otherwise; and its requests and its busy time are the sums over exactly
-- those buckets.
pub sum-purpose_report :
    (since until : ℕ) (s : Store)
    → since < until
    → (profile purpose : String)
    → IsTotalled profile purpose (overlaps since until) (purpose_report since until s) s
unfolding purpose_report
sum-purpose_report since until s h profile purpose =
    let stats = select (in_window since until) s.purpose_stats in
    let (requests, busy, rows) = sum-totals_of profile purpose stats in
    let window = select-window since until profile purpose s.purpose_stats h in
    (
      sum-select-sort _ (is_total profile purpose) (λ u. 1) (totals_of stats)
          ∙ rows
          ∙ rw (any-window since until profile purpose s.purpose_stats h) refl,
      sum-select-sort _ (is_total profile purpose) (λ u. u.requests) (totals_of stats)
          ∙ requests
          ∙ rw window refl,
      sum-select-sort _ (is_total profile purpose) (λ u. u.busy_s) (totals_of stats)
          ∙ busy
          ∙ rw window refl,
    )

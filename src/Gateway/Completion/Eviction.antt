-- ===== src/Gateway/Completion/Eviction.antt =====
-- The bounds of the table of requests in localbench/gateway.py: `_evict_requests`, and its two callers.
use localbench.Base.{
  ℕ, ◌+◌, ◌-◌, ◌≤◌, Bool, true, not, List, [], ◌∷◌, ◌++◌, ◌==◌, ◌≡◌, refl, sym, ap, all, select,
  delete, sort, ltb, take, drop, length, arith, eq_refl, append_assoc, any-append, select-append,
  delete-all, all-delete, length-select, all-select, length-select-sort, length-sort,
  take-append-drop, length-drop, length-append,
}
use localbench.Gateway.Store.{Store, RequestRow, requests_retention, requests_max_rows}
use localbench.Gateway.Completion.{ended_before, listed, evict_over, evict_requests}

all-listed : (pre xs : List RequestRow) → all (listed (pre ++ xs)) xs ≡ true
all-listed pre [] = refl
all-listed pre (x ∷ xs) =
    let rest = rw (append_assoc pre (x ∷ []) xs) at (all-listed (pre ++ x ∷ []) xs) in
    ground (
      arith,
      any-append (λ q. q.request_id == x.request_id) pre (x ∷ xs),
      eq_refl x.request_id,
      rest,
    )

-- Deleting by the ids of a part of the sorted rows leaves no more rows than the other part has.
length-delete-listed :
    (n : ℕ) (rows : List RequestRow)
    → length (delete (listed (take n (sort ended_before rows))) rows) ≤ length rows - n
length-delete-listed n rows =
    let sorted = sort ended_before rows in
    let oldest = take n sorted in
    let rest = drop n sorted in
    let gone = λ (r : RequestRow). not (listed oldest r) in
    omega (
      arith,
      sym (length-select-sort ended_before gone rows),
      ap (λ l. length (select gone l)) (sym (take-append-drop n sorted)),
      ap length (select-append gone oldest rest),
      length-append (select gone oldest) (select gone rest),
      ap length (delete-all (listed oldest) oldest (all-listed [] oldest)),
      length-select gone rest,
      length-drop n sorted,
      length-sort ended_before rows,
    )

pub length-evict_over :
    (limit : ℕ) (rows : List RequestRow) → length (evict_over limit rows) ≤ limit
unfolding evict_over
length-evict_over limit rows = ground (arith, length-delete-listed (length rows - limit) rows)

abbrev pub is_recent : ℕ → RequestRow → Bool
is_recent now r = not (ltb (r.ended_at + requests_retention) now)

-- After an eviction the table holds no more rows than the limit, and none that ended longer ago than
-- the retention.
pub evict_requests-bounded :
    (limit now : ℕ) (rows : List RequestRow)
    → (length (evict_requests limit now rows) ≤ limit)
      × (all (is_recent now) (evict_requests limit now rows) ≡ true)
unfolding evict_requests
evict_requests-bounded limit now rows =
    let young = delete (λ r. ltb (r.ended_at + requests_retention) now) rows in
    (
      length-evict_over limit young,
      ground (
        arith,
        all-select (is_recent now) rows,
        all-delete (is_recent now) (listed (take (length young - limit) (sort ended_before young)))
            young,
      ),
    )

abbrev pub IsBounded : ℕ → Store → Type 0
IsBounded now s = (length s.requests ≤ requests_max_rows) × (all (is_recent now) s.requests ≡ true)

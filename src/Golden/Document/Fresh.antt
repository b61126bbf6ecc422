-- ===== src/Golden/Document/Fresh.antt =====
-- `compare` of localbench/golden.py judges every golden row, and vouches for none of another generation.
use localbench.Base.{
  String, Bool, true, false, not, ◌||◌, Option, List, [], ◌∷◌, ◌++◌, ◌≡◌, refl, arith, all, ◌==◌,
  get, has_key, Bool-cases, inl, inr, all-append,
}
use localbench.Golden.Pins.{Pins, GoldenPins}
use localbench.Golden.Document.{
  GoldenMetric, Measured, measured, voided, Entry, Golden, Row, judged, metric_rows, case_rows,
  new_rows, new_status, new_case_status, measured_status, case_status, is_stale, is_in, compare,
  in_tiers,
}

-- A status that counts as evidence that the run is as good as the golden.
abbrev pub is_passing : String → Bool
is_passing status = status == "PASS" || status == "IMPROVED" || status == "XFAIL"

abbrev pub is_vouched : GoldenPins → Pins → Row → Bool
is_vouched golden pins r = not (is_passing r.status) || not (is_stale golden pins r.key)

module _ (golden : GoldenPins) (pins : Pins) (listed : List String) where
  judged-vouched :
      (key status : String)
      → is_vouched golden pins (record { key = key; status = judged golden pins listed key status })
        ≡ true
  judged-vouched key status = elim (Bool-cases (is_stale golden pins key)) [
    | inl stale ↦ rw stale refl
    | inr fresh ↦ rw fresh (ground arith)
  ]

  metrics-vouched :
      (rows : List (String × GoldenMetric)) (metrics : List (String × Measured))
      → all (is_vouched golden pins) (metric_rows golden pins listed rows metrics) ≡ true
  metrics-vouched [] metrics = refl
  metrics-vouched ((key, g) ∷ rows) metrics =
      rw (judged-vouched key (measured_status key g (get key metrics)))
        (metrics-vouched rows metrics)

  cases-vouched :
      (rows : List (String × Entry)) (conformance : List (String × Entry))
      → all (is_vouched golden pins) (case_rows golden pins listed rows conformance) ≡ true
  cases-vouched [] conformance = refl
  cases-vouched ((key, g) ∷ rows) conformance =
      rw (judged-vouched key (case_status (is_in listed key) g (get key conformance)))
        (cases-vouched rows conformance)

  new-vouched :
      {A B : Type 0} (status : A → String) (rows : List (String × B)) (metrics : List (String × A))
      → ((a : A) → is_passing (status a) ≡ false)
      → all (is_vouched golden pins) (new_rows status rows metrics) ≡ true
  new-vouched status rows [] h = refl
  new-vouched status rows ((key, a) ∷ rest) h = elim (Bool-cases (has_key key rows)) [
    | inl known ↦ rw known (new-vouched status rows rest h)
    | inr unknown ↦ rw (unknown, h a) (new-vouched status rows rest h)
  ]

all_four :
    (p : Row → Bool) (ks bs cs ds : List Row)
    → all p ks ≡ true
    → all p bs ≡ true
    → all p cs ≡ true
    → all p ds ≡ true
    → all p (ks ++ bs ++ cs ++ ds) ≡ true
all_four p ks bs cs ds a b c d = ground (
  arith,
  all-append p ks bs,
  all-append p ks (bs ++ (cs ++ ds)),
  all-append p bs (cs ++ ds),
  all-append p cs ds,
  all-append p (ks ++ bs) cs,
  all-append p ((ks ++ bs) ++ cs) ds,
)

new_status-fails : (a : Measured) → is_passing (new_status a) ≡ false
new_status-fails (measured n) = refl
new_status-fails (voided reason) = refl

new_case_status-fails : (a : Entry) → is_passing (new_case_status a) ≡ false
new_case_status-fails a = elim (Bool-cases (a.verdict == "PASS")) [
  | inl passed ↦ rw passed refl
  | inr other ↦ rw other (elim (Bool-cases (a.verdict == "VOID")) [
    | inl void ↦ rw void refl
    | inr failed ↦ rw failed refl
  ])
]

module _ (metrics : List (String × Measured)) (conformance : List (String × Entry))
    (golden : Golden) (pins : Pins) (tiers : Option (List String)) (listed : List String) where
  -- No row of `compare` is PASS, IMPROVED or XFAIL if a pin has moved on which its tier depends.
  pub compare-vouched :
      all (is_vouched golden.pins pins) (compare metrics conformance golden pins tiers listed)
      ≡ true
  unfolding compare
  compare-vouched =
      let g = golden.pins in
      let ms = in_tiers tiers golden.metrics in
      let cs = in_tiers tiers golden.conformance in
      all_four (is_vouched g pins) (metric_rows g pins listed ms metrics) _ _ _
        (metrics-vouched g pins listed ms metrics)
        (new-vouched g pins listed new_status ms metrics new_status-fails)
        (cases-vouched g pins listed cs conformance)
        (new-vouched g pins listed new_case_status cs conformance new_case_status-fails)

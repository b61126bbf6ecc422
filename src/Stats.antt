-- ===== src/Stats.antt =====
-- `holm_reject` of localbench/stats.py: Holm's step-down rejection for a family of p-values. A p-value and alpha are
-- numbers of parts of one, with `one` parts, and the comparison with `alpha / (m - rank)` is exact where the code
-- divides floats. A negative or undefined p-value is outside the model.
pub mod Holm
use localbench.Base.{
  ℕ, suc, ◌-◌, ◌*◌, String, Bool, true, false, not, ◌&&◌, List, [], ◌∷◌, ltb, leb, if◌then◌else◌,
  length, map, put,
}

abbrev pub Family : Type 0
Family = List (String × ℕ)

pub data Outcome : Type 0 where
  bad_alpha : Outcome
  bad_pvalue : String → Outcome
  decided : List (String × Bool) → Outcome

abbrev pub insert_item : String × ℕ → Family → Family
insert_item x [] = x ∷ []
insert_item x (y ∷ ys) = if leb x.1 y.1 then x ∷ y ∷ ys else y ∷ insert_item x ys

-- `sorted(pvalues.items(), key=lambda item: item[1])`, which is stable
unfoldable pub sorted : Family → Family
sorted [] = []
sorted (x ∷ xs) = insert_item x (sorted xs)

-- The loop, with `m - rank` of the rest.
unfoldable pub step_down : ℕ → ℕ → ℕ → ℕ → Family → List (String × Bool) → Outcome
step_down one alpha m rank [] out = decided out
step_down one alpha m rank ((name, p) ∷ rest) out =
    let later = step_down one alpha m (suc rank) rest (put name true out) in
    if ltb one p then bad_pvalue name else if ltb alpha (p * (m - rank)) then decided out else later

abbrev pub none_rejected : Family → List (String × Bool)
none_rejected family = map (λ r. (r.0, false)) family

unfoldable pub holm_reject : ℕ → ℕ → Family → Outcome
unfolding step_down sorted
holm_reject one alpha family =
    if ltb 0 alpha && ltb alpha one
    then step_down one alpha (length (sorted family)) 0 (sorted family) (none_rejected family)
    else bad_alpha

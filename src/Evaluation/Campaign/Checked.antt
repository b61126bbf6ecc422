-- ===== src/Evaluation/Campaign/Checked.antt =====
-- What the checks of `record_case` leave.
use localbench.Base.{
  some, String, true, false, List, [], ◌==◌, ◌≡◌, ◌⊎◌, refl, sym, arith, inl, inr, Bool-cases,
  Option-cases, eq_iff, get, has_key,
}
use localbench.Evaluation.Paths.{FilePath, relative_to}
use localbench.Evaluation.Evidence.{
  Failure, Result, err, ok, Traces, Row, Disk, Campaign, is_case_id, is_status,
}
use localbench.Evaluation.Campaign.{hash_traces, row_of, is_empty, new_row, unrecorded}
use localbench.Evaluation.Campaign.Once.{IsOutcome}

unrecorded-ok :
    (case_id : String) (d : Disk) (files : Traces) (row out : Row)
    → unrecorded case_id d files row ≡ ok out
    → (is_empty files ≡ false)
      × (is_case_id case_id ≡ true)
      × (has_key case_id d.cases ≡ false)
      × (row ≡ out)
unrecorded-ok case_id d files row out h = ground arith

pub Result-cases {ℓ} :
    {A : Type ℓ} (r : Result A) → ((e : Failure) × (r ≡ err e)) ⊎ ((a : A) × (r ≡ ok a))
Result-cases (err e) = inl (e, refl)
Result-cases (ok a) = inr (a, refl)

module _ (sha256 : String → String) where
  -- A row that is to be written is an outcome of a case without one.
  pub new_row-IsOutcome :
      (c : Campaign) (case_id input status : String) (run_dir : FilePath) (traces : List FilePath)
      (d : Disk) (row : Row)
      → new_row sha256 c case_id input status run_dir traces d ≡ ok row
      → (i : IsOutcome c case_id row) × (i.input ≡ input)
        × (has_key case_id d.cases ≡ false)
        × (relative_to c.root (d.resolve run_dir) ≡ some i.run)
        × (hash_traces sha256 d (d.resolve run_dir) traces [] ≡ ok i.files)
  unfolding new_row
  new_row-IsOutcome c case_id input status run_dir traces d row h =
      elim (Option-cases (get case_id c.case_inputs)) [
        | inl e1 ↦ absurd (cc (rw e1 at h))
        | inr (expected, e1) ↦ elim (Bool-cases (expected == input)) [
          | inl e2 ↦ elim (Bool-cases (is_status status)) [
            | inl e3 ↦ elim (Option-cases (relative_to c.root (d.resolve run_dir))) [
              | inl e4 ↦ absurd (cc (rw (e1, e2, e3, e4) at h))
              | inr (run, e4) ↦
                  elim (Result-cases (hash_traces sha256 d (d.resolve run_dir) traces [])) [
                    | inl (e, e5) ↦ absurd (cc (rw (e1, e2, e3, e4, e5) at h))
                    | inr (files, e5) ↦
                        let (e6, e7, e8, e9) =
                          unrecorded-ok case_id d files (row_of c case_id input status run files)
                            row (rw (e1, e2, e3, e4, e5) at h) in
                        (
                          record {
                            input = input;
                            status = status;
                            run = run;
                            files = files;
                            expected = ground (arith, eq_iff expected input);
                            named = e7;
                            finished = e3;
                            traced = e6;
                            row_eq = sym e9;
                          },
                          refl,
                          e8,
                          e4,
                          e5,
                        )
                  ]
            ]
            | inr e3 ↦ absurd (cc (rw (e1, e2, e3) at h))
          ]
          | inr e2 ↦ absurd (cc (rw (e1, e2) at h))
        ]
      ]

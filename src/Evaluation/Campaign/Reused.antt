-- ===== src/Evaluation/Campaign/Reused.antt =====
-- What `completed_case` answers on the evidence of a campaign.
use localbench.Base.{
  String, Bool, true, false, ◌&&◌, Option, none, some, List, [], ◌∷◌, ◌==◌, ◌≡◌, arith, inl, inr,
  Option-cases, eq_refl, is_some, get, or_text, all, ◌↔◌,
}
use localbench.Evaluation.Paths.{FilePath, relative, relative_to, joined}
use localbench.Evaluation.Evidence.{
  ok, Traces, Row, case_row, Disk, Campaign, schema, is_case_id, is_status,
}
use localbench.Evaluation.Campaign.{
  row_of, is_empty, as_stored, has_digest, check_traces, check_row, read_row, completed_case,
}
use localbench.Evaluation.Campaign.Checked.{Result-cases}
use localbench.Evaluation.Campaign.Once.{IsOutcome, evidence, IsOwn, Promised-IsOwn}
use localbench.Evaluation.Campaign.Written.{Reach, Reach-Promised}

module _ (sha256 : String → String) where
  -- A trace is inside the run directory, and a file with the recorded digest.
  abbrev pub is_intact : Disk → FilePath → FilePath × String → Bool
  is_intact d run (path, digest) =
      is_some (relative_to run (d.resolve (joined run path)))
      && has_digest sha256 digest (d.file (d.resolve (joined run path)))

  abbrev pub hashes : Option (List (FilePath × String)) → List (FilePath × String)
  hashes none = []
  hashes (some files) = files

  -- What a reuse asks of the traces of a row.
  abbrev pub are_intact : Campaign → Disk → Row → Bool
  are_intact c d row =
      is_some (relative_to c.root (d.resolve (joined c.root row.run_dir)))
      && all (is_intact d (d.resolve (joined c.root row.run_dir))) (hashes row.trace_sha256)

  check_traces-all :
      (d : Disk) (k : String) (run : FilePath) (files : List (FilePath × String))
      → (check_traces sha256 d k run files ≡ ok tt) ↔ (all (is_intact d run) files ≡ true)
  unfolding check_traces
  check_traces-all d k run [] = grind arith
  check_traces-all d k run ((path, digest) ∷ files) = grind (arith, check_traces-all d k run files)

  module _ (c : Campaign) (k : String) where
    check_row-row_of :
        (d : Disk) (input expected status : String) (run : List String) (files : Traces) (out : Row)
        → is_empty files ≡ false
        → is_status status ≡ true
        → (check_row sha256 c k expected d (row_of c k input status run files) ≡ ok out) ↔ (
            (row_of c k input status run files ≡ out)
            × ((input == expected) ≡ true)
            × (are_intact c d (row_of c k input status run files) ≡ true))
    unfolding check_row
    check_row-row_of d input expected status run [] out traced finished = absurd cc
    check_row-row_of d input expected status run ((p, digest) ∷ files) out traced finished =
        rw (eq_refl k, eq_refl schema, eq_refl c.identity_sha256, finished)
          (grind (
            arith,
            check_traces-all d k (d.resolve (joined c.root (relative run)))
                ((relative p, digest) ∷ as_stored files),
          ))

    module _ (input : String) (member : get k c.case_inputs ≡ some input) where
      pub check_row-own :
          (d : Disk) (expected : String) (row out : Row)
          → IsOutcome c k row
          → (check_row sha256 c k expected d row ≡ ok out)
            ↔ ((row ≡ out) × ((input == expected) ≡ true) × (are_intact c d row ≡ true))
      check_row-own d expected row out i =
          let same : i.input ≡ input = ground (arith, member, i.expected) in
          rw (i.row_eq, same)
            (check_row-row_of d input expected i.status i.run i.files out i.traced i.finished)

      found_row :
          (d : Disk) (expected : String) (row : Row)
          → IsOutcome c k row
          → ((out : Row)
              → (read_row sha256 c k expected d (some (case_row row)) ≡ ok (some out)) ↔ (
                  (some (case_row row) ≡ some (case_row out))
                  × ((input == expected) ≡ true)
                  × (are_intact c d out ≡ true)))
            × ((read_row sha256 c k expected d (some (case_row row)) ≡ ok none)
                ↔ (some (case_row row) ≡ none))
      found_row d expected row i = elim (Result-cases (check_row sha256 c k expected d row)) [
        | inl (failed, e) ↦
            rw e ((λ out. grind (arith, check_row-own d expected row row i)), ground arith)
        | inr (r, e) ↦ rw e ((λ out. grind (arith, check_row-own d expected row r i)), ground arith)
      ]

      read_row-own :
          (d : Disk) (expected : String)
          → IsOwn c (evidence d)
          → ((out : Row)
              → (read_row sha256 c k expected d (get k d.cases) ≡ ok (some out)) ↔ (
                  (get k d.cases ≡ some (case_row out))
                  × ((input == expected) ≡ true)
                  × (are_intact c d out ≡ true)))
            × ((read_row sha256 c k expected d (get k d.cases) ≡ ok none) ↔ (get k d.cases ≡ none))
      read_row-own d expected own = elim (Option-cases (get k d.cases)) [
        | inl e ↦ rw e ((λ out. ground arith), ground arith)
        | inr (x, e) ↦ let (row, eq, i) = own k x e in rw (e, eq) (found_row d expected row i)
      ]

      -- On whatever the operations have left of an empty campaign, a case is completed with a row exactly if that row
      -- is recorded for it, the expected input, if one is given, is the one of the campaign, the run directory is
      -- in the data root, and every trace is still in the run directory and has the recorded hash. It is open
      -- exactly if nothing is recorded. Otherwise the reuse raises.
      pub completed_case-closed :
          {start d : Disk}
          → Reach sha256 c start d
          → start.cases ≡ []
          → is_case_id k ≡ true
          → (given : String)
          → ((row : Row)
              → (completed_case sha256 c k given d ≡ ok (some row)) ↔ (
                  (get k d.cases ≡ some (case_row row))
                  × ((input == or_text given input) ≡ true)
                  × (are_intact c d row ≡ true)))
            × ((completed_case sha256 c k given d ≡ ok none) ↔ (get k d.cases ≡ none))
      unfolding completed_case
      completed_case-closed path empty named given =
          rw (member, named)
            (read_row-own _ (or_text given input) (
              Promised-IsOwn c (Reach-Promised sha256 c path).0
                (λ j x h. absurd (cc (rw empty at h)))))

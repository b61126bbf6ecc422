-- ===== src/Evaluation/Campaign/Fresh.antt =====
-- A case that was just recorded is reused.
use localbench.Base.{
  String, true, some, List, [], ◌∷◌, ◌≡◌, refl, ◌∙◌, arith, inl, inr, Bool-cases, Option-cases,
  eq_refl, get, put, get-put, or_text, all, and-eq-true,
}
use localbench.Evaluation.Paths.{
  FilePath, relative, relative_to, parts_eq, parts_eq→eq, joined-relative_to,
}
use localbench.Evaluation.Evidence.{Result, err, ok, Traces, Row, case_row, Disk, Write, Campaign}
use localbench.Evaluation.Campaign.{
  put_trace, as_stored, store_row, hash_traces, new_row, record_case, completed_case,
}
use localbench.Evaluation.Campaign.Once.{IsOutcome}
use localbench.Evaluation.Campaign.Checked.{new_row-IsOutcome}
use localbench.Evaluation.Campaign.Reused.{is_intact, are_intact, check_row-own}

stored-ok :
    (k : String) (write : Write) (r : Result Row) (row : Row) (d e : Disk)
    → store_row k write r d ≡ (ok row, e)
    → (r ≡ ok row) × (e ≡ record d { cases = put k (case_row row) d.cases })
stored-ok k write (err failed) row d e h = ground arith
stored-ok k write (ok r) row d e h = ground arith

completed_own :
    (sha256 : String → String) (c : Campaign) (k input : String) (d : Disk) (row : Row)
    → get k c.case_inputs ≡ some input
    → IsOutcome c k row
    → get k d.cases ≡ some (case_row row)
    → are_intact sha256 c d row ≡ true
    → completed_case sha256 c k input d ≡ ok (some row)
unfolding completed_case
completed_own sha256 c k input d row member i found intact =
    rw
      (
        member,
        i.named,
        found,
        (check_row-own sha256 c k input member d (or_text input input) row row i).1
            (refl, ground (arith, eq_refl input), intact),
      )
      refl

module _ (sha256 : String → String) (d : Disk)
    (idempotent : (p : FilePath) → d.resolve (d.resolve p) ≡ d.resolve p) where
  put_trace-intact :
      (run : FilePath) (path : List String) (digest : String) (files : Traces)
      → is_intact sha256 d run (relative path, digest) ≡ true
      → all (is_intact sha256 d run) (as_stored files) ≡ true
      → all (is_intact sha256 d run) (as_stored (put_trace path digest files)) ≡ true
  put_trace-intact run path digest [] h hs = ground arith
  put_trace-intact run path digest ((q, e) ∷ files) h hs =
      let (first, rest) = and-eq-true {a = is_intact sha256 d run (relative q, e)} hs in
      elim (Bool-cases (parts_eq q path)) [
        | inl same ↦ rw same (rw (parts_eq→eq q path same, h) rest)
        | inr other ↦ rw (other, first) (put_trace-intact run path digest files h rest)
      ]

  hash_traces-intact :
      (run : FilePath) (sources : List FilePath) (files out : Traces)
      → hash_traces sha256 d run sources files ≡ ok out
      → all (is_intact sha256 d run) (as_stored files) ≡ true
      → all (is_intact sha256 d run) (as_stored out) ≡ true
  unfolding hash_traces
  hash_traces-intact run [] files out h hs = cc
  hash_traces-intact run (source ∷ sources) files out h hs =
      elim (Option-cases (relative_to run (d.resolve source))) [
        | inl e ↦ absurd (cc (rw e at h))
        | inr (path, e) ↦ elim (Option-cases (d.file (d.resolve source))) [
          | inl e2 ↦ absurd (cc (rw (e, e2) at h))
          | inr (bytes, e2) ↦
              let back = joined-relative_to run (d.resolve source) path e in
              hash_traces-intact run sources (put_trace path (sha256 bytes) files) out
                (rw (e, e2) at h)
                (put_trace-intact run path (sha256 bytes) files
                  (rw (back, idempotent source, e, e2, eq_refl (sha256 bytes)) refl) hs)
        ]
      ]

  stored_intact :
      (c : Campaign) (k : String) (run_dir : FilePath) (traces : List FilePath) (row : Row)
      (i : IsOutcome c k row)
      → relative_to c.root (d.resolve run_dir) ≡ some i.run
      → hash_traces sha256 d (d.resolve run_dir) traces [] ≡ ok i.files
      → are_intact sha256 c d row ≡ true
  stored_intact c k run_dir traces row i run_eq hash_eq =
      let back = joined-relative_to c.root (d.resolve run_dir) i.run run_eq in
      rw (i.row_eq, back, idempotent run_dir, run_eq)
        (hash_traces-intact (d.resolve run_dir) traces [] i.files hash_eq refl)

  -- A case that was recorded without an error is at once completed, with the row that `record_case` returned, if
  -- resolving a path twice is resolving it once.
  pub completed-record_case :
      (c : Campaign) (k input status : String) (run_dir : FilePath) (traces : List FilePath)
      (write : Write) (row : Row) (e : Disk)
      → record_case sha256 c k input status run_dir traces write d ≡ (ok row, e)
      → completed_case sha256 c k input e ≡ ok (some row)
  unfolding record_case
  completed-record_case c k input status run_dir traces write row e h =
      let (h1, h2) =
        stored-ok k write (new_row sha256 c k input status run_dir traces d) row d e h in
      let (i, same, free, run_eq, hash_eq) =
        new_row-IsOutcome sha256 c k input status run_dir traces d row h1 in
      let member : get k c.case_inputs ≡ some input = ground (arith, i.expected, same) in
      let intact = stored_intact c k run_dir traces row i run_eq hash_eq in
      rw h2 (
        completed_own sha256 c k input (record d { cases = put k (case_row row) d.cases }) row
          member i (get-put k k (case_row row) d.cases ∙ rw (eq_refl k) refl) intact)

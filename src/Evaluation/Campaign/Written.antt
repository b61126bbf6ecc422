-- ===== src/Evaluation/Campaign/Written.antt =====
-- The operations of a campaign keep its promise, whatever fails and whatever happens to the files outside it.
use localbench.Base.{
  String, true, false, Option, List, ◌==◌, ◌≡◌, refl, holds, arith, inl, inr, Bool-cases,
  Option-cases, get, has_key, get-put, has_key-get,
}
use localbench.Evaluation.Paths.{FilePath}
use localbench.Evaluation.Evidence.{ok, Row, case_row, Disk, Write, Campaign, is_replaced}
use localbench.Evaluation.Campaign.{
  Document, new_row, store_row, record_case, write_scores, store_scores, is_scorer,
}
use localbench.Evaluation.Campaign.Once.{
  IsOutcome, evidence, Once, kept, recorded_once, scored_once, Promised, start, after, Keeps,
  Promised-Keeps,
}
use localbench.Evaluation.Campaign.Checked.{Result-cases, new_row-IsOutcome}

module _ (sha256 : String → String) (c : Campaign) where
  -- What happens to a campaign: its two operations, and any change of the links and files outside it.
  pub data Step : Disk → Disk → Type 0 where
    recorded :
        (case_id input status : String) (run_dir : FilePath) (traces : List FilePath)
        (write : Write) (d : Disk)
        → Step d (record_case sha256 c case_id input status run_dir traces write d).1
    scored :
        (scorer : String) (document : Document) (write : Write) (d : Disk)
        → Step d (write_scores c scorer document write d).1
    changed :
        (resolve : FilePath → FilePath) (file : FilePath → Option String) (d : Disk)
        → Step d (record d { resolve = resolve; file = file })

  pub data Reach (d : Disk) : Disk → Type 0 where
    here : Reach d d
    next : {e f : Disk} → Reach d e → Step e f → Reach d f

  store_row-Once :
      (case_id : String) (write : Write) (row : Row) (d : Disk)
      → IsOutcome c case_id row
      → has_key case_id d.cases ≡ false
      → Once c (evidence d) (evidence (store_row case_id write (ok row) d).1)
  store_row-Once case_id write row d i free = elim (Bool-cases (is_replaced write)) [
    | inl done ↦ rw done (
        recorded_once case_id row (ground (arith, has_key-get case_id d.cases)) i
          (λ k. get-put case_id k (case_row row) d.cases) (λ k. refl))
    | inr not_done ↦ rw not_done (kept (λ k. refl) (λ k. refl))
  ]

  record_case-Once :
      (case_id input status : String) (run_dir : FilePath) (traces : List FilePath) (write : Write)
      (d : Disk)
      → Once c
          (evidence d)
          (evidence (record_case sha256 c case_id input status run_dir traces write d).1)
  unfolding record_case
  record_case-Once case_id input status run_dir traces write d =
      elim (Result-cases (new_row sha256 c case_id input status run_dir traces d)) [
        | inl (e, h) ↦ rw h (kept (λ k. refl) (λ k. refl))
        | inr (row, h) ↦
            let (i, _, free, _, _) =
              new_row-IsOutcome sha256 c case_id input status run_dir traces d row h in
            rw h (store_row-Once case_id write row d i free)
      ]

  store_scores-Once :
      (scorer : String) (document : Document) (write : Write) (d : Disk)
      → holds document.identity_sha256 c.identity_sha256 ≡ true
      → Once c
          (evidence d)
          (evidence (store_scores scorer document write (get scorer d.scores) d).1)
  store_scores-Once scorer document write d own = elim (Option-cases (get scorer d.scores)) [
    | inl free ↦ elim (Bool-cases (is_replaced write)) [
      | inl done ↦
          rw (free, done)
            (scored_once scorer document free own (λ k. refl)
              (λ k. get-put scorer k (document.payload scorer) d.scores))
      | inr not_done ↦ rw (free, not_done) (kept (λ k. refl) (λ k. refl))
    ]
    | inr (text, e) ↦ elim (Bool-cases (text == document.payload scorer)) [
      | inl same ↦ rw (e, same) (kept (λ k. refl) (λ k. refl))
      | inr other ↦ rw (e, other) (kept (λ k. refl) (λ k. refl))
    ]
  ]

  write_scores-Once :
      (scorer : String) (document : Document) (write : Write) (d : Disk)
      → Once c (evidence d) (evidence (write_scores c scorer document write d).1)
  unfolding write_scores
  write_scores-Once scorer document write d = elim (Bool-cases (is_scorer scorer)) [
    | inl good ↦ elim (Bool-cases (holds document.identity_sha256 c.identity_sha256)) [
      | inl own ↦ rw (good, own) (store_scores-Once scorer document write d own)
      | inr other ↦ rw (good, other) (kept (λ k. refl) (λ k. refl))
    ]
    | inr bad ↦ rw bad (kept (λ k. refl) (λ k. refl))
  ]

  Step-Once : {d e : Disk} → Step d e → Once c (evidence d) (evidence e)
  Step-Once (recorded case_id input status run_dir traces write d) =
      record_case-Once case_id input status run_dir traces write d
  Step-Once (scored scorer document write d) = write_scores-Once scorer document write d
  Step-Once (changed resolve file d) = kept (λ k. refl) (λ k. refl)

  path-Promised : {d e : Disk} → Reach d e → Promised c (evidence d) (evidence e)
  path-Promised here = start
  path-Promised (next path step) = after (path-Promised path) (Step-Once step)

  -- Whatever is recorded or scored, in any order and with any failure of a write, and whatever happens to the
  -- links and files outside the campaign: the evidence refines a pair of maps that are written once. Each change
  -- of it adds, for one case of the campaign without an outcome, an outcome with its input, the identity of the
  -- campaign, a valid status and at least one trace, or, for one scorer without a document, a document of this
  -- identity. Nothing that is written is ever changed or lost.
  pub Reach-Promised :
      {d e : Disk}
      → Reach d e
      → Promised c (evidence d) (evidence e) × Keeps c (evidence d) (evidence e)
  Reach-Promised path = let promise = path-Promised path in (promise, Promised-Keeps c promise)

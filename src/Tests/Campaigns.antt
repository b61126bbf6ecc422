-- ===== src/Tests/Campaigns.antt =====
-- Evaluation campaigns: runs, and the theorems at concrete inputs.
use localbench.Base.{
  concat, String, true, Option, none, some, List, [], ◌∷◌, ◌≡◌, ◌↔◌, refl, ◌==◌, get, or_text,
  if◌then◌else◌,
}
use localbench.Evaluation.Paths.{FilePath, parts_eq}
use localbench.Evaluation.Evidence.{
  Failure, Row, Disk, case_row, Campaign, written, failed_late, err, ok, trace_changed,
  already_recorded,
}
use localbench.Evaluation.Campaign.{
  row_of, record_case, check_row, completed_case, Document, write_scores,
}
use localbench.Evaluation.Campaign.Once.{Promised, Keeps, evidence}
use localbench.Evaluation.Campaign.Written.{here, next, recorded, Reach-Promised}
use localbench.Evaluation.Campaign.Reused.{are_intact, completed_case-closed}
use localbench.Evaluation.Campaign.Fresh.{completed-record_case}
use localbench.Evaluation.Manifest.{Folder, Writes, create, open_campaign}
use localbench.Evaluation.Manifest.Opened.{matches, open-create}

abbrev sha256 : String → String
sha256 bytes = concat ("sha256:" ∷ bytes ∷ [])

abbrev under : List String → FilePath
under parts = record { absolute = true; parts = "data" ∷ parts }

abbrev trace : FilePath
trace = under ("runs" ∷ "a" ∷ "trace.jsonl" ∷ [])

abbrev run : FilePath
run = under ("runs" ∷ "a" ∷ [])

abbrev holding : String → FilePath → Option String
holding bytes p = if parts_eq p.parts trace.parts then some bytes else none

abbrev disk : Disk
disk = record { resolve = λ p. p; file = holding "{}"; cases = []; scores = [] }

abbrev campaign : Campaign
campaign = record {
  root = under [];
  identity_sha256 = "pins";
  case_inputs = ("edit-1", "input-a") ∷ ("edit-2", "input-b") ∷ [];
}

abbrev row : Row
row =
    row_of campaign "edit-1" "input-a" "PASS" ("runs" ∷ "a" ∷ [])
      (("trace.jsonl" ∷ [], "sha256:{}") ∷ [])

abbrev after_record : Disk
after_record = record disk { cases = ("edit-1", case_row row) ∷ [] }

records :
    record_case sha256 campaign "edit-1" "input-a" "PASS" run (trace ∷ []) written disk
    ≡ (ok row, after_record)
unfolding record_case
records = refl

-- A case is recorded once.
records_once :
    (record_case sha256 campaign "edit-1" "input-a" "FAIL" run (trace ∷ []) written after_record).0
    ≡ err (already_recorded "edit-1")
unfolding record_case
records_once = refl

-- A trace that changed is refused.
refuses_changed :
    completed_case sha256 campaign "edit-1" ""
      (record after_record { file = holding "{\"edited\": 1}" })
    ≡ err (trace_changed "edit-1")
unfolding completed_case check_row
refuses_changed = refl

abbrev document : Document
document = record { identity_sha256 = some "pins"; payload = λ scorer. "scores" }

abbrev scorer : String
scorer = "0123456789abcdef0123456789abcdef0123456789abcdef0123456789abcdef"

abbrev after_scores : Disk
after_scores = record after_record { scores = (scorer, "scores") ∷ [] }

scores_again :
    write_scores campaign scorer document written after_scores ≡ (ok scorer, after_scores)
unfolding write_scores
scores_again = refl

-- The write fails after it replaced the file.
abbrev recorded_late : Disk
recorded_late =
    (record_case sha256 campaign "edit-1" "input-a" "PASS" run (trace ∷ []) failed_late disk).1

Reach-Promised_example :
    Promised campaign (evidence disk) (evidence recorded_late)
    × Keeps campaign (evidence disk) (evidence recorded_late)
Reach-Promised_example =
    Reach-Promised sha256 campaign
      (next here (recorded "edit-1" "input-a" "PASS" run (trace ∷ []) failed_late disk))

completed-record_case_example :
    completed_case sha256 campaign "edit-1" "input-a" after_record ≡ ok (some row)
unfolding record_case
completed-record_case_example =
    completed-record_case sha256 disk (λ p. refl) campaign "edit-1" "input-a" "PASS" run
      (trace ∷ []) written row after_record refl

completed_case-closed_example :
    ((r : Row)
      → (completed_case sha256 campaign "edit-1" "" after_record ≡ ok (some r)) ↔ (
          (get "edit-1" after_record.cases ≡ some (case_row r))
          × (("input-a" == or_text "" "input-a") ≡ true)
          × (are_intact sha256 campaign after_record r ≡ true)))
    × ((completed_case sha256 campaign "edit-1" "" after_record ≡ ok none)
        ↔ (get "edit-1" after_record.cases ≡ none))
unfolding record_case
completed_case-closed_example =
    completed_case-closed sha256 campaign "edit-1" "input-a" refl
      (next here (recorded "edit-1" "input-a" "PASS" run (trace ∷ []) written disk)) refl refl ""

abbrev all_written : Writes
all_written = record { folder = true; manifest = written; cases = true; scores = true }

abbrev created : Campaign
created = record {
  root = under [];
  identity_sha256 = "sha256:pins";
  case_inputs = ("edit-1", "input-a") ∷ [];
}

open-create_example :
    ((f : Folder String)
      → (e : Failure) × (create sha256
            (λ p. p)
            (under [])
            "pins"
            (("edit-1", "input-a") ∷ [])
            "varied"
            all_written
            (some f)
          ≡ (err e, some f)))
    × ((open_campaign sha256
            (λ p. p)
            (λ i j. i == j)
            (under [])
            (some "pins")
            (create sha256
              (λ p. p)
              (under [])
              "pins"
              (("edit-1", "input-a") ∷ [])
              "varied"
              all_written
              none).1
          ≡ ok created)
        ↔ (((create sha256
                (λ p. p)
                (under [])
                "pins"
                (("edit-1", "input-a") ∷ [])
                "varied"
                all_written
                none).0
              ≡ ok created)
            × (matches sha256 (λ p. p) (λ i j. i == j) (some "pins") "pins" ≡ true)))
open-create_example =
    open-create sha256 (λ p. p) (λ i j. i == j) (under []) "pins" (("edit-1", "input-a") ∷ [])
      "varied" all_written (some "pins") created (refl, tt)

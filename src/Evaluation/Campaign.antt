-- ===== src/Evaluation/Campaign.antt =====
-- EvaluationCampaign of localbench/evaluation.py: the record of a finished case with the hashes of its traces, its
-- check before a reuse, and the scores. The hash of a file's bytes and the text of a score document are parameters.
pub mod Once
pub mod Checked
pub mod Fresh
pub mod Written
pub mod Reused
use localbench.Base.{
  ℕ, String, Bool, true, false, not, ◌&&◌, ◌||◌, Option, none, some, List, [], ◌∷◌, ◌==◌, eqb,
  if◌then◌else◌, is_some, holds, get, put, has_key, is_hex, is_alnum, starts_alnum, all_codes,
  or_text,
}
use localbench.Evaluation.Evidence.{
  schema, is_status, is_case_id, Failure, Result, ◌>>=◌, ◌>>◌, raise_if, or_raise, Traces, Row,
  CaseFile, Disk, Write, is_replaced, write_result, Campaign, err, ok, corrupt, not_dict, case_row,
  written, failed, failed_late, invalid_case_id, not_in_campaign, input_mismatch, invalid_status,
  run_outside, trace_outside, trace_missing, no_trace, already_recorded, invalid_record,
  identity_mismatch, run_escapes, no_hashes, trace_escapes, trace_changed, bad_status, bad_scorer,
  other_campaign, score_differs, os_error, no_cases, bad_case_ids, folder_exists, no_manifest,
  bad_manifest, bad_identity, identity_changed, empty_manifest, bad_manifest_ids, no_directories,
  key_error,
}
use localbench.Evaluation.Paths.{FilePath, relative, parts_eq, relative_to, joined}
use Prim.Native.String.{count}

abbrev pub put_trace : List String → String → Traces → Traces
put_trace path digest [] = (path, digest) ∷ []
put_trace path digest ((q, d) ∷ files) =
    let rest = put_trace path digest files in
    if parts_eq q path then (q, digest) ∷ files else (q, d) ∷ rest

abbrev pub as_stored : Traces → List (FilePath × String)
as_stored [] = []
as_stored ((path, digest) ∷ files) = (relative path, digest) ∷ as_stored files

abbrev pub row_of : Campaign → String → String → String → List String → Traces → Row
row_of c case_id input status run files = record {
  schema_version = some schema;
  case_id = some case_id;
  input_sha256 = some input;
  identity_sha256 = some c.identity_sha256;
  status = some status;
  run_dir = relative run;
  trace_sha256 = some (as_stored files);
}

abbrev pub is_empty {ℓ} : {A : Type ℓ} → List A → Bool
is_empty [] = true
is_empty (x ∷ xs) = false

abbrev pub store_row : String → Write → Result Row → Disk → Result Row × Disk
store_row case_id write (err e) d = (err e, d)
store_row case_id write (ok row) d = (
  write_result write row,
  if is_replaced write then record d { cases = put case_id (case_row row) d.cases } else d,
)

abbrev pub is_same : Campaign → String → String → Row → Bool
is_same c case_id expected row =
    holds row.schema_version schema
    && holds row.case_id case_id
    && holds row.input_sha256 expected
    && holds row.identity_sha256 c.identity_sha256

abbrev some_hashes : String → Option (List (FilePath × String)) → Result (List (FilePath × String))
some_hashes case_id none = err (no_hashes case_id)
some_hashes case_id (some []) = err (no_hashes case_id)
some_hashes case_id (some (f ∷ files)) = ok (f ∷ files)

abbrev pub holds_status : Option String → Bool
holds_status none = false
holds_status (some s) = is_status s

-- `record_case` from the traces to the write
abbrev pub unrecorded : String → Disk → Traces → Row → Result Row
unrecorded case_id d files row =
    raise_if (is_empty files) no_trace
    >> (raise_if (not (is_case_id case_id)) (invalid_case_id case_id)
        >> (raise_if (has_key case_id d.cases) (already_recorded case_id) >> ok row))

module _ (sha256 : String → String) where
  -- The loop of `record_case` over the trace files.
  unfoldable pub hash_traces : Disk → FilePath → List FilePath → Traces → Result Traces
  hash_traces d run [] files = ok files
  hash_traces d run (source ∷ sources) files =
      or_raise trace_outside (relative_to run (d.resolve source)) >>= λ path.
      or_raise (trace_missing (d.resolve source)) (d.file (d.resolve source)) >>= λ bytes.
      hash_traces d run sources (put_trace path (sha256 bytes) files)

  -- `record_case` up to the write
  unfoldable pub new_row :
      Campaign → String → String → String → FilePath → List FilePath → Disk → Result Row
  unfolding hash_traces is_case_id
  new_row c case_id input status run_dir traces d =
      or_raise (not_in_campaign case_id) (get case_id c.case_inputs) >>= λ expected.
      raise_if (not (expected == input)) (input_mismatch case_id)
      >> (raise_if (not (is_status status)) (invalid_status status)
          >> (or_raise run_outside (relative_to c.root (d.resolve run_dir)) >>= λ run.
              hash_traces d (d.resolve run_dir) traces [] >>= λ files.
              unrecorded case_id d files (row_of c case_id input status run files)))

  unfoldable pub record_case :
      Campaign
      → String
      → String
      → String
      → FilePath
      → List FilePath
      → Write
      → Disk
      → Result Row × Disk
  unfolding new_row
  record_case c case_id input status run_dir traces write d =
      store_row case_id write (new_row c case_id input status run_dir traces d) d

  abbrev pub has_digest : String → Option String → Bool
  has_digest digest none = false
  has_digest digest (some bytes) = sha256 bytes == digest

  -- The loop of `completed_case` over the hashes.
  unfoldable pub check_traces :
      Disk → String → FilePath → List (FilePath × String) → Result (Unit {0})
  check_traces d case_id run [] = ok tt
  check_traces d case_id run ((path, digest) ∷ files) =
      let target = d.resolve (joined run path) in
      raise_if (not (is_some (relative_to run target))) (trace_escapes case_id)
      >> (raise_if (not (has_digest digest (d.file target))) (trace_changed case_id)
          >> check_traces d case_id run files)

  -- `completed_case` from the row on
  unfoldable pub check_row : Campaign → String → String → Disk → Row → Result Row
  unfolding check_traces
  check_row c case_id expected d row =
      raise_if (not (is_same c case_id expected row)) (identity_mismatch case_id)
      >> (raise_if (not (is_some (relative_to c.root (d.resolve (joined c.root row.run_dir)))))
            (run_escapes case_id)
          >> (some_hashes case_id row.trace_sha256 >>= λ files.
              check_traces d case_id (d.resolve (joined c.root row.run_dir)) files
              >> (raise_if (not (holds_status row.status)) (bad_status case_id) >> ok row)))

  abbrev pub read_row : Campaign → String → String → Disk → Option CaseFile → Result (Option Row)
  read_row c case_id expected d none = ok none
  read_row c case_id expected d (some corrupt) = err (invalid_record case_id)
  read_row c case_id expected d (some not_dict) = err (identity_mismatch case_id)
  read_row c case_id expected d (some (case_row row)) =
      check_row c case_id expected d row >>= λ r. ok (some r)

  -- `completed_case`; an input that is absent is the empty text.
  unfoldable pub completed_case : Campaign → String → String → Disk → Result (Option Row)
  unfolding is_case_id
  completed_case c case_id input d =
      or_raise (not_in_campaign case_id) (get case_id c.case_inputs) >>= λ expected.
      raise_if (not (is_case_id case_id)) (invalid_case_id case_id)
      >> read_row c case_id (or_text input expected) d (get case_id d.cases)

-- A score document is its identity and what `json.dumps` writes of it under a scorer.
pub record Document : Type 0 where
  pub identity_sha256 : Option String
  pub payload : String → String

abbrev pub is_scorer : String → Bool
is_scorer scorer = eqb (count scorer) 64 && all_codes is_hex scorer

abbrev pub store_scores : String → Document → Write → Option String → Disk → Result String × Disk
store_scores scorer document write none d = (
  write_result write scorer,
  if is_replaced write
      then record d { scores = put scorer (document.payload scorer) d.scores }
      else d,
)
store_scores scorer document write (some text) d =
    if text == document.payload scorer then (ok scorer, d) else (err score_differs, d)

-- It returns the stem of the path.
unfoldable pub write_scores : Campaign → String → Document → Write → Disk → Result String × Disk
unfolding all_codes
write_scores c scorer document write d =
    if not (is_scorer scorer)
    then (err bad_scorer, d)
    else if not (holds document.identity_sha256 c.identity_sha256)
    then (err other_campaign, d)
    else store_scores scorer document write (get scorer d.scores) d

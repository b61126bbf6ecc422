-- ===== src/Evaluation/Evidence.antt =====
-- What a campaign of localbench/evaluation.py keeps: the record of a case, the files, and the errors.
use localbench.Base.{
  ℕ, String, Bool, true, false, ◌&&◌, ◌||◌, Option, none, some, List, ◌==◌, eqb, is_alnum,
  starts_alnum, all_codes,
}
use localbench.Evaluation.Paths.{FilePath}

abbrev pub schema : String
schema = "localbench.eval-campaign.v1"

abbrev pub is_status : String → Bool
is_status s = s == "PASS" || s == "FAIL" || s == "VOID" || s == "ERROR"

abbrev is_case_char : ℕ → Bool
is_case_char n = is_alnum n || eqb n 46 || eqb n 95 || eqb n 45

-- `_CASE_ID.fullmatch`
unfoldable pub is_case_id : String → Bool
unfolding all_codes
is_case_id case_id = starts_alnum case_id && all_codes is_case_char case_id

-- CampaignError, by its message, and the OSError of a write.
pub data Failure : Type 0 where
  invalid_case_id not_in_campaign input_mismatch invalid_status : String → Failure
  run_outside trace_outside : Failure
  trace_missing : FilePath → Failure
  no_trace : Failure
  already_recorded invalid_record identity_mismatch run_escapes no_hashes : String → Failure
  trace_escapes trace_changed bad_status : String → Failure
  bad_scorer other_campaign score_differs os_error : Failure
  no_cases bad_case_ids folder_exists no_manifest bad_manifest bad_identity identity_changed :
      Failure
  empty_manifest bad_manifest_ids no_directories key_error : Failure

pub data Result {ℓ} (A : Type ℓ) : Type ℓ where
  err : Failure → Result A
  ok : A → Result A

infixl 5 ◌>>=◌ ◌>>◌
abbrev pub ◌>>=◌ {ℓ κ} : {A : Type ℓ} {B : Type κ} → Result A → (A → Result B) → Result B
err e >>= rest = err e
ok a >>= rest = rest a

abbrev pub ◌>>◌ {ℓ} : {B : Type ℓ} → Result (Unit {0}) → Result B → Result B
check >> rest = check >>= λ _. rest

abbrev pub raise_if : Bool → Failure → Result (Unit {0})
raise_if true e = err e
raise_if false e = ok tt

abbrev pub or_raise {ℓ} : {A : Type ℓ} → Failure → Option A → Result A
or_raise e none = err e
or_raise e (some a) = ok a

-- The traces of a case: a digest for each path below the run directory.
abbrev pub Traces : Type 0
Traces = List (List String × String)

-- A case record as JSON: a value that is absent or of another type reads as `none`, a run directory that is
-- absent as the empty path.
pub record Row : Type 0 where
  pub schema_version : Option String
  pub case_id : Option String
  pub input_sha256 : Option String
  pub identity_sha256 : Option String
  pub status : Option String
  pub run_dir : FilePath
  pub trace_sha256 : Option (List (FilePath × String))

pub data CaseFile : Type 0 where
  corrupt : CaseFile
  not_dict : CaseFile
  case_row : Row → CaseFile

-- What a campaign reads and writes: the links and the regular files (`Path.resolve`, `is_file` and the bytes), and
-- the files of cases/ and scores/ by their stem.
pub record Disk : Type 0 where
  pub resolve : FilePath → FilePath
  pub file : FilePath → Option String
  pub cases : List (String × CaseFile)
  pub scores : List (String × String)

-- A write of `_atomic_json`: it may fail before it replaces the file, or after it.
pub data Write : Type 0 where
  written failed failed_late : Write

abbrev pub is_replaced : Write → Bool
is_replaced failed = false
is_replaced _ = true

abbrev pub write_result {ℓ} : {A : Type ℓ} → Write → A → Result A
write_result written a = ok a
write_result _ a = err os_error

pub record Campaign : Type 0 where
  pub root : FilePath
  pub identity_sha256 : String
  pub case_inputs : List (String × String)

-- ===== src/Evaluation/Manifest.antt =====
-- EvaluationCampaign.create and EvaluationCampaign.open. An identity is a JSON object, of which its hash
-- (`canonical_sha256`) and Python's equality are parameters.
pub mod Opened
use localbench.Base.{
  String, Bool, true, false, not, ◌||◌, ◌&&◌, Option, none, some, List, [], ◌∷◌, ◌==◌, ◌≡◌, any,
  all, if◌then◌else◌, is_some, holds,
}
use localbench.Evaluation.Paths.{FilePath}
use localbench.Evaluation.Evidence.{
  schema, is_case_id, Failure, Result, err, ok, ◌>>=◌, ◌>>◌, raise_if, or_raise, CaseFile, Write,
  written, failed, failed_late, Campaign, os_error, no_cases, bad_case_ids, folder_exists,
  no_manifest, bad_manifest, bad_identity, identity_changed, empty_manifest, bad_manifest_ids,
  no_directories, key_error,
}

-- A row of the manifest; a key that is absent reads as `none`, and so does a case id that is no text.
pub data Listed : Type 0 where
  no_dict : Listed
  listed : (case_id input_sha256 : Option String) → Listed

pub record Manifest {ℓ} (I : Type ℓ) : Type ℓ where
  pub schema_version : Option String
  pub profile : String
  pub identity : Option I
  pub identity_sha256 : Option String
  pub cases : Option (List Listed)

pub data ManifestFile {ℓ} (I : Type ℓ) : Type ℓ where
  unreadable : ManifestFile I
  no_object : ManifestFile I
  object : Manifest I → ManifestFile I

-- The directory of a campaign.
pub record Folder {ℓ} (I : Type ℓ) : Type ℓ where
  pub manifest : Option (ManifestFile I)
  pub cases : Option (List (String × CaseFile))
  pub scores : Option (List (String × String))

-- Which of the writes of `create` succeed: the directory, the manifest, cases/ and scores/.
pub record Writes : Type 0 where
  pub folder : Bool
  pub manifest : Write
  pub cases : Bool
  pub scores : Bool

abbrev pub rows_of : List (String × String) → List Listed
rows_of [] = []
rows_of ((case_id, digest) ∷ cases) = listed (some case_id) (some digest) ∷ rows_of cases

-- `{row["case_id"]: row["input_sha256"] for row in rows}` for distinct ids
abbrev pub inputs_of : List Listed → Result (List (String × String))
inputs_of [] = ok []
inputs_of (listed (some case_id) (some digest) ∷ rows) =
    inputs_of rows >>= λ inputs. ok ((case_id, digest) ∷ inputs)
inputs_of (row ∷ rows) = err key_error

abbrev id_of : Listed → Option String
id_of no_dict = none
id_of (listed case_id digest) = case_id

abbrev pub has_id : String → List Listed → Bool
has_id k rows = any (λ row. holds (id_of row) k) rows

-- Every row has a proper case id, and no two have one.
abbrev pub are_ids : List Listed → Bool
are_ids [] = true
are_ids (no_dict ∷ rows) = false
are_ids (listed none digest ∷ rows) = false
are_ids (listed (some k) digest ∷ rows) =
    let rest = are_ids rows in is_case_id k && not (has_id k rows) && rest

abbrev pub is_nil {ℓ} : {A : Type ℓ} → List A → Bool
is_nil [] = true
is_nil (x ∷ xs) = false

module _ {ℓ} {I : Type ℓ} (canonical : I → String) (resolve : FilePath → FilePath) where
  abbrev pub manifest_of : I → List (String × String) → String → Manifest I
  manifest_of identity cases profile = record {
    schema_version = some schema;
    profile = profile;
    identity = some identity;
    identity_sha256 = some (canonical identity);
    cases = some (rows_of cases);
  }

  abbrev pub init : FilePath → String → List (String × String) → Campaign
  init root digest inputs = record {
    root = resolve root;
    identity_sha256 = digest;
    case_inputs = inputs;
  }

  abbrev pub folder_of :
      Option (ManifestFile I)
      → Option (List (String × CaseFile))
      → Option (List (String × String))
      → Folder I
  folder_of m cases scores = record { manifest = m; cases = cases; scores = scores }

  -- The directories of `create`, after the manifest
  abbrev pub make_folders : Campaign → ManifestFile I → Writes → Result Campaign × Option (Folder I)
  make_folders c m w =
      if not w.cases
      then (err os_error, some (folder_of (some m) none none))
      else if not w.scores
      then (err os_error, some (folder_of (some m) (some []) none))
      else (ok c, some (folder_of (some m) (some []) (some [])))

  abbrev pub write_folder :
      Campaign → ManifestFile I → Writes → Write → Result Campaign × Option (Folder I)
  write_folder c m w written = make_folders c m w
  write_folder c m w failed = (err os_error, some (folder_of none none none))
  write_folder c m w failed_late = (err os_error, some (folder_of (some m) none none))

  -- `create`: the first write that fails ends it, and what was written stays.
  unfoldable pub create :
      FilePath
      → I
      → List (String × String)
      → String
      → Writes
      → Option (Folder I)
      → Result Campaign × Option (Folder I)
  create root identity cases profile w folder =
      if is_nil cases
      then (err no_cases, folder)
      else if any (λ r. not (is_case_id r.0)) cases
      then (err bad_case_ids, folder)
      else if is_some folder
      then (err folder_exists, folder)
      else if not w.folder
      then (err os_error, folder)
      else write_folder (init root (canonical identity) cases)
          (object (manifest_of identity cases profile)) w w.manifest

  module _ (same : I → I → Bool) where
    abbrev pub is_other : Option I → I → Bool
    is_other none identity = false
    is_other (some expected) identity = not (same identity expected)

    abbrev read_manifest : Option (Folder I) → Result (Manifest I)
    read_manifest none = err no_manifest
    read_manifest (some folder) = elim folder.manifest [
      | none ↦ err no_manifest
      | some unreadable ↦ err no_manifest
      | some no_object ↦ err bad_manifest
      | some (object m) ↦ ok m
    ]

    abbrev has_folders : Option (Folder I) → Bool
    has_folders none = false
    has_folders (some folder) = is_some folder.cases && is_some folder.scores

    abbrev rows_or_empty : Option (List Listed) → List Listed
    rows_or_empty none = []
    rows_or_empty (some rows) = rows

    unfoldable pub open_campaign : FilePath → Option I → Option (Folder I) → Result Campaign
    open_campaign root expected folder = read_manifest folder >>= λ m.
        raise_if (not (holds m.schema_version schema)) bad_manifest
        >> (or_raise bad_identity m.identity >>= λ identity.
            raise_if (not (holds m.identity_sha256 (canonical identity))) bad_identity
            >> (raise_if (is_other expected identity) identity_changed
                >> (raise_if (is_nil (rows_or_empty m.cases)) empty_manifest
                    >> (raise_if (not (are_ids (rows_or_empty m.cases))) bad_manifest_ids
                        >> (raise_if (not (has_folders folder)) no_directories
                            >> (inputs_of (rows_or_empty m.cases) >>= λ inputs.
                                ok (init root (canonical identity) inputs)))))))

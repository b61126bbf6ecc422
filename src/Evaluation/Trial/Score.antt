-- ===== src/Evaluation/Trial/Score.antt =====
-- score_varied_trial of localbench/evaluation.py: the verdict. The wall time and the files are returned as they came.
pub mod Vouched
use localbench.Base.{
  ℤ, pos, negsuc, String, Bool, true, false, not, ◌&&◌, ◌||◌, Option, none, some, List, [], ◌∷◌,
  ◌++◌, ◌==◌, any, if◌then◌else◌, is_some, holds, get, remove_suffix, eqb,
}
use localbench.Evaluation.Paths.{FilePath, joined, relative}
use localbench.Evaluation.Json.{Json, get_key, get_in, is_object, text_of}
use localbench.Evaluation.Trial.{Spec, spec_of, spec_errors, Line, Arguments}
use localbench.Evaluation.Trial.Paths.{normpath, same_path}
use localbench.Evaluation.Trial.Scan.{Done, Scan}
use localbench.Evaluation.Trial.Events.{scan}

abbrev pub Snapshot : Type 0
Snapshot = List (String × Option String)

-- `visible.get(k)`
abbrev pub file_text : String → Snapshot → Option String
file_text k files = elim (get k files) [ none ↦ none | some t ↦ t ]

abbrev is_snapshot : Option Snapshot → Bool
is_snapshot none = false
is_snapshot (some files) =
    is_some (file_text "target.txt" files) && is_some (file_text "decoy.txt" files)

abbrev error_if : Bool → String → List String
error_if true e = e ∷ []
error_if false e = []

-- The checks of the arguments.
unfoldable pub argument_errors : Arguments → List String
argument_errors a =
    spec_errors a.spec
    ++ error_if (not (is_snapshot a.final_files)) "missing or unreadable final file snapshot"
    ++ error_if (not (is_some a.cwd)) "invalid trial working directory"
    ++ error_if (not (is_some a.stdout)) "unreadable OMP JSONL"
    ++ error_if (not a.is_wall_time) "invalid trial wall time"
    ++ error_if (not (is_some a.returncode)) "invalid process exit code"
    ++ error_if (not (is_some a.timed_out)) "invalid process timeout flag"

pub record Score : Type 0 where
  pub status : String
  pub ok : Bool
  pub reasons : List String

-- What the checks leave.
pub record Trial : Type 0 where
  pub spec : Spec
  pub stdout : List Line
  pub returncode : ℤ
  pub timed_out : Bool
  pub visible : Snapshot
  pub cwd : FilePath

abbrev pub is_zero : ℤ → Bool
is_zero (pos n) = eqb n 0
is_zero (negsuc n) = false

abbrev pub empty_scan : Scan
empty_scan = record {
  starts = [];
  seen = [];
  completed = [];
  answer = none;
  reasons = [];
  errors = [];
}

abbrev pub is_empty {ℓ} : {A : Type ℓ} → List A → Bool
is_empty [] = true
is_empty (x ∷ xs) = false

abbrev pub scan_of : Trial → Scan
scan_of t = scan t.spec t.cwd t.stdout empty_scan

abbrev pub target_of : Trial → FilePath
target_of t = normpath (joined t.cwd (relative ("target.txt" ∷ [])))

-- The reasons that every trial has.
abbrev pub common_reasons : Trial → Scan → List String
common_reasons t s =
    error_if (not (is_empty s.starts)) "unfinished tool call"
    ++ error_if t.timed_out "process timed out"
    ++ error_if (not (is_zero t.returncode)) "process did not exit successfully"
    ++ error_if (not (holds (file_text "decoy.txt" t.visible) t.spec.decoy_initial)) "decoy changed"

abbrev pub line_of : String → String
line_of t = remove_suffix "\n" t

-- `end["result"]["details"]["displayContent"]["text"]`, if it is a text
abbrev pub displayed : Done → Option String
displayed d = text_of (get_in "text" (get_in "displayContent" (get_in "details" d.result)))

abbrev pub is_read : Trial → Done → Bool
is_read t d = d.name == "read" && same_path d.path (some (target_of t)) && not d.is_error

-- The errors of the loop over the completed calls.
abbrev pub read_errors : Trial → List Done → List String
read_errors t [] = []
read_errors t (d ∷ ds) =
    error_if (is_read t d && not (is_some (displayed d))) "unreadable read tool result"
    ++ read_errors t ds

abbrev pub is_read_ok : Trial → List Done → Bool
is_read_ok t ds = any (λ d. is_read t d && holds (displayed d) (line_of t.spec.initial)) ds

abbrev pub read_reasons : Trial → Scan → List String
read_reasons t s =
    error_if (not (holds (file_text "target.txt" t.visible) t.spec.initial))
      "read target differs from planted text"
    ++ error_if (not (holds s.answer (line_of t.spec.expected)))
        "answer does not match planted value"
    ++ error_if (not (is_read_ok t s.completed)) "no matching successful read of planted text"

abbrev pub is_edit : Trial → Done → Bool
is_edit t d =
    (d.name == "edit" || d.name == "write")
    && same_path d.path (some (target_of t))
    && not d.is_error

abbrev pub edit_reasons : Trial → Scan → List String
edit_reasons t s =
    error_if (t.spec.initial == t.spec.expected) "edit prestate already matches target"
    ++ error_if (not (holds (file_text "target.txt" t.visible) t.spec.expected))
        "target was not edited to expected text"
    ++ error_if (not (any (is_edit t) s.completed)) "no matching successful edit/write tool call"

abbrev pub verdict : List String → List String → Score
verdict (e ∷ errors) reasons = record {
  status = "ERROR";
  ok = false;
  reasons = (e ∷ errors) ++ reasons;
}
verdict [] (r ∷ reasons) = record { status = "FAIL"; ok = false; reasons = r ∷ reasons }
verdict [] [] = record { status = "PASS"; ok = true; reasons = [] }

unfoldable pub judged : Trial → Score
unfolding scan remove_suffix
judged t =
    let s = scan_of t in
    if t.spec.family == "read"
    then verdict (s.errors ++ read_errors t s.completed)
        (s.reasons ++ common_reasons t s ++ read_reasons t s)
    else verdict s.errors (s.reasons ++ common_reasons t s ++ edit_reasons t s)

abbrev trial_of :
    Json
    → Option (List Line)
    → Option ℤ
    → Option Bool
    → Option Snapshot
    → Option FilePath
    → Option Trial
trial_of spec (some stdout) (some returncode) (some timed_out) (some visible) (some cwd) =
    some (record {
      spec = spec_of spec;
      stdout = stdout;
      returncode = returncode;
      timed_out = timed_out;
      visible = visible;
      cwd = cwd;
    })
trial_of spec _ _ _ _ _ = none

-- What is left of arguments without an error.
abbrev pub trial : Arguments → Option Trial
trial a = trial_of a.spec a.stdout a.returncode a.timed_out a.final_files a.cwd

abbrev pub refused : List String → Score
refused errors = record { status = "ERROR"; ok = false; reasons = errors }

abbrev pub scored : List String → Option Trial → Score
scored (e ∷ errors) t = refused (e ∷ errors)
scored [] none = refused []
scored [] (some t) = judged t

unfoldable pub score_varied_trial : Arguments → Score
unfolding argument_errors
score_varied_trial a = scored (argument_errors a) (trial a)

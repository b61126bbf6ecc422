-- ===== src/Tests/Trials.antt =====
-- Varied trials: runs, and the theorem at a concrete trial.
use localbench.Base.{pos, String, Bool, true, false, some, List, [], ◌∷◌, ◌≡◌, refl}
use localbench.Evaluation.Paths.{FilePath}
use localbench.Evaluation.Json.{Json, bool, int, text, array, object, nil, cons, end, field}
use localbench.Evaluation.Trial.{Line, blank, json, Arguments, spec_errors}
use localbench.Evaluation.Trial.Paths.{path_of, normpath, tool_path, headers}
use localbench.Evaluation.Trial.Events.{tool_start, tool_end, scan}
use localbench.Evaluation.Trial.Score.{Trial, trial, argument_errors, judged, score_varied_trial}
use localbench.Evaluation.Trial.Score.Vouched.{Vouched, score_varied_trial-Vouched}

abbrev cwd : FilePath
cwd = record { absolute = true; parts = "data" ∷ "ws" ∷ [] }

abbrev spec : Json
spec = object (
    field "grader_version" (text "varied.v2") (
      field "family" (text "edit") (
        field "phase" (text "heldout") (
          field "seed" (int (pos 7)) (
            field "file" (text "target.txt") (
              field "decoy_file" (text "decoy.txt") (
                field "allowed_tools" (array (cons (text "read") (cons (text "edit") nil))) (
                  field "initial" (text "old") (
                    field "expected" (text "new") (
                      field "decoy_initial" (text "decoy")
                        (field "prompt" (text "edit it") end)))))))))))

abbrev starts : String → Line
starts path = json (
    object (
      field "type" (text "tool_execution_start") (
        field "toolCallId" (text "c1") (
          field "toolName" (text "edit")
            (field "args" (object (field "path" (text path) end)) end)))))

abbrev ends : Bool → Line
ends failed = json (
    object (
      field "type" (text "tool_execution_end") (
        field "toolCallId" (text "c1") (
          field "toolName" (text "edit")
            (field "isError" (bool failed) (field "result" (text "done") end))))))

abbrev arguments : List Line → Arguments
arguments stdout = record {
  spec = spec;
  stdout = some stdout;
  returncode = some (pos 0);
  timed_out = some false;
  final_files = some (("target.txt", some "new") ∷ ("decoy.txt", some "decoy") ∷ []);
  cwd = some cwd;
  is_wall_time = true;
}

abbrev edited : Arguments
edited = arguments (starts "./target.txt" ∷ blank ∷ ends false ∷ [])

passes : (score_varied_trial edited).status ≡ "PASS"
unfolding score_varied_trial judged scan tool_start tool_end argument_errors spec_errors path_of
    normpath tool_path
passes = refl

-- The file is as expected, but the call named another path.
fails_elsewhere :
    (score_varied_trial (arguments (starts "../ws/target.txt" ∷ ends false ∷ []))).reasons
    ≡ "tool path traverses outside its named file" ∷ "no matching successful edit/write tool call"
      ∷ []
unfolding score_varied_trial judged scan tool_start tool_end argument_errors spec_errors path_of
    normpath tool_path
fails_elsewhere = refl

finds_headers : headers "[a/b#12]\n+x\n[a/b#ff] \nno [c#1]" ≡ "a/b" ∷ []
unfolding headers
finds_headers = refl

score_varied_trial-Vouched_example : (t : Trial) × (trial edited ≡ some t) × Vouched t
score_varied_trial-Vouched_example = score_varied_trial-Vouched edited passes

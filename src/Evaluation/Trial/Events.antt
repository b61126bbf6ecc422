-- ===== src/Evaluation/Trial/Events.antt =====
-- The loop of score_varied_trial over the events of the output.
use localbench.Base.{
  String, Bool, true, false, not, ◌&&◌, ◌||◌, Option, none, some, List, [], ◌∷◌, ◌++◌, ◌==◌, any,
  concat, delete, if◌then◌else◌, is_some, holds, get, put,
}
use localbench.Evaluation.Paths.{FilePath}
use localbench.Evaluation.Json.{Json, get_key, get_in, is_object, text_of, bool_of, key_text}
use localbench.Evaluation.Trial.{Spec, Line, blank, garbled, json, or_empty, is_one_of}
use localbench.Evaluation.Trial.Paths.{tool_path, same_path, headers}
use localbench.Evaluation.Trial.Scan.{
  break_with, because, message_end, Call, Scan, Flow, more, broken,
}

-- `isinstance(x, str) and x`
abbrev pub full_text : Option Json → Option String
full_text v = elim (text_of v) [ none ↦ none | some t ↦ if t == "" then none else some t ]

abbrev pub is_hashline : String → Option Json → Bool
is_hashline name args =
    name == "edit"
    && (not (is_some (get_in "path" args)) && is_some (text_of (get_in "input" args)))

abbrev only : List String → Option String
only (h ∷ []) = if h == "" then none else some h
only _ = none

abbrev is_many : List String → Bool
is_many (h ∷ k ∷ hs) = true
is_many _ = false

abbrev header_list : Option Json → List String
header_list args = headers (or_empty (text_of (get_in "input" args)))

-- The path that a call names.
abbrev pub named_path : String → Option Json → Option String
named_path name args =
    if is_hashline name args then only (header_list args) else full_text (get_in "path" args)

abbrev pub header_reasons : String → Option Json → List String
header_reasons name args =
    if is_hashline name args && is_many (header_list args)
    then "edit tool call names more than one file" ∷ []
    else []

abbrev pub file_path : FilePath → Option String → Option FilePath
file_path cwd none = none
file_path cwd (some p) = tool_path cwd p

abbrev pub path_reasons : FilePath → String → Option String → List String
path_reasons cwd name none = concat (name ∷ " tool call has no file path" ∷ []) ∷ []
path_reasons cwd name (some p) =
    if is_some (tool_path cwd p) then [] else "tool path traverses outside its named file" ∷ []

abbrev pub tool_reasons : Spec → String → List String
tool_reasons spec name =
    if is_one_of (some name) spec.allowed_tools
    then []
    else concat ("unallowed " ∷ name ∷ " tool call" ∷ []) ∷ []

abbrev pub is_seen : String → List String → Bool
is_seen k seen = any (λ j. j == k) seen

abbrev pub start_call : Spec → FilePath → String → String → Option Json → Scan → Scan
start_call spec cwd call_id name args s =
    record (because
      (header_reasons name args
        ++ path_reasons cwd name (named_path name args)
        ++ tool_reasons spec name)
      s) {
        starts =
            put call_id
              (record {
                name = name;
                path = file_path cwd (named_path name args);
                hashline = is_hashline name args;
              })
              s.starts;
        seen = call_id ∷ s.seen;
      }

abbrev pub started : Spec → FilePath → Option String → Option String → Option Json → Scan → Flow
started spec cwd (some call_id) (some name) args s =
    if is_seen call_id s.seen || not (is_object args)
    then break_with "malformed or duplicate tool start" s
    else more (start_call spec cwd call_id name args s)
started spec cwd call_id name args s = break_with "malformed or duplicate tool start" s

unfoldable pub tool_start : Spec → FilePath → Json → Scan → Flow
tool_start spec cwd event s =
    started spec cwd (full_text (get_key "toolCallId" event)) (key_text "toolName" event)
      (get_key "args" event) s

abbrev reported : Json → Option String
reported event = full_text (get_in "path" (get_in "details" (get_key "result" event)))

-- Whether a hashline edit counts only for another file than its header.
abbrev pub disagrees : FilePath → Json → Call → Bool
disagrees cwd event call =
    call.hashline
    && is_some call.path
    && not (is_some (reported event) && same_path (file_path cwd (reported event)) call.path)

abbrev pub end_reasons : FilePath → Json → Bool → Call → List String
end_reasons cwd event is_error call =
    (if is_error then concat ("failed " ∷ call.name ∷ " tool call" ∷ []) ∷ [] else [])
    ++ (if disagrees cwd event call
        then "edit result path is missing or disagrees with its call" ∷ []
        else [])

abbrev pub end_call : FilePath → Json → Bool → Call → Scan → Scan
end_call cwd event is_error call s = record (because (end_reasons cwd event is_error call) s) {
  completed =
      s.completed
      ++ record {
        name = call.name;
        path = if disagrees cwd event call then none else call.path;
        is_error = is_error;
        result = get_key "result" event;
      }
        ∷ [];
}

abbrev pub returned : FilePath → Json → Option Bool → Call → Scan → Flow
returned cwd event none call s = break_with "malformed tool result" s
returned cwd event (some is_error) call s =
    if holds (key_text "toolName" event) call.name && is_some (get_key "result" event)
    then more (end_call cwd event is_error call s)
    else break_with "malformed tool result" s

abbrev pub without : String → Scan → Scan
without call_id s = record s { starts = delete (λ r. r.0 == call_id) s.starts }

abbrev pub popped : FilePath → Json → String → Option Call → Scan → Flow
popped cwd event call_id none s = more (because ("unmatched tool end" ∷ []) s)
popped cwd event call_id (some call) s =
    returned cwd event (bool_of (get_key "isError" event)) call (without call_id s)

abbrev pub ended : FilePath → Json → Option String → Scan → Flow
ended cwd event none s = break_with "malformed tool end" s
ended cwd event (some call_id) s = popped cwd event call_id (get call_id s.starts) s

unfoldable pub tool_end : FilePath → Json → Scan → Flow
tool_end cwd event s = ended cwd event (full_text (get_key "toolCallId" event)) s

abbrev pub dispatch : Spec → FilePath → Json → Option String → Scan → Flow
dispatch spec cwd event none s = break_with "malformed OMP event" s
dispatch spec cwd event (some kind) s =
    if kind == "message_end"
    then message_end event s
    else if kind == "tool_execution_start"
    then tool_start spec cwd event s
    else if kind == "tool_execution_end"
    then tool_end cwd event s
    else more s

abbrev pub scan_line : Spec → FilePath → Line → Scan → Flow
scan_line spec cwd blank s = more s
scan_line spec cwd garbled s = break_with "malformed OMP JSONL event" s
scan_line spec cwd (json event) s = dispatch spec cwd event (key_text "type" event) s

abbrev pub scan_rest : Flow → (Scan → Scan) → Scan
scan_rest (broken s) rest = s
scan_rest (more s) rest = rest s

-- The loop over the lines.
unfoldable pub scan : Spec → FilePath → List Line → Scan → Scan
unfolding tool_start tool_end
scan spec cwd [] s = s
scan spec cwd (line ∷ lines) s = scan_rest (scan_line spec cwd line s) (scan spec cwd lines)

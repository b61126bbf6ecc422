-- ===== src/Evaluation/Trial/Clean.antt =====
-- A loop of score_varied_trial that leaves no reason and no error has read events only, and only fine calls.
use localbench.Base.{
  String, Bool, true, false, not, ◌&&◌, ◌||◌, Option, none, some, List, [], ◌∷◌, ◌++◌, ◌==◌, ◌≡◌,
  refl, arith, all, inl, inr, Bool-cases, Option-cases, if◌then◌else◌, is_some, holds, get, eq_iff,
}
use localbench.Evaluation.Paths.{FilePath}
use localbench.Evaluation.Json.{
  Json, Items, get_key, get_in, is_object, text_of, bool_of, items_of, key_text,
}
use localbench.Evaluation.Trial.{Spec, Line, blank, garbled, json, is_one_of}
use localbench.Evaluation.Trial.Scan.{
  Call, Scan, Flow, more, broken, break_with, text_parts, answered, content_read, message_end,
}
use localbench.Evaluation.Trial.Events.{
  full_text, named_path, file_path, header_reasons, path_reasons, tool_reasons, is_seen, start_call,
  started, tool_start, end_reasons, returned, popped, ended, tool_end, dispatch, scan_line, scan,
  scan_rest, without,
}

pub append-nil_inv {ℓ} : {A : Type ℓ} (xs ys : List A) → xs ++ ys ≡ [] → (xs ≡ []) × (ys ≡ [])
append-nil_inv [] ys h = (refl, h)
append-nil_inv (x ∷ xs) ys h = absurd cc

-- No reason and no error.
abbrev pub IsClean : Scan → Type 0
IsClean s = (s.reasons ≡ []) × (s.errors ≡ [])

abbrev names_file : FilePath → String → Option Json → Bool
names_file cwd name args = is_some (file_path cwd (named_path name args))

abbrev is_allowed_call : Spec → FilePath → Option String → Option Json → Bool
is_allowed_call spec cwd none args = false
is_allowed_call spec cwd (some name) args =
    is_one_of (some name) spec.allowed_tools && names_file cwd name args

abbrev is_false : Option Bool → Bool
is_false none = false
is_false (some b) = not b

abbrev is_fine_event : Spec → FilePath → Json → Option String → Bool
is_fine_event spec cwd event none = false
is_fine_event spec cwd event (some kind) =
    if kind == "tool_execution_start"
    then is_allowed_call spec cwd (key_text "toolName" event) (get_key "args" event)
    else if kind == "tool_execution_end"
    then is_false (bool_of (get_key "isError" event))
    else true

-- A line that a passing trial may have: an event, where a call starts only of an allowed tool, with a path that does
-- not traverse, and ends without an error.
abbrev pub is_fine : Spec → FilePath → Line → Bool
is_fine spec cwd blank = true
is_fine spec cwd garbled = false
is_fine spec cwd (json event) = is_fine_event spec cwd event (key_text "type" event)

-- What a clean state after a step says of the state before it, with a fact of the line. A break leaves no clean state.
abbrev Fine : Scan → Bool → Flow → Type 0
Fine s fact (more after) = IsClean after → IsClean s × (fact ≡ true)
Fine s fact (broken after) = ¬ IsClean after

break_with-Fine : (e : String) (s : Scan) → Fine s true (break_with e s)
break_with-Fine e s (h, k) = cc (append-nil_inv s.errors (e ∷ []) k).1

answered-Fine : (ts : List String) (s : Scan) → Fine s true (more (answered ts s))
answered-Fine [] s h = (h, refl)
answered-Fine (t ∷ ts) s h = (h, refl)

content_read-Fine : (content : Option Items) (s : Scan) → Fine s true (content_read content s)
content_read-Fine none s = break_with-Fine _ s
content_read-Fine (some items) s = elim (Option-cases (text_parts items)) [
  | inl e ↦ rw e (break_with-Fine "malformed assistant text" s)
  | inr (ts, e) ↦ rw e (answered-Fine ts s)
]

message_end-Fine : (event : Json) (s : Scan) → Fine s true (message_end event s)
message_end-Fine event s =
    elim (Bool-cases (
      is_object (get_key "message" event)
      && holds (text_of (get_in "role" (get_key "message" event))) "assistant")) [
        | inl own ↦
            rw own (content_read-Fine (items_of (get_in "content" (get_key "message" event))) s)
        | inr other ↦ rw other (λ h. (h, refl))
      ]

path_reasons-none :
    (cwd : FilePath) (name : String) (p : Option String)
    → path_reasons cwd name p ≡ []
    → is_some (file_path cwd p) ≡ true
path_reasons-none cwd name none h = absurd cc
path_reasons-none cwd name (some p) h = ground arith

tool_reasons-none :
    (spec : Spec) (name : String)
    → tool_reasons spec name ≡ []
    → is_one_of (some name) spec.allowed_tools ≡ true
tool_reasons-none spec name h = ground arith

start_call-Fine :
    (spec : Spec) (cwd : FilePath) (call_id name : String) (args : Option Json) (s : Scan)
    → Fine s
        (is_allowed_call spec cwd (some name) args)
        (more (start_call spec cwd call_id name args s))
start_call-Fine spec cwd call_id name args s (h, k) =
    let (before, new) = append-nil_inv s.reasons _ h in
    let (first, tool) =
      append-nil_inv (header_reasons name args ++ path_reasons cwd name (named_path name args)) _
        new in
    let (_, path) = append-nil_inv (header_reasons name args) _ first in
    (
      (before, k),
      rw (tool_reasons-none spec name tool, path_reasons-none cwd name (named_path name args) path)
          refl,
    )

started-Fine :
    (spec : Spec) (cwd : FilePath) (call_id name : Option String) (args : Option Json) (s : Scan)
    → Fine s (is_allowed_call spec cwd name args) (started spec cwd call_id name args s)
started-Fine spec cwd none none args s = break_with-Fine _ s
started-Fine spec cwd none (some name) args s = break_with-Fine _ s
started-Fine spec cwd (some call_id) none args s = break_with-Fine _ s
started-Fine spec cwd (some call_id) (some name) args s =
    elim (Bool-cases (is_seen call_id s.seen || not (is_object args))) [
      | inl bad ↦ rw bad (break_with-Fine "malformed or duplicate tool start" s)
      | inr good ↦ rw good (start_call-Fine spec cwd call_id name args s)
    ]

end_reasons-none :
    (cwd : FilePath) (event : Json) (is_error : Bool) (call : Call)
    → end_reasons cwd event is_error call ≡ []
    → not is_error ≡ true
end_reasons-none cwd event true call h = absurd cc
end_reasons-none cwd event false call h = refl

returned-Fine :
    (cwd : FilePath) (event : Json) (is_error : Option Bool) (call : Call) (s : Scan)
    → Fine s (is_false is_error) (returned cwd event is_error call s)
returned-Fine cwd event none call s = break_with-Fine _ s
returned-Fine cwd event (some is_error) call s =
    elim (Bool-cases
      (holds (key_text "toolName" event) call.name && is_some (get_key "result" event))) [
        | inl whole ↦ rw whole λ (h, k).
            let (before, new) = append-nil_inv s.reasons _ h in
            ((before, k), end_reasons-none cwd event is_error call new)
        | inr bad ↦ rw bad (break_with-Fine "malformed tool result" s)
      ]

popped-Fine :
    (cwd : FilePath) (event : Json) (call_id : String) (call : Option Call) (s : Scan)
    → Fine s (is_false (bool_of (get_key "isError" event))) (popped cwd event call_id call s)
popped-Fine cwd event call_id none s = λ (h, k). absurd (cc (append-nil_inv s.reasons _ h).1)
popped-Fine cwd event call_id (some call) s =
    returned-Fine cwd event (bool_of (get_key "isError" event)) call (without call_id s)

ended-Fine :
    (cwd : FilePath) (event : Json) (call_id : Option String) (s : Scan)
    → Fine s (is_false (bool_of (get_key "isError" event))) (ended cwd event call_id s)
ended-Fine cwd event none s = break_with-Fine _ s
ended-Fine cwd event (some call_id) s = popped-Fine cwd event call_id (get call_id s.starts) s

dispatch-Fine :
    (spec : Spec) (cwd : FilePath) (event : Json) (kind : Option String) (s : Scan)
    → Fine s (is_fine_event spec cwd event kind) (dispatch spec cwd event kind s)
unfolding tool_start tool_end
dispatch-Fine spec cwd event none s = break_with-Fine _ s
dispatch-Fine spec cwd event (some kind) s = elim (Bool-cases (kind == "message_end")) [
  | inl message ↦ rw ((eq_iff kind "message_end").0 message) (message_end-Fine event s)
  | inr not_message ↦ elim (Bool-cases (kind == "tool_execution_start")) [
    | inl start ↦
        rw (not_message, start)
          (started-Fine spec cwd (full_text (get_key "toolCallId" event))
            (key_text "toolName" event) (get_key "args" event) s)
    | inr not_start ↦ elim (Bool-cases (kind == "tool_execution_end")) [
      | inl end' ↦
          rw (not_message, not_start, end')
            (ended-Fine cwd event (full_text (get_key "toolCallId" event)) s)
      | inr other ↦ rw (not_message, not_start, other) (λ h. (h, refl))
    ]
  ]
]

scan_line-Fine :
    (spec : Spec) (cwd : FilePath) (line : Line) (s : Scan)
    → Fine s (is_fine spec cwd line) (scan_line spec cwd line s)
scan_line-Fine spec cwd blank s = λ h. (h, refl)
scan_line-Fine spec cwd garbled s = break_with-Fine _ s
scan_line-Fine spec cwd (json event) s = dispatch-Fine spec cwd event (key_text "type" event) s

flow-IsClean :
    (flow : Flow) (s : Scan) (fact rest : Bool) (go : Scan → Scan)
    → Fine s fact flow
    → ((after : Scan) → IsClean (go after) → IsClean after × (rest ≡ true))
    → IsClean (scan_rest flow go)
    → IsClean s × ((fact && rest) ≡ true)
flow-IsClean (broken after) s fact rest go fine next h = absurd (fine h)
flow-IsClean (more after) s fact rest go fine next h =
    let (clean, others) = next after h in
    let (before, this) = fine clean in (before, rw (this, others) refl)

-- The lines behind a break are never read, but it leaves an error.
pub scan-IsClean :
    (spec : Spec) (cwd : FilePath) (lines : List Line) (s : Scan)
    → IsClean (scan spec cwd lines s)
    → IsClean s × (all (is_fine spec cwd) lines ≡ true)
unfolding scan
scan-IsClean spec cwd [] s h = (h, refl)
scan-IsClean spec cwd (line ∷ lines) s h =
    flow-IsClean (scan_line spec cwd line s) s (is_fine spec cwd line)
      (all (is_fine spec cwd) lines) (scan spec cwd lines) (scan_line-Fine spec cwd line s)
      (scan-IsClean spec cwd lines) h

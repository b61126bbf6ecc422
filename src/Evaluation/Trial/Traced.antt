-- ===== src/Evaluation/Trial/Traced.antt =====
-- The calls that score_varied_trial counts as completed were started in the output, with their file.
use localbench.Base.{
  all-put, get-all, String, Bool, true, false, not, ◌&&◌, ◌||◌, Option, none, some, List, [], ◌∷◌,
  ◌==◌, ◌≡◌, refl, arith, any, all, inl, inr, Bool-cases, Option-cases, is_some, holds, get,
  all-append, all-delete, and-eq-true, eq_refl,
}
use localbench.Evaluation.Paths.{FilePath, parts_eq_refl, parts_eq→eq}
use localbench.Evaluation.Json.{
  Json, Items, get_key, get_in, is_object, text_of, bool_of, items_of, key_text,
}
use localbench.Evaluation.Trial.{Spec, Line, blank, garbled, json}
use localbench.Evaluation.Trial.Paths.{same_path}
use localbench.Evaluation.Trial.Scan.{
  Call, Done, Scan, Flow, more, broken, text_parts, answered, content_read, message_end,
}
use localbench.Evaluation.Trial.Events.{
  full_text, named_path, file_path, is_seen, started, tool_start, disagrees, returned, ended,
  tool_end, dispatch, scan_line, scan, scan_rest, without,
}

-- A line that starts a call of the tool with the file.
abbrev pub is_call : FilePath → String → Option FilePath → Line → Bool
is_call cwd name path (json event) =
    holds (key_text "type" event) "tool_execution_start"
    && (holds (key_text "toolName" event) name
        && same_path (file_path cwd (named_path name (get_key "args" event))) path)
is_call cwd name path line = false

same_path_refl : (p : Option FilePath) → same_path p p ≡ true
same_path_refl none = refl
same_path_refl (some p) = elim (Bool-cases p.absolute) [
  | inl e ↦ rw (e, parts_eq_refl p.parts) refl
  | inr e ↦ rw (e, parts_eq_refl p.parts) refl
]

same_path→eq : (p q : Option FilePath) → same_path p q ≡ true → p ≡ q
same_path→eq none none h = refl
same_path→eq none (some q) h = cc
same_path→eq (some p) none h = cc
same_path→eq (some p) (some q) h = ground (arith, parts_eq→eq p.parts q.parts)

module _ (cwd : FilePath) (output : List Line) where
  abbrev is_started : Call → Bool
  is_started call = any (is_call cwd call.name call.path) output

  abbrev pub is_traced : Done → Bool
  is_traced d = not (is_some d.path) || any (is_call cwd d.name d.path) output

  traced_at :
      (d : Done) {path : FilePath}
      → d.path ≡ some path
      → is_traced d ≡ true
      → any (is_call cwd d.name (some path)) output ≡ true
  traced_at d e h = ground arith

  abbrev IsTraced : Scan → Type 0
  IsTraced s = (all (λ r. is_started r.1) s.starts ≡ true) × (all is_traced s.completed ≡ true)

  abbrev FlowTraced : Flow → Type 0
  FlowTraced (more s) = IsTraced s
  FlowTraced (broken s) = IsTraced s

  answered-Traced : (ts : List String) (s : Scan) → IsTraced s → IsTraced (answered ts s)
  answered-Traced [] s h = h
  answered-Traced (t ∷ ts) s h = h

  content_read-Traced :
      (content : Option Items) (s : Scan) → IsTraced s → FlowTraced (content_read content s)
  content_read-Traced none s h = h
  content_read-Traced (some items) s h = elim (Option-cases (text_parts items)) [
    | inl e ↦ rw e h
    | inr (ts, e) ↦ rw e (answered-Traced ts s h)
  ]

  message_end-Traced : (event : Json) (s : Scan) → IsTraced s → FlowTraced (message_end event s)
  message_end-Traced event s h =
      elim (Bool-cases (
        is_object (get_key "message" event)
        && holds (text_of (get_in "role" (get_key "message" event))) "assistant")) [
          | inl own ↦
              rw own
                (content_read-Traced (items_of (get_in "content" (get_key "message" event))) s h)
          | inr other ↦ rw other h
        ]

  started-Traced :
      (spec : Spec) (call_id name : Option String) (args : Option Json) (s : Scan)
      → ((n : String)
          → name ≡ some n
          → any (is_call cwd n (file_path cwd (named_path n args))) output ≡ true)
      → IsTraced s
      → FlowTraced (started spec cwd call_id name args s)
  started-Traced spec none none args s here h = h
  started-Traced spec none (some name) args s here h = h
  started-Traced spec (some call_id) none args s here h = h
  started-Traced spec (some call_id) (some name) args s here (hs, hd) =
      elim (Bool-cases (is_seen call_id s.seen || not (is_object args))) [
        | inl bad ↦ rw bad (hs, hd)
        | inr good ↦ rw good (all-put is_started call_id _ s.starts (here name refl) hs, hd)
      ]

  returned-Traced :
      (event : Json) (is_error : Option Bool) (call : Call) (s : Scan)
      → is_started call ≡ true
      → IsTraced s
      → FlowTraced (returned cwd event is_error call s)
  returned-Traced event none call s c h = h
  returned-Traced event (some is_error) call s c (hs, hd) =
      elim (Bool-cases
        (holds (key_text "toolName" event) call.name && is_some (get_key "result" event))) [
          | inr bad ↦ rw bad (hs, hd)
          | inl whole ↦ rw whole (
            hs,
            rw (all-append is_traced s.completed, hd)
                (elim (Bool-cases (disagrees cwd event call)) [
                  | inl other ↦ rw other refl
                  | inr same ↦ rw (same, c) (ground arith)
                ]),
          )
        ]

  ended-Traced :
      (event : Json) (call_id : Option String) (s : Scan)
      → IsTraced s
      → FlowTraced (ended cwd event call_id s)
  ended-Traced event none s h = h
  ended-Traced event (some call_id) s (hs, hd) = elim (Option-cases (get call_id s.starts)) [
    | inl e ↦ rw e (hs, hd)
    | inr (call, e) ↦ rw e (
        returned-Traced event (bool_of (get_key "isError" event)) call (without call_id s)
          (get-all is_started call_id call s.starts hs e)
          (all-delete (λ r. is_started r.1) (λ r. r.0 == call_id) s.starts hs, hd))
  ]

  dispatch-Traced :
      (spec : Spec) (event : Json) (kind : Option String) (s : Scan)
      → key_text "type" event ≡ kind
      → ((p : Line → Bool) → p (json event) ≡ true → any p output ≡ true)
      → IsTraced s
      → FlowTraced (dispatch spec cwd event kind s)
  unfolding tool_start tool_end
  dispatch-Traced spec event none s k on h = h
  dispatch-Traced spec event (some kind) s k on h = elim (Bool-cases (kind == "message_end")) [
    | inl message ↦ rw message (message_end-Traced event s h)
    | inr not_message ↦ elim (Bool-cases (kind == "tool_execution_start")) [
      | inl start ↦
          rw (not_message, start)
            (started-Traced spec (full_text (get_key "toolCallId" event))
              (key_text "toolName" event) (get_key "args" event) s
              (λ n e. on (is_call cwd n (file_path cwd (named_path n (get_key "args" event)))) (
                rw
                  (
                    k,
                    start,
                    e,
                    eq_refl n,
                    same_path_refl (file_path cwd (named_path n (get_key "args" event))),
                  )
                  refl))
              h)
      | inr not_start ↦ elim (Bool-cases (kind == "tool_execution_end")) [
        | inl end' ↦
            rw (not_message, not_start, end')
              (ended-Traced event (full_text (get_key "toolCallId" event)) s h)
        | inr other ↦ rw (not_message, not_start, other) h
      ]
    ]
  ]

  scan_line-Traced :
      (spec : Spec) (line : Line) (s : Scan)
      → ((p : Line → Bool) → p line ≡ true → any p output ≡ true)
      → IsTraced s
      → FlowTraced (scan_line spec cwd line s)
  scan_line-Traced spec blank s on h = h
  scan_line-Traced spec garbled s on h = h
  scan_line-Traced spec (json event) s on h =
      dispatch-Traced spec event (key_text "type" event) s refl on h

  flow-Traced :
      (flow : Flow) (go : Scan → Scan)
      → FlowTraced flow
      → ((s : Scan) → IsTraced s → IsTraced (go s))
      → IsTraced (scan_rest flow go)
  flow-Traced (more s) go h next = next s h
  flow-Traced (broken s) go h next = h

  pub scan-Traced :
      (spec : Spec) (lines : List Line) (s : Scan)
      → ((p : Line → Bool) → any p lines ≡ true → any p output ≡ true)
      → IsTraced s
      → IsTraced (scan spec cwd lines s)
  unfolding scan
  scan-Traced spec [] s on h = h
  scan-Traced spec (line ∷ lines) s on h =
      flow-Traced (scan_line spec cwd line s) (scan spec cwd lines)
        (scan_line-Traced spec line s (λ p e. on p (rw e refl)) h)
        (λ t. scan-Traced spec lines t (λ p e. on p (ground arith)))

  -- A completed call with the file was started with it in the output.
  pub any-traced :
      (path : FilePath) (q : String → Bool) (r : Done → Bool) (ds : List Done)
      → ((d : Done) → r d ≡ true → (q d.name ≡ true) × (same_path d.path (some path) ≡ true))
      → all is_traced ds ≡ true
      → any r ds ≡ true
      → (name : String) × (q name ≡ true) × (any (is_call cwd name (some path)) output ≡ true)
  any-traced path q r [] on hs e = absurd cc
  any-traced path q r (d ∷ ds) on hs e =
      let (first, rest) = and-eq-true {a = is_traced d} hs in
      elim (Bool-cases (r d)) [
        | inl here' ↦
            let (named, same) = on d here' in
            (d.name, named, traced_at d (same_path→eq d.path (some path) same) first)
        | inr other ↦ any-traced path q r ds on rest (rw other at e)
      ]

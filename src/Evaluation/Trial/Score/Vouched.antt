-- ===== src/Evaluation/Trial/Score/Vouched.antt =====
-- What a PASS of score_varied_trial vouches for.
use localbench.Base.{
  String, Bool, true, false, ◌||◌, Option, none, some, List, [], ◌∷◌, ◌++◌, ◌==◌, ◌≡◌, refl, arith,
  any, all, inl, inr, Bool-cases, if◌then◌else◌, holds, false≢true, eq_iff,
}
use localbench.Evaluation.Trial.{Arguments}
use localbench.Evaluation.Trial.Scan.{Scan}
use localbench.Evaluation.Trial.Clean.{append-nil_inv, is_fine, scan-IsClean}
use localbench.Evaluation.Trial.Traced.{is_call, scan-Traced, any-traced}
use localbench.Evaluation.Trial.Score.{
  Trial, trial, file_text, is_zero, scan_of, target_of, common_reasons, is_read_ok, is_edit,
  read_reasons, edit_reasons, verdict, judged, argument_errors, score_varied_trial, scored,
  empty_scan,
}

-- The output has a call of such a tool with the target as its file.
abbrev pub HasCall : Trial → (String → Bool) → Type 0
HasCall t q =
    (name : String) × (q name ≡ true)
    × (any (is_call t.cwd name (some (target_of t))) t.stdout ≡ true)

abbrev pub is_edit_tool : String → Bool
is_edit_tool name = name == "edit" || name == "write"

-- The planted file as the family asks for it, and a call that touched it.
abbrev pub Kept : Trial → Type 0
Kept t =
    (holds (file_text "target.txt" t.visible) t.spec.initial ≡ true)
    × HasCall t (λ name. name == "read")

abbrev pub Edited : Trial → Type 0
Edited t =
    ((t.spec.initial == t.spec.expected) ≡ false)
    × (holds (file_text "target.txt" t.visible) t.spec.expected ≡ true)
    × HasCall t is_edit_tool

pub record Vouched (t : Trial) : Type 0 where
  pub exited : is_zero t.returncode ≡ true
  pub in_time : t.timed_out ≡ false
  pub decoy : holds (file_text "decoy.txt" t.visible) t.spec.decoy_initial ≡ true
  pub fine : all (is_fine t.spec t.cwd) t.stdout ≡ true
  pub done : if t.spec.family == "read" then Kept t else Edited t

verdict-pass :
    (errors reasons : List String)
    → (verdict errors reasons).status ≡ "PASS"
    → (errors ≡ []) × (reasons ≡ [])
verdict-pass (e ∷ errors) reasons h = absurd (false≢true ((eq_iff "ERROR" "PASS").1 h))
verdict-pass [] (r ∷ reasons) h = absurd (false≢true ((eq_iff "FAIL" "PASS").1 h))
verdict-pass [] [] h = (refl, refl)

scored-pass :
    (errors : List String) (o : Option Trial)
    → (scored errors o).status ≡ "PASS"
    → (t : Trial) × (o ≡ some t) × ((judged t).status ≡ "PASS")
scored-pass (e ∷ errors) o h = absurd (false≢true ((eq_iff "ERROR" "PASS").1 h))
scored-pass [] none h = absurd (false≢true ((eq_iff "ERROR" "PASS").1 h))
scored-pass [] (some t) h = (t, refl, h)

read-HasCall :
    (t : Trial) → is_read_ok t (scan_of t).completed ≡ true → HasCall t (λ name. name == "read")
read-HasCall t h =
    any-traced t.cwd t.stdout (target_of t) (λ name. name == "read") _ (scan_of t).completed
      (λ d e. ground arith)
      (scan-Traced t.cwd t.stdout t.spec t.stdout empty_scan (λ p e. e) (refl, refl)).1 h

edit-HasCall : (t : Trial) → any (is_edit t) (scan_of t).completed ≡ true → HasCall t is_edit_tool
edit-HasCall t h =
    any-traced t.cwd t.stdout (target_of t) is_edit_tool _ (scan_of t).completed
      (λ d e. ground arith)
      (scan-Traced t.cwd t.stdout t.spec t.stdout empty_scan (λ p e. e) (refl, refl)).1 h

-- The checks that both families share.
abbrev Common : Trial → Type 0
Common t =
    (is_zero t.returncode ≡ true)
    × (t.timed_out ≡ false)
    × (holds (file_text "decoy.txt" t.visible) t.spec.decoy_initial ≡ true)

common_reasons-none : (t : Trial) (s : Scan) → common_reasons t s ≡ [] → Common t
common_reasons-none t s h = ground arith

read_reasons-none :
    (t : Trial) (s : Scan)
    → read_reasons t s ≡ []
    → (holds (file_text "target.txt" t.visible) t.spec.initial ≡ true)
      × (is_read_ok t s.completed ≡ true)
read_reasons-none t s h = ground arith

edit_reasons-none :
    (t : Trial) (s : Scan)
    → edit_reasons t s ≡ []
    → ((t.spec.initial == t.spec.expected) ≡ false)
      × (holds (file_text "target.txt" t.visible) t.spec.expected ≡ true)
      × (any (is_edit t) s.completed ≡ true)
edit_reasons-none t s h = ground arith

-- The parts of the reasons of a verdict.
parts_none : (xs ys zs : List String) → xs ++ ys ++ zs ≡ [] → (xs ≡ []) × (ys ≡ []) × (zs ≡ [])
parts_none [] [] zs h = (refl, refl, h)
parts_none [] (y ∷ ys) zs h = absurd cc
parts_none (x ∷ xs) ys zs h = absurd cc

vouch :
    (t : Trial)
    → (scan_of t).errors ≡ []
    → (scan_of t).reasons ≡ []
    → common_reasons t (scan_of t) ≡ []
    → (if t.spec.family == "read" then Kept t else Edited t)
    → Vouched t
vouch t errors reasons common done =
    let (exited, in_time, decoy) = common_reasons-none t (scan_of t) common in
    record {
      exited = exited;
      in_time = in_time;
      decoy = decoy;
      fine = (scan-IsClean t.spec t.cwd t.stdout empty_scan (reasons, errors)).1;
      done = done;
    }

judged-Vouched : (t : Trial) → (judged t).status ≡ "PASS" → Vouched t
unfolding judged
judged-Vouched t h = elim (Bool-cases (t.spec.family == "read")) [
  | inl read ↦
      let (errors, reasons) = verdict-pass _ _ (rw read at h) in
      let (scanned, common, own) = parts_none (scan_of t).reasons _ _ reasons in
      let (kept, found) = read_reasons-none t (scan_of t) own in
      vouch t (append-nil_inv (scan_of t).errors _ errors).0 scanned common
        (rw read (kept, read-HasCall t found))
  | inr edit ↦
      let (errors, reasons) = verdict-pass _ _ (rw edit at h) in
      let (scanned, common, own) = parts_none (scan_of t).reasons _ _ reasons in
      let (differs, edited, found) = edit_reasons-none t (scan_of t) own in
      vouch t errors scanned common (rw edit (differs, edited, edit-HasCall t found))
]

-- A PASS vouches: the process exited with 0 and in time, and the decoy is as it was planted; every line of the output
-- is blank or an event, every call that starts is of an allowed tool and has a path that does not traverse, and no
-- call ends with an error; and the target file holds the planted text after a trial to read, with a read of it in
-- the output, or the expected text after a trial to edit, which is another than the planted one, with an edit or
-- a write of it in the output.
pub score_varied_trial-Vouched :
    (a : Arguments)
    → (score_varied_trial a).status ≡ "PASS"
    → (t : Trial) × (trial a ≡ some t) × Vouched t
unfolding score_varied_trial
score_varied_trial-Vouched a h =
    let (t, e, passed) = scored-pass (argument_errors a) (trial a) h in
    (t, e, judged-Vouched t passed)

-- ===== src/Evaluation/Campaign/Once.antt =====
-- What a campaign promises of its evidence: a map that is written once for each case, and one for each scorer.
use localbench.Base.{
  String, true, false, Option, none, some, List, ◌==◌, ◌≡◌, sym, subst, ◌∙◌, holds, arith, inl, inr,
  Bool-cases, eq_iff, if◌then◌else◌, get, put,
}
use localbench.Evaluation.Evidence.{
  Traces, Row, CaseFile, case_row, Disk, Campaign, is_case_id, is_status,
}
use localbench.Evaluation.Campaign.{Document, row_of, is_empty}

-- What a recorded outcome says of its case.
pub record IsOutcome (c : Campaign) (case_id : String) (row : Row) : Type 0 where
  pub input : String
  pub status : String
  pub run : List String
  pub files : Traces
  pub expected : get case_id c.case_inputs ≡ some input
  pub named : is_case_id case_id ≡ true
  pub finished : is_status status ≡ true
  pub traced : is_empty files ≡ false
  pub row_eq : row ≡ row_of c case_id input status run files

-- The outcomes by case and the scores by scorer, as anyone reads them.
pub record Evidence : Type 0 where
  pub outcome : String → Option CaseFile
  pub score : String → Option String

abbrev pub evidence : Disk → Evidence
evidence d = record { outcome = λ k. get k d.cases; score = λ k. get k d.scores }

-- What a campaign promises: a case gets one outcome of its own, a scorer one document, and nothing else changes.
pub data Once (c : Campaign) (m n : Evidence) : Type 0 where
  kept :
      ((k : String) → n.outcome k ≡ m.outcome k)
      → ((k : String) → n.score k ≡ m.score k)
      → Once c m n
  recorded_once :
      (case_id : String) (row : Row)
      → m.outcome case_id ≡ none
      → IsOutcome c case_id row
      → ((k : String) → n.outcome k ≡ (if case_id == k then some (case_row row) else m.outcome k))
      → ((k : String) → n.score k ≡ m.score k)
      → Once c m n
  scored_once :
      (scorer : String) (document : Document)
      → m.score scorer ≡ none
      → holds document.identity_sha256 c.identity_sha256 ≡ true
      → ((k : String) → n.outcome k ≡ m.outcome k)
      → ((k : String)
          → n.score k ≡ (if scorer == k then some (document.payload scorer) else m.score k))
      → Once c m n

pub data Promised (c : Campaign) (m : Evidence) : Evidence → Type 0 where
  start : Promised c m m
  after : {n o : Evidence} → Promised c m n → Once c n o → Promised c m o

module _ (c : Campaign) where
  Once-kept :
      {m n : Evidence} {k : String} {x : CaseFile}
      → Once c m n
      → m.outcome k ≡ some x
      → n.outcome k ≡ some x
  Once-kept {k = k} (kept same scores) e = same k ∙ e
  Once-kept {k = k} (recorded_once case_id row free i put scores) e =
      ground (arith, put k, eq_iff case_id k)
  Once-kept {k = k} (scored_once scorer document free own same put) e = same k ∙ e

  Once-kept_score :
      {m n : Evidence} {k : String} {x : String}
      → Once c m n
      → m.score k ≡ some x
      → n.score k ≡ some x
  Once-kept_score {k = k} (kept same scores) e = scores k ∙ e
  Once-kept_score {k = k} (recorded_once case_id row free i put scores) e = scores k ∙ e
  Once-kept_score {k = k} (scored_once scorer document free own same put) e =
      ground (arith, put k, eq_iff scorer k)

  abbrev pub Keeps : Evidence → Evidence → Type 0
  Keeps m n =
      ((k : String) (x : CaseFile) → m.outcome k ≡ some x → n.outcome k ≡ some x)
      × ((k : String) (x : String) → m.score k ≡ some x → n.score k ≡ some x)

  pub Promised-Keeps : {m n : Evidence} → Promised c m n → Keeps m n
  Promised-Keeps start = ((λ k x e. e), (λ k x e. e))
  Promised-Keeps (after path step) =
      let (outcomes, scores) = Promised-Keeps path in
      ((λ k x e. Once-kept step (outcomes k x e)), (λ k x e. Once-kept_score step (scores k x e)))

  -- The outcomes of a promise are the campaign's own.
  abbrev pub IsOwn : Evidence → Type 0
  IsOwn m =
      (k : String) (x : CaseFile)
      → m.outcome k ≡ some x
      → (row : Row) × (x ≡ case_row row) × IsOutcome c k row

  Once-IsOwn : {m n : Evidence} → Once c m n → IsOwn m → IsOwn n
  Once-IsOwn (kept same scores) own k x e = own k x (sym (same k) ∙ e)
  Once-IsOwn (recorded_once case_id row free i put scores) own k x e =
      elim (Bool-cases (case_id == k)) [
        | inl here' ↦ (
          row,
          ground (arith, put k),
          subst (λ j. IsOutcome c j row) ((eq_iff case_id k).0 here') i,
        )
        | inr other ↦ own k x (ground (arith, put k))
      ]
  Once-IsOwn (scored_once scorer document free own_id same put) own k x e =
      own k x (sym (same k) ∙ e)

  pub Promised-IsOwn : {m n : Evidence} → Promised c m n → IsOwn m → IsOwn n
  Promised-IsOwn start own = own
  Promised-IsOwn (after path step) own = Once-IsOwn step (Promised-IsOwn path own)

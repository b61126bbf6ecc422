-- ===== src/Evaluation/Manifest/Opened.antt =====
-- What `create` wrote is what `open` reads.
use localbench.Base.{
  String, Bool, true, false, not, ◌&&◌, Option, none, some, List, [], ◌∷◌, ◌≡◌, ◌↔◌, refl, arith,
  any, if◌then◌else◌, is_some, eq_refl, has_key, Bool-cases, inl, inr,
}
use localbench.Evaluation.Paths.{FilePath}
use localbench.Evaluation.Evidence.{
  CaseFile, Failure, raise_if, ◌>>◌, identity_changed, no_directories, no_cases, folder_exists,
  bad_case_ids, os_error, is_case_id, Result, err, ok, Write, written, failed, failed_late,
  Campaign,
}
use localbench.Evaluation.Manifest.{
  object, Folder, Writes, rows_of, inputs_of, has_id, are_ids, is_nil, manifest_of, write_folder,
  create, open_campaign, folder_of, init, is_other,
}

-- The keys of a dict.
abbrev pub AreDistinct : List (String × String) → Type 0
AreDistinct [] = Unit
AreDistinct ((k, v) ∷ cases) = (has_key k cases ≡ false) × AreDistinct cases

has_id-rows_of :
    (k : String) (cases : List (String × String)) → has_id k (rows_of cases) ≡ has_key k cases
has_id-rows_of k [] = refl
has_id-rows_of k ((j, v) ∷ cases) = rw (has_id-rows_of k cases) refl

are_ids-rows_of :
    (cases : List (String × String))
    → AreDistinct cases
    → any (λ r. not (is_case_id r.0)) cases ≡ false
    → are_ids (rows_of cases) ≡ true
are_ids-rows_of [] d h = refl
are_ids-rows_of ((k, v) ∷ cases) (free, d) h =
    ground (arith, has_id-rows_of k cases, are_ids-rows_of cases d, free)

inputs_of-rows_of : (cases : List (String × String)) → inputs_of (rows_of cases) ≡ ok cases
inputs_of-rows_of [] = refl
inputs_of-rows_of ((k, v) ∷ cases) = rw (inputs_of-rows_of cases) refl

module _ {ℓ} {I : Type ℓ} (canonical : I → String) (resolve : FilePath → FilePath)
    (same : I → I → Bool) where
  abbrev pub matches : Option I → I → Bool
  matches none identity = true
  matches (some expected) identity = same identity expected

  -- Without a folder nothing is opened.
  unopened :
      (root : FilePath) (expected : Option I) (c : Campaign) (b : Bool) (e : Failure)
      → (open_campaign canonical resolve same root expected none ≡ ok c)
        ↔ (◌≡◌ {A = Result Campaign} (err e) (ok c) × (b ≡ true))
  unfolding open_campaign
  unopened root expected c b e = ground arith

  open_written :
      (root : FilePath) (identity : I) (cases : List (String × String)) (profile : String)
      (expected : Option I) (outcomes : Option (List (String × CaseFile)))
      (scores : Option (List (String × String)))
      → AreDistinct cases
      → is_nil cases ≡ false
      → any (λ r. not (is_case_id r.0)) cases ≡ false
      → open_campaign canonical resolve same root expected (
          some (
            folder_of canonical resolve
              (some (object (manifest_of canonical resolve identity cases profile)))
              outcomes
              scores))
        ≡ (raise_if (is_other canonical resolve same expected identity) identity_changed
            >> (raise_if (not (is_some outcomes && is_some scores)) no_directories
                >> ok (init canonical resolve root (canonical identity) cases)))
  unfolding open_campaign
  open_written root identity [] profile expected outcomes scores d full good = absurd cc
  open_written root identity ((k, v) ∷ cases) profile expected outcomes scores d full good =
      rw
        (
          eq_refl (canonical identity),
          are_ids-rows_of ((k, v) ∷ cases) d good,
          inputs_of-rows_of ((k, v) ∷ cases),
        )
        refl

  unmanifested :
      (root : FilePath) (expected : Option I) (c : Campaign) (b : Bool)
      → (open_campaign canonical resolve same root expected
            (some (folder_of canonical resolve none none none))
          ≡ ok c)
        ↔ (◌≡◌ {A = Result Campaign} (err os_error) (ok c) × (b ≡ true))
  unfolding open_campaign
  unmanifested root expected c b = ground arith

  -- What remains of `open`, against what `create` returned.
  opened_if :
      (expected : Option I) (identity : I) (whole : Bool) (made c : Campaign) (r : Result Campaign)
      → r ≡ (if whole then ok made else err os_error)
      → ((raise_if (is_other canonical resolve same expected identity) identity_changed
            >> (raise_if (not whole) no_directories >> ok made))
          ≡ ok c)
        ↔ ((r ≡ ok c) × (matches expected identity ≡ true))
  opened_if none identity whole made c r h = ground arith
  opened_if (some e) identity whole made c r h = ground arith

  open-write_folder :
      (root : FilePath) (identity : I) (cases : List (String × String)) (profile : String)
      (w : Writes) (expected : Option I) (c : Campaign) (write : Write)
      → AreDistinct cases
      → is_nil cases ≡ false
      → any (λ r. not (is_case_id r.0)) cases ≡ false
      → let whole : Result Campaign × Option (Folder I) =
          write_folder canonical resolve
            (init canonical resolve root (canonical identity) cases)
            (object (manifest_of canonical resolve identity cases profile))
            w
            write in
        (open_campaign canonical resolve same root expected whole.1 ≡ ok c)
        ↔ ((whole.0 ≡ ok c) × (matches expected identity ≡ true))
  open-write_folder root identity cases profile w expected c failed d full good =
      unmanifested root expected c _
  open-write_folder root identity cases profile w expected c failed_late d full good =
      rw (open_written root identity cases profile expected none none d full good) (
        opened_if expected identity false (init canonical resolve root (canonical identity) cases) c
          _ refl)
  open-write_folder root identity cases profile w expected c written d full good =
      elim (Bool-cases w.cases) [
        | inl cases_made ↦ elim (Bool-cases w.scores) [
          | inl scores_made ↦
              rw (cases_made, scores_made)
                (rw
                  (open_written root identity cases profile expected (some []) (some []) d full
                    good)
                  (opened_if expected identity true _ c _ refl))
          | inr no_scores ↦
              rw (cases_made, no_scores)
                (rw (open_written root identity cases profile expected (some []) none d full good) (
                  opened_if expected identity false
                    (init canonical resolve root (canonical identity) cases) c _ refl))
        ]
        | inr not_made ↦ rw not_made (
            rw (open_written root identity cases profile expected none none d full good) (
              opened_if expected identity false
                (init canonical resolve root (canonical identity) cases) c _ refl))
      ]

  -- Where nothing was at the path.
  open-created :
      (root : FilePath) (identity : I) (cases : List (String × String)) (profile : String)
      (w : Writes) (expected : Option I) (c : Campaign)
      → AreDistinct cases
      → (open_campaign canonical resolve same root expected
            (create canonical resolve root identity cases profile w none).1
          ≡ ok c)
        ↔ (((create canonical resolve root identity cases profile w none).0 ≡ ok c)
            × (matches expected identity ≡ true))
  unfolding create
  open-created root identity cases profile w expected c d = elim (Bool-cases (is_nil cases)) [
    | inl empty ↦ rw empty (unopened root expected c _ no_cases)
    | inr full ↦ elim (Bool-cases (any (λ r. not (is_case_id r.0)) cases)) [
      | inl bad ↦ rw (full, bad) (unopened root expected c _ bad_case_ids)
      | inr good ↦ elim (Bool-cases w.folder) [
        | inl made ↦
            rw (full, good, made)
              (open-write_folder root identity cases profile w expected c w.manifest d full good)
        | inr not_made ↦ rw (full, good, not_made) (unopened root expected c _ os_error)
      ]
    ]
  ]

  -- A path that holds something is left as it is.
  create-exists :
      (root : FilePath) (identity : I) (cases : List (String × String)) (profile : String)
      (w : Writes) (f : Folder I)
      → (e : Failure) × (create canonical resolve root identity cases profile w (some f)
          ≡ (err e, some f))
  unfolding create
  create-exists root identity cases profile w f = elim (Bool-cases (is_nil cases)) [
    | inl empty ↦ (no_cases, rw empty refl)
    | inr full ↦ elim (Bool-cases (any (λ r. not (is_case_id r.0)) cases)) [
      | inl bad ↦ (bad_case_ids, rw (full, bad) refl)
      | inr good ↦ (folder_exists, rw (full, good) refl)
    ]
  ]

  -- Where something was at the path, `create` raises and changes nothing. Where nothing was, a campaign can be
  -- opened afterwards exactly if `create` returned it, and then it is the same campaign, if the expected
  -- identity is absent or equals the one of the creation: a creation there that was refused, or that failed at
  -- whatever write, leaves nothing that can be opened.
  pub open-create :
      (root : FilePath) (identity : I) (cases : List (String × String)) (profile : String)
      (w : Writes) (expected : Option I) (c : Campaign)
      → AreDistinct cases
      → ((f : Folder I)
          → (e : Failure) × (create canonical resolve root identity cases profile w (some f)
              ≡ (err e, some f)))
        × ((open_campaign canonical resolve same root expected
                (create canonical resolve root identity cases profile w none).1
              ≡ ok c)
            ↔ (((create canonical resolve root identity cases profile w none).0 ≡ ok c)
                × (matches expected identity ≡ true)))
  open-create root identity cases profile w expected c d = (
    create-exists root identity cases profile w,
    open-created root identity cases profile w expected c d,
  )

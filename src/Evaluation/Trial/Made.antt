-- ===== src/Evaluation/Trial/Made.antt =====
-- make_varied_spec of localbench/evaluation.py. The hash (`canonical_sha256` of the version, the family, the phase, the
-- seed and the label) and Python's `repr` of a text are parameters.
use localbench.Base.{
  eq_comm, ℕ, ℤ, pos, String, Bool, true, false, ◌&&◌, ◌||◌, Option, none, some, [], ◌∷◌, ◌==◌, ◌≡◌,
  arith, concat, cut, strip, if◌then◌else◌, inl, inr, Bool-cases,
}
use localbench.Evaluation.Json.{Json, int, text, array, object, nil, cons, end, field}
use localbench.Evaluation.Trial.{grader_version, spec_errors}

module _ (sha256 : String → String → ℕ → String → String) (repr : String → String) where
  abbrev planted : String → String → ℕ → String → String → String
  planted family phase seed label upper =
      concat (upper ∷ "-" ∷ cut 24 (sha256 family phase seed label) ∷ "\n" ∷ [])

  abbrev tools_for : Bool → Json
  tools_for true = array (cons (text "read") nil)
  tools_for false = array (cons (text "read") (cons (text "edit") (cons (text "write") nil)))

  abbrev prompt_for : Bool → String → String
  prompt_for true expected =
      "Read target.txt in the current directory and reply with only its value."
  prompt_for false expected = concat (
      "Replace the entire contents of target.txt with exactly "
      ∷ repr (strip expected)
      ∷ " (followed by a newline). Do not change decoy.txt."
      ∷ [])

  abbrev spec_for : String → ℕ → String → Bool → Json
  spec_for family seed phase reads =
      let initial = planted family phase seed "initial" "INITIAL" in
      let expected = if reads then initial else planted family phase seed "expected" "EXPECTED" in
      object (
        field "family" (text family) (
          field "seed" (int (pos seed)) (
            field "phase" (text phase) (
              field "file" (text "target.txt") (
                field "initial" (text initial) (
                  field "expected" (text expected) (
                    field "decoy_file" (text "decoy.txt") (
                      field "decoy_initial" (text (planted family phase seed "decoy" "DECOY")) (
                        field "prompt" (text (prompt_for reads expected)) (
                          field "allowed_tools" (tools_for reads)
                            (field "grader_version" (text grader_version) end)))))))))))

  abbrev is_known : String → String → Bool
  is_known family phase =
      (family == "read" || family == "edit") && (phase == "exploratory" || phase == "heldout")

  -- `none` where the arguments raise.
  unfoldable pub make_varied_spec : String → ℤ → String → Option Json
  unfolding strip
  make_varied_spec family (pos seed) phase =
      if is_known family phase then some (spec_for family seed phase (family == "read")) else none
  make_varied_spec family seed phase = none

  spec_for-accepted :
      (family : String) (seed : ℕ) (phase : String) (reads : Bool)
      → is_known family phase ≡ true
      → spec_errors (spec_for family seed phase reads) ≡ []
  unfolding spec_errors
  spec_for-accepted family seed phase true h = ground (
    arith,
    eq_comm "read" family,
    eq_comm "edit" family,
    eq_comm "exploratory" phase,
    eq_comm "heldout" phase,
  )
  spec_for-accepted family seed phase false h = ground (
    arith,
    eq_comm "read" family,
    eq_comm "edit" family,
    eq_comm "exploratory" phase,
    eq_comm "heldout" phase,
  )

  -- A spec that was made is one that the grader accepts.
  make_varied_spec-accepted :
      (family : String) (seed : ℤ) (phase : String) (spec : Json)
      → make_varied_spec family seed phase ≡ some spec
      → spec_errors spec ≡ []
  unfolding make_varied_spec
  make_varied_spec-accepted family (pos seed) phase spec h =
      elim (Bool-cases (is_known family phase)) [
        | inl known ↦
            let e : spec_for family seed phase (family == "read") ≡ spec = cc (rw known at h) in
            rw⁻¹ e (spec_for-accepted family seed phase (family == "read") known)
        | inr other ↦ absurd (cc (rw other at h))
      ]
  make_varied_spec-accepted family seed phase spec h = absurd cc

-- ===== src/ProofQueue/Marker.antt =====
-- The texts of localbench/proofqueue.py: the title and the body of a bead, and the marker line in it. The
-- values of a unit's detail are given as texts.
use localbench.Base.{
  ℕ, String, Bool, ◌&&◌, ◌||◌, Option, none, some, List, [], ◌∷◌, ◌++◌, ◌==◌, delete, eqb, leb,
  concat, if◌then◌else◌, cut, is_space, split_on, partition, strip, strip_prefix, join_with,
}

abbrev pub is_trigger : String → Bool
is_trigger status = status == "UNPROVEN" || status == "BAD" || status == "STALE"

abbrev pub marker_prefix : String
marker_prefix = "proof-trigger status="

-- The fields of a feature's row that a proof depends on.
pub record FeatureRow : Type 0 where
  pub proof_suite : String
  pub route_kind : String

abbrev pub proof_kind : FeatureRow → String
proof_kind row =
    if row.proof_suite == "decision"
    then "decision tier"
    else if row.proof_suite == "mem"
    then "memory study"
    else if row.route_kind == "agent"
    then "agent eval"
    else "generation tier"

-- `" ".join(str(reason).split())[:200]`
unfoldable pub short : String → String
short reason = cut 200 (join_with " " (delete (λ w. w == "") (split_on is_space reason)))

unfoldable pub marker : String → String → String
unfolding short
marker status reason = concat (marker_prefix ∷ status ∷ " | " ∷ short reason ∷ [])

abbrev parsed_line : Option String → Option (String × String)
parsed_line none = none
parsed_line (some rest) =
    let (status, reason) = partition " | " rest in some (strip status, strip reason)

abbrev first_marker : List String → Option (String × String)
first_marker [] = none
first_marker (line ∷ lines) =
    let later = first_marker lines in
    elim (strip_prefix marker_prefix line) [ none ↦ later | some rest ↦ parsed_line (some rest) ]

-- The characters at which `str.splitlines` cuts.
abbrev is_line_end : ℕ → Bool
is_line_end n =
    leb 10 n && leb n 13 || leb 28 n && leb n 30 || eqb n 133 || eqb n 8232 || eqb n 8233

unfoldable pub parse_marker : String → Option (String × String)
parse_marker description = first_marker (split_on is_line_end description)

pub record Item : Type 0 where
  pub feature : String
  pub route : String
  pub status : String
  pub reason : String
  pub receipt : Option String
  pub row : FeatureRow
  pub detail : List (String × String)

pub record Bead : Type 0 where
  pub id : String
  pub title : String
  pub description : String
  -- what `br comments` answers, `none` where it fails or is no JSON
  pub comments : Option (List String)

abbrev pub title_of : Item → String
title_of u = concat ("prove " ∷ u.feature ∷ " on " ∷ u.route ∷ [])

abbrev detail_lines : List (String × String) → List String
detail_lines [] = []
detail_lines ((key, value) ∷ rest) =
    let later = detail_lines rest in
    if value == "" then later else concat ("- " ∷ key ∷ ": " ∷ value ∷ []) ∷ later

abbrev contract : String
contract =
    "proof contract (features.grade): kind=run with run.label in (decision, memory); omp_module_sha == installed sha; problems empty; verdict.compare == BETTER against the incumbent baseline the receipt names; pins.model_digest == the route model's digest."

unfoldable pub body_of : Item → String
unfolding marker
body_of u = join_with "\n" (
    concat (title_of u ∷ " (proof-trigger)" ∷ [])
      ∷ ""
      ∷ concat ("status: " ∷ u.status ∷ " — " ∷ u.reason ∷ [])
      ∷ ""
      ∷ []
    ++ detail_lines u.detail
    ++ (""
        ∷ contract
        ∷ concat ("proof needed: " ∷ proof_kind u.row ∷ "." ∷ [])
        ∷ ""
        ∷ marker u.status u.reason
        ∷ []))

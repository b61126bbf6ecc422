-- ===== src/ProofQueue/Planned.antt =====
-- `plan` of localbench/proofqueue.py: what is done with the open beads for each unit.
use text.Mathlib.Text.{find?}
use localbench.Base.{
  String, Bool, false, not, ◌&&◌, Option, none, some, List, [], ◌∷◌, ◌==◌, select, delete, sort,
  le_text, concat, if◌then◌else◌, is_some, strip_prefix, or_text,
}
use localbench.ProofQueue.Marker.{
  Item, Bead, is_trigger, marker, short, parse_marker, title_of, body_of,
}

-- Open beads that cover the unit under another title, by id.
abbrev pub is_adoptable : Item → Bead → Bool
is_adoptable u b =
    let prefix = concat ("prove " ∷ u.feature ∷ " on" ∷ []) in
    not (b.title == title_of u) && elim (strip_prefix prefix b.title) [
      | none ↦ false
      | some rest ↦ is_some (find? rest u.route)
    ]

unfoldable pub adopted : List Bead → Item → List Bead
adopted issues u = sort (λ a b. le_text a.id b.id) (select (is_adoptable u) issues)

abbrev last_marker : List String → Option (String × String)
last_marker [] = none
last_marker (text ∷ texts) = elim (last_marker texts) [
  | some found ↦ some found
  | none ↦ parse_marker text
]

-- The body first, then the latest comment.
unfoldable pub bead_marker : Bead → Option (String × String)
unfolding parse_marker
bead_marker b = elim (parse_marker b.description) [
  | some found ↦ some found
  | none ↦ elim b.comments [ none ↦ none | some texts ↦ last_marker texts ]
]

abbrev pub same_marker : Option (String × String) → String × String → Bool
same_marker none current = false
same_marker (some (s, r)) (status, reason) = s == status && r == reason

pub data Action : Type 0 where
  create : (title body : String) → Action
  comment : (id title body note : String) → Action
  adopt : (id title note : String) → Action
  close : (id title reason : String) → Action
  noop : (title : String) → Action

abbrev shown_receipt : Option String → String
shown_receipt none = "the banked receipt"
shown_receipt (some r) = or_text r "the banked receipt"

abbrev pub close_action : Bead → Item → Action
close_action b u = close b.id b.title (
    concat (
      "route proven: receipt "
      ∷ shown_receipt u.receipt
      ∷ " grades PROVEN for "
      ∷ u.feature
      ∷ " on "
      ∷ u.route
      ∷ []))

abbrev adoption_note : Item → String
adoption_note u = concat (
    marker u.status u.reason
    ∷ "\nadopted: this bead already covers prove "
    ∷ u.feature
    ∷ " on "
    ∷ u.route
    ∷ "; body left untouched (pre-registration). Status updates arrive as comments."
    ∷ [])

-- The first candidate whose marker is not the current one is adopted.
abbrev pub adopt_first : Item → Bead → List Bead → Action
adopt_first u first [] = noop first.title
adopt_first u first (b ∷ bs) = adopt b.id b.title (adoption_note u)

abbrev pub current_of : Item → String × String
current_of u = (u.status, short u.reason)

abbrev pub plan_candidates : Item → List Bead → Option Action
plan_candidates u [] = if is_trigger u.status then some (create (title_of u) (body_of u)) else none
plan_candidates u (b ∷ bs) =
    if is_trigger u.status
    then some (adopt_first u b (delete (λ c. same_marker (bead_marker c) (current_of u)) (b ∷ bs)))
    else if u.status == "PROVEN"
    then some (close_action b u)
    else none

abbrev status_note : Item → String
status_note u = concat ("status changed to " ∷ u.status ∷ ": " ∷ u.reason ∷ [])

abbrev pub plan_titled : Item → Bead → Option Action
plan_titled u b =
    if is_trigger u.status
    then some (
        if same_marker (parse_marker b.description) (current_of u)
        then noop (title_of u)
        else comment b.id (title_of u) (body_of u) (status_note u))
    else if u.status == "PROVEN"
    then some (close_action (record b { title = title_of u }) u)
    else none

-- Of beads with one title the dict keeps the last.
abbrev pub titled : String → List Bead → Option Bead
titled title [] = none
titled title (b ∷ bs) = elim (titled title bs) [
  | some later ↦ some later
  | none ↦ if b.title == title then some b else none
]

abbrev pub plan_found : Item → List Bead → Option Bead → Option Action
plan_found u candidates none = plan_candidates u candidates
plan_found u candidates (some b) = plan_titled u b

unfoldable pub plan_unit : List Bead → Item → Option Action
unfolding adopted bead_marker body_of short
plan_unit issues u = plan_found u (adopted issues u) (titled (title_of u) issues)

unfoldable pub plan : List Item → List Bead → List Action
unfolding plan_unit
plan [] issues = []
plan (u ∷ us) issues =
    let rest = plan us issues in
    elim (plan_unit issues u) [ none ↦ rest | some action ↦ action ∷ rest ]

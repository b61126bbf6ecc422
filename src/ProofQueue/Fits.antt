-- ===== src/ProofQueue/Fits.antt =====
-- What `plan` of localbench/proofqueue.py may choose for a unit, as a test of an action against the open beads
-- and the unit's status, and the lemmas on the beads that it finds.
use text.Mathlib.Text.{find?}
use localbench.Base.{
  String, Bool, true, false, not, ◌&&◌, ◌||◌, Option, none, some, List, [], ◌∷◌, ◌==◌, ◌≡◌, refl,
  ◌∙◌, ap, arith, any, select, le_text, concat, strip_prefix, is_some, any-sort, any-select,
  Bool-cases, Option-cases, inl, inr,
}
use localbench.ProofQueue.Marker.{Item, Bead, short, parse_marker, title_of, body_of}
use localbench.ProofQueue.Planned.{
  Action, create, comment, adopt, close, noop, titled, adopted, bead_marker, is_adoptable,
  same_marker, current_of,
}

abbrev pub is_open : Item → Bool
is_open u = u.status == "UNPROVEN" || u.status == "BAD" || u.status == "STALE"

-- The bead has the unit's own title, or another that starts with `prove <feature> on` and names the route.
abbrev pub owns : Item → Bead → Bool
owns u b = b.title == concat ("prove " ∷ u.feature ∷ " on " ∷ u.route ∷ [])

abbrev pub names : Item → Bead → Bool
names u b =
    not (owns u b) && elim (strip_prefix (concat ("prove " ∷ u.feature ∷ " on" ∷ [])) b.title) [
      | none ↦ false
      | some rest ↦ is_some (find? rest u.route)
    ]

-- The marker holds the unit's status and its shortened reason.
abbrev pub is_current : Item → Option (String × String) → Bool
is_current u none = false
is_current u (some (status, reason)) = status == u.status && reason == short u.reason

abbrev pub fits : List Bead → Item → Option Action → Bool
fits issues u none =
    not (is_open u) && not (u.status == "PROVEN" && (any (owns u) issues || any (names u) issues))
fits issues u (some (create title body)) =
    is_open u
    && not (any (owns u) issues)
    && not (any (names u) issues)
    && title == title_of u
    && body == body_of u
fits issues u (some (comment id title body note)) =
    is_open u
    && any (λ b. owns u b && (b.id == id && not (is_current u (parse_marker b.description)))) issues
    && title == title_of u
    && body == body_of u
fits issues u (some (adopt id title note)) =
    is_open u
    && not (any (owns u) issues)
    && any
        (λ b. names u b && (not (is_current u (bead_marker b)) && (b.id == id && b.title == title)))
        issues
fits issues u (some (close id title reason)) =
    u.status == "PROVEN"
    && (title == title_of u && any (λ b. owns u b && b.id == id) issues
        || not (any (owns u) issues)
          && any (λ b. names u b && (b.id == id && b.title == title)) issues)
fits issues u (some (noop title)) =
    is_open u
    && (title == title_of u
          && any (λ b. owns u b && is_current u (parse_marker b.description)) issues
        || not (any (owns u) issues)
          && any (λ b. names u b && b.title == title) issues
          && not (any (λ b. names u b && not (is_current u (bead_marker b))) issues))

pub same-current :
    (u : Item) (m : Option (String × String)) → same_marker m (current_of u) ≡ is_current u m
same-current u none = refl
same-current u (some found) = refl

pub and_true : (b : Bool) → b ≡ (b && true)
and_true true = refl
and_true false = refl

pub titled-none :
    (t : String) (bs : List Bead) → titled t bs ≡ none → any (λ b. b.title == t) bs ≡ false
titled-none t [] h = refl
titled-none t (b ∷ bs) h = elim (Option-cases (titled t bs)) [
  | inl absent ↦ ground (arith, absent, titled-none t bs absent)
  | inr (c, found) ↦ ground (arith, found)
]

titled-first :
    (t : String) (b c : Bead) (cs : List Bead)
    → titled t cs ≡ none
    → titled t (c ∷ cs) ≡ some b
    → ((c.title == t) ≡ true) × (c ≡ b)
titled-first t b c cs absent h = elim (Bool-cases (c.title == t)) [
  | inl own ↦ (own, cc)
  | inr other ↦ absurd cc
]

titled-later :
    (t : String) (b c d : Bead) (cs : List Bead)
    → titled t cs ≡ some d
    → titled t (c ∷ cs) ≡ some b
    → titled t cs ≡ some b
titled-later t b c d cs found h = cc

pub titled-some :
    (t : String) (p : Bead → Bool) (bs : List Bead) (b : Bead)
    → titled t bs ≡ some b
    → p b ≡ true
    → any (λ c. c.title == t && p c) bs ≡ true
titled-some t p [] b h holds = absurd cc
titled-some t p (c ∷ cs) b h holds = elim (Option-cases (titled t cs)) [
  | inl absent ↦
      let (own, equal) = titled-first t b c cs absent h in rw (own, ap p equal, holds) refl
  | inr (d, found) ↦ ground (arith, titled-some t p cs b (titled-later t b c d cs found h) holds)
]

pub any-same :
    {A : Type 0} (p q : A → Bool) (xs : List A) → ((x : A) → p x ≡ q x) → any p xs ≡ any q xs
any-same p q [] same = refl
any-same p q (x ∷ xs) same = rw (same x, any-same p q xs same) refl

pub any-adopted :
    (issues : List Bead) (u : Item) (p : Bead → Bool)
    → any p (adopted issues u) ≡ any (λ b. names u b && p b) issues
unfolding adopted
any-adopted issues u p =
    any-sort (λ a b. le_text a.id b.id) p (select (is_adoptable u) issues)
    ∙ any-select p (names u) issues

-- ===== src/ProofQueue/Chosen.antt =====
-- That the action which `plan` of localbench/proofqueue.py chooses passes the test of Fits.
use localbench.Base.{
  Bool, true, false, not, ◌&&◌, Option, none, some, List, [], ◌∷◌, ◌==◌, ◌≡◌, refl, sym, ◌∙◌, ap,
  arith, any, delete, eq_refl, any-select, Bool-cases, inl, inr,
}
use localbench.ProofQueue.Marker.{Item, Bead, is_trigger, parse_marker, title_of, body_of}
use localbench.ProofQueue.Planned.{
  titled, adopted, bead_marker, same_marker, current_of, plan_candidates, plan_titled, adopt_first,
  plan_unit, plan_found,
}
use localbench.ProofQueue.Fits.{
  is_open, owns, names, is_current, fits, same-current, titled-none, titled-some, any-same,
  any-adopted, and_true,
}

is_open-trigger : (u : Item) → is_open u ≡ is_trigger u.status
is_open-trigger u = refl

module _ (issues : List Bead) (u : Item) where
  module _ (b : Bead) (found : titled (title_of u) issues ≡ some b) where
    owned : (p : Bead → Bool) → p b ≡ true → any (λ c. owns u c && p c) issues ≡ true
    owned p h = titled-some (title_of u) p issues b found h

    current-own :
        {m : Bool}
        → same_marker (parse_marker b.description) (current_of u) ≡ m
        → is_current u (parse_marker b.description) ≡ m
    current-own h = sym (same-current u (parse_marker b.description)) ∙ h

    fits-own : fits issues u (plan_titled u b) ≡ true
    fits-own = elim (Bool-cases (is_trigger u.status)) [
      | inl open_route ↦
          elim (Bool-cases (same_marker (parse_marker b.description) (current_of u))) [
            | inl same ↦
                rw
                  (
                    open_route,
                    same,
                    is_open-trigger u,
                    open_route,
                    eq_refl (title_of u),
                    owned (λ c. is_current u (parse_marker c.description)) (current-own same),
                  )
                  refl
            | inr moved ↦
                rw
                  (
                    open_route,
                    moved,
                    is_open-trigger u,
                    open_route,
                    eq_refl (title_of u),
                    eq_refl (body_of u),
                    owned (λ c. c.id == b.id && not (is_current u (parse_marker c.description)))
                        (rw (eq_refl b.id, current-own moved) refl),
                  )
                  refl
          ]
      | inr shut ↦ elim (Bool-cases (u.status == "PROVEN")) [
        | inl proven ↦
            rw
              (shut, proven, proven, eq_refl (title_of u), owned (λ c. c.id == b.id) (eq_refl b.id))
              refl
        | inr other ↦ rw (shut, other, is_open-trigger u, shut, other) refl
      ]
    ]

  unnamed : adopted issues u ≡ [] → any (names u) issues ≡ false
  unnamed h =
      any-same (names u) (λ b. names u b && true) issues (λ b. and_true (names u b))
      ∙ sym (any-adopted issues u (λ b. true))
      ∙ ap (any (λ b. true)) h

  module _ (absent : any (owns u) issues ≡ false) where
    module _ (b : Bead) (bs : List Bead) (listed : adopted issues u ≡ b ∷ bs) where
      named : (p : Bead → Bool) → any p (b ∷ bs) ≡ true → any (λ c. names u c && p c) issues ≡ true
      named p h = sym (any-adopted issues u p) ∙ ap (any p) listed ∙ h

      named-first : (p : Bead → Bool) → p b ≡ true → any (λ c. names u c && p c) issues ≡ true
      named-first p h = named p (rw h refl)

      -- The beads whose marker is not the current one.
      abbrev outdated : List Bead
      outdated = delete (λ c. same_marker (bead_marker c) (current_of u)) (b ∷ bs)

      any-outdated :
          (p : Bead → Bool)
          → any (λ c. not (is_current u (bead_marker c)) && p c) (b ∷ bs) ≡ any p outdated
      any-outdated p =
          any-same (λ c. not (is_current u (bead_marker c)) && p c)
            (λ c. not (same_marker (bead_marker c) (current_of u)) && p c) (b ∷ bs)
            (λ c. ap (λ m. not m && p c) (sym (same-current u (bead_marker c))))
          ∙ sym (any-select p (λ c. not (same_marker (bead_marker c) (current_of u))) (b ∷ bs))

      all-current :
          outdated ≡ [] → any (λ c. names u c && not (is_current u (bead_marker c))) issues ≡ false
      all-current h =
          sym (any-adopted issues u (λ c. not (is_current u (bead_marker c))))
          ∙ ap (any (λ c. not (is_current u (bead_marker c)))) listed
          ∙ any-same (λ c. not (is_current u (bead_marker c)))
              (λ c. not (is_current u (bead_marker c)) && true) (b ∷ bs)
              (λ c. and_true (not (is_current u (bead_marker c))))
          ∙ any-outdated (λ c. true)
          ∙ ap (any (λ c. true)) h

      fits-outdated :
          (rest : List Bead)
          → outdated ≡ rest
          → is_trigger u.status ≡ true
          → fits issues u (some (adopt_first u b rest)) ≡ true
      fits-outdated [] h open_route = ground (
        arith,
        open_route,
        absent,
        all-current h,
        named-first (λ c. c.title == b.title) (eq_refl b.title),
      )
      fits-outdated (c ∷ cs) h open_route =
          let adoptable : any
                (λ d.
                  names u d
                  && (not (is_current u (bead_marker d)) && (d.id == c.id && d.title == c.title)))
                issues
              ≡ true =
            named (λ d. not (is_current u (bead_marker d)) && (d.id == c.id && d.title == c.title))
              (any-outdated (λ d. d.id == c.id && d.title == c.title)
                ∙ rw (h, eq_refl c.id, eq_refl c.title) refl) in
          rw (is_open-trigger u, open_route, absent, adoptable) refl

      fits-listed : fits issues u (plan_candidates u (b ∷ bs)) ≡ true
      fits-listed = elim (Bool-cases (is_trigger u.status)) [
        | inl open_route ↦ rw open_route (fits-outdated outdated refl open_route)
        | inr shut ↦ elim (Bool-cases (u.status == "PROVEN")) [
          | inl proven ↦
              let closable : any (λ c. names u c && (c.id == b.id && c.title == b.title)) issues
                  ≡ true =
                named-first (λ c. c.id == b.id && c.title == b.title)
                  (rw (eq_refl b.id, eq_refl b.title) refl) in
              rw (shut, proven) (ground (arith, proven, absent, closable))
          | inr other ↦ rw (shut, other, is_open-trigger u, shut, other) refl
        ]
      ]

    fits-candidates :
        (bs : List Bead) → adopted issues u ≡ bs → fits issues u (plan_candidates u bs) ≡ true
    fits-candidates [] h = elim (Bool-cases (is_trigger u.status)) [
      | inl open_route ↦
          rw
            (
              open_route,
              is_open-trigger u,
              open_route,
              absent,
              unnamed h,
              eq_refl (title_of u),
              eq_refl (body_of u),
            )
            refl
      | inr shut ↦ rw shut (ground (arith, shut, absent, unnamed h))
    ]
    fits-candidates (b ∷ bs) h = fits-listed b bs h

fits-found :
    (issues : List Bead) (u : Item) (o : Option Bead)
    → titled (title_of u) issues ≡ o
    → fits issues u (plan_found u (adopted issues u) o) ≡ true
fits-found issues u none h =
    fits-candidates issues u (titled-none (title_of u) issues h) (adopted issues u) refl
fits-found issues u (some b) h = fits-own issues u b h

-- What is planned for a unit, with an open bead said to cover it if it has the unit's title, or another title
-- that starts with `prove <feature> on` and names the route in the rest. For a route that is UNPROVEN, BAD or
-- STALE a bead is created, with the unit's title and body, exactly if no bead covers it. If a bead has the
-- unit's title, such a bead is commented if the marker in its description is not the unit's status and
-- reason, and left alone if it is. Otherwise a covering bead whose marker is not that is adopted, or nothing
-- is done if all of their markers are. A bead is closed only for a PROVEN route that it covers. There is no
-- action exactly if the route has another status, or is PROVEN and not covered.
pub plan_unit-fits : (issues : List Bead) (u : Item) → fits issues u (plan_unit issues u) ≡ true
unfolding plan_unit
plan_unit-fits issues u = fits-found issues u (titled (title_of u) issues) refl

-- ===== src/Presets/Rollback/Entries.antt =====
-- The applied record under `apply` and `rollback`: what it has for a profile and a family.
use localbench.Base.{
  String, true, false, ◌&&◌, ◌||◌, Option, none, some, List, [], ◌∷◌, map, ◌==◌, ◌≡◌, refl, arith,
  inl, inr, ◌⊎◌, Bool-cases, if◌then◌else◌, get, put, get-put, delete, eq_iff, ◌++◌, append-nil,
  append_assoc, any-append,
}
use localbench.Presets.Plan.{Plan}
use localbench.Presets.Registry.{is_in}
use localbench.Presets.Apply.{record_applied}
use localbench.Presets.World.{Entry, Applied, families, entry_of}
use localbench.Presets.Rollback.{reset, has_id, revert}

families-put :
    (p q : String) (fams : List (String × Entry)) (state : Applied)
    → families q (put p fams state) ≡ (if p == q then fams else families q state)
families-put p q fams state = ground (arith, get-put p q fams state)

entry_of-put :
    (p q f : String) (fams : List (String × Entry)) (state : Applied)
    → entry_of q f (put p fams state) ≡ (if p == q then get f fams else entry_of q f state)
entry_of-put p q f fams state =
    rw (families-put p q fams state)
      (elim (Bool-cases (p == q)) [ inl same ↦ rw same refl | inr other ↦ rw other refl ])

get-delete :
    (k j : String) (d : List (String × Entry))
    → get j (delete (λ r. r.0 == k) d) ≡ (if k == j then none else get j d)
get-delete k j [] = ground arith
get-delete k j ((i, v) ∷ d) = ground (arith, get-delete k j d, eq_iff i k, eq_iff i j, eq_iff k j)

get-reset :
    (fam f : String) (previous : Option Entry) (fams : List (String × Entry))
    → get f (reset fam previous fams) ≡ (if fam == f then previous else get f fams)
get-reset fam f none fams = get-delete fam f fams
get-reset fam f (some e) fams = get-put fam f e fams

module _ (id fam : String) (start : Applied) where
  -- An entry is as at the start, or it is one of the family that the apply has written.
  abbrev pub Written : List String → Applied → Type 0
  Written ps state =
      (q f : String)
      → (entry_of q f state ≡ entry_of q f start)
        ⊎ ((f ≡ fam) × (is_in q ps ≡ true) × (has_id id (entry_of q f state) ≡ true))

  -- What was written for the family stays to be reverted at the other profiles.
  stays :
      (p : String) (ps : List String) (state : Applied) (q f : String)
      → Written (p ∷ ps) state
      → ((p == q) && (fam == f) && has_id id (entry_of q f state)) ≡ false
      → (entry_of q f state ≡ entry_of q f start)
        ⊎ ((f ≡ fam) × (is_in q ps ≡ true) × (has_id id (entry_of q f state) ≡ true))
  stays p ps state q f w unmarked = elim (w q f) [
    | inl e ↦ inl e
    | inr (a, b, c) ↦ inr (a, ground (arith, eq_iff fam f), c)
  ]

  elsewhere_same :
      (p q f : String) (x : Option Entry) (state : Applied)
      → ((p == q) && (fam == f)) ≡ false
      → (if p == q then if fam == f then x else get f (families p state) else entry_of q f state)
        ≡ entry_of q f state
  elsewhere_same p q f x state h = ground (arith, eq_iff p q)

  revert-step :
      (p : String) (ps : List String) (state : Applied)
      → Written (p ∷ ps) state
      → Written ps (
          if has_id id (entry_of p fam state)
          then put p (reset fam (entry_of p fam start) (families p state)) state
          else state)
  revert-step p ps state w q f = elim (Bool-cases (has_id id (entry_of p fam state))) [
    | inl mine ↦ rw mine (
        rw (entry_of-put p q f (reset fam (entry_of p fam start) (families p state)) state) (
          rw (get-reset fam f (entry_of p fam start) (families p state))
            (elim (Bool-cases ((p == q) && (fam == f))) [
              | inl here ↦ inl (ground (arith, eq_iff p q, eq_iff fam f))
              | inr elsewhere ↦
                  rw (elsewhere_same p q f (entry_of p fam start) state elsewhere)
                    (stays p ps state q f w (ground arith))
            ])))
    | inr other ↦ rw other (stays p ps state q f w (ground (arith, eq_iff p q, eq_iff fam f)))
  ]

  -- The loop of `rollback` brings every entry back.
  pub revert-entry :
      (ps : List String) (state : Applied)
      → Written ps state
      → (q f : String)
      → entry_of q f (revert id fam (map (λ p. (p, entry_of p fam start)) ps) state)
        ≡ entry_of q f start
  unfolding revert
  revert-entry [] state w q f = elim (w q f) [ inl e ↦ e | inr (a, b, c) ↦ cc ]
  revert-entry (p ∷ ps) state w q f = revert-entry ps _ (revert-step p ps state w) q f

  is_in-append_one :
      (q p : String) (done : List String)
      → is_in q (done ++ p ∷ []) ≡ (is_in q done || (p == q || false))
  is_in-append_one q p done = any-append (λ u. u == q) done (p ∷ [])

  record_one-Written :
      (p : String) (done : List String) (e : Entry) (state : Applied)
      → e.id ≡ id
      → Written done state
      → Written (done ++ p ∷ []) (put p (put fam e (families p state)) state)
  record_one-Written p done e state mine w q f =
      rw (entry_of-put p q f (put fam e (families p state)) state) (
        rw (get-put fam f e (families p state)) (elim (Bool-cases ((p == q) && (fam == f))) [
          | inl here ↦ inr (
            ground (arith, eq_iff fam f),
            ground (arith, is_in-append_one q p done),
            ground (arith, eq_iff e.id id),
          )
          | inr elsewhere ↦ rw (elsewhere_same p q f (some e) state elsewhere) (elim (w q f) [
            | inl kept ↦ inl kept
            | inr (a, b, c) ↦ inr (a, ground (arith, is_in-append_one q p done), c)
          ])
        ]))

  -- After `record_applied` each entry is as at the start, or it is one that was written.
  pub record_applied-Written :
      (p : Plan) (at : String) (ps done : List String) (state : Applied)
      → Written done state
      → Written (done ++ ps) (record_applied p fam id at ps state)
  unfolding record_applied
  record_applied-Written p at [] done state w = rw (append-nil done) w
  record_applied-Written p at (profile ∷ ps) done state w =
      rw (← (append_assoc done (profile ∷ []) ps)) (
        record_applied-Written p at ps (done ++ profile ∷ []) _
          (record_one-Written profile done _ state refl w))

-- ===== src/Stats/Holm/Closed.antt =====
-- The loop of `holm_reject` decides by the closed form.
use localbench.Base.{
  ℕ, suc, ◌-◌, ◌*◌, ◌≤◌, String, Bool, true, false, not, ◌||◌, Option, none, some, List, [], ◌∷◌,
  ◌++◌, ◌==◌, ◌≡◌, refl, ◌∙◌, subst, arith, inl, inr, Bool-cases, Option-cases, ltb, leb,
  if◌then◌else◌, length, length-append, all, get, put, get-put, has_key, has_key-get, eq_iff,
  append_assoc,
}
use localbench.Stats.{Family, Outcome, decided, step_down}
use localbench.Stats.Holm.{
  passes, holm_closed, IsAbove, IsBelow, IsSorted, all-append, test-passes, stopped,
}

abbrev pub Distinct : Family → Type 0
Distinct [] = Unit
Distinct (x ∷ xs) = (has_key x.0 xs ≡ false) × Distinct xs

-- Every p-value is at most one.
abbrev pub IsProper : ℕ → Family → Type 0
IsProper one [] = Unit
IsProper one (x ∷ xs) = (x.1 ≤ one) × IsProper one xs

abbrev pub Under : Family → Family → Type 0
Under seen [] = Unit
Under seen (x ∷ xs) = IsBelow x.1 seen

module _ (alpha : ℕ) (whole : Family) where
  seen-closed :
      (p : ℕ) (seen : Family)
      → all (λ r. passes alpha whole r.1) seen ≡ true
      → all (λ r. not (leb r.1 p) || passes alpha whole r.1) seen ≡ true
  seen-closed p [] h = refl
  seen-closed p (x ∷ xs) h = ground (arith, seen-closed p xs)

  rest-closed :
      (p : ℕ) (rest : Family)
      → IsAbove p rest
      → passes alpha whole p ≡ true
      → all (λ r. not (leb r.1 p) || passes alpha whole r.1) rest ≡ true
  rest-closed p [] a h = refl
  rest-closed p (x ∷ xs) a h = elim (Bool-cases (leb x.1 p)) [
    | inr larger ↦ rw larger (rest-closed p xs a.1 h)
    | inl tie ↦
        let e : p ≡ x.1 = ground arith in
        rw tie (rw (subst (λ z. passes alpha whole z ≡ true) e h) (rest-closed p xs a.1 h))
  ]

-- The verdict on a name that the rest of the loop leaves.
abbrev pub verdict_of : ℕ → Family → Option ℕ → Option Bool → Option Bool
verdict_of alpha whole none before = before
verdict_of alpha whole (some p) before = if holm_closed alpha whole p then some true else before

abbrev pub Decides : ℕ → Family → Family → List (String × Bool) → Outcome → Type 0
Decides alpha whole rest out result =
    (after : List (String × Bool)) × (result ≡ decided after)
    × ((name : String) → get name after ≡ verdict_of alpha whole (get name rest) (get name out))

absent_of : (name : String) (rest : Family) → has_key name rest ≡ false → get name rest ≡ none
absent_of name rest h = elim (Option-cases (get name rest)) [
  | inl absent ↦ absent
  | inr (p, found) ↦ absurd (ground (arith, has_key-get name rest, found))
]

-- The head is rejected, and the loop goes on.
Decides-next :
    (alpha : ℕ) (whole : Family) (name : String) (p : ℕ) (rest : Family)
    (out : List (String × Bool)) (result : Outcome)
    → has_key name rest ≡ false
    → holm_closed alpha whole p ≡ true
    → Decides alpha whole rest (put name true out) result
    → Decides alpha whole ((name, p) ∷ rest) out result
Decides-next alpha whole name p rest out result new closed (after, e, d) = (
  after,
  e,
  λ n. d n ∙ elim (Bool-cases (name == n)) [
    | inl same ↦
        let absent : get n rest ≡ none =
          absent_of n rest (subst (λ k. has_key k rest ≡ false) ((eq_iff name n).0 same) new) in
        rw (same, absent, closed) (rw (get-put name n true out) (rw same refl))
    | inr other ↦ rw other (rw (get-put name n true out) (rw other refl))
  ],
)

-- The loop ends at a value that fails.
Decides-stop :
    (alpha : ℕ) (seen rest : Family) (out : List (String × Bool))
    → ((name : String) (p : ℕ)
        → get name rest ≡ some p
        → holm_closed alpha (seen ++ rest) p ≡ false)
    → Decides alpha (seen ++ rest) rest out (decided out)
Decides-stop alpha seen rest out fail = (
  out,
  refl,
  λ n. elim (Option-cases (get n rest)) [
    | inl absent ↦ rw absent refl
    | inr (p, found) ↦ rw found (rw (fail n p found) refl)
  ],
)

get-IsAbove :
    (q : ℕ) (rest : Family) (name : String) (p : ℕ)
    → IsAbove q rest
    → get name rest ≡ some p
    → q ≤ p
get-IsAbove q [] name p a e = absurd (ground arith)
get-IsAbove q ((n, r) ∷ rest) name p a e = elim (Bool-cases (n == name)) [
  | inl same ↦ ground arith
  | inr other ↦ get-IsAbove q rest name p a.1 (ground arith)
]

-- What holds before each round: the values seen pass, and they are not above those of the rest.
abbrev pub Round : ℕ → ℕ → Family → Family → Type 0
Round one alpha seen rest =
    Under seen rest
    × IsSorted rest
    × Distinct rest
    × IsProper one rest
    × (all (λ r. passes alpha (seen ++ rest) r.1) seen ≡ true)

pub Under-nil : (rest : Family) → Under [] rest
Under-nil [] = tt
Under-nil (x ∷ xs) = tt

IsBelow-next :
    (p q : ℕ) (seen : Family) (name : String)
    → IsBelow p seen
    → p ≤ q
    → IsBelow q (seen ++ (name, p) ∷ [])
IsBelow-next p q [] name b le = (le, tt)
IsBelow-next p q (x ∷ xs) name b le = (omega arith, IsBelow-next p q xs name b.1 le)

Under-next :
    (seen : Family) (name : String) (p : ℕ) (rest : Family)
    → IsBelow p seen
    → IsAbove p rest
    → Under (seen ++ (name, p) ∷ []) rest
Under-next seen name p [] b a = tt
Under-next seen name p (x ∷ xs) b a = IsBelow-next p x.1 seen name b a.0

Round-next :
    (one alpha : ℕ) (seen : Family) (name : String) (p : ℕ) (rest : Family)
    → Round one alpha seen ((name, p) ∷ rest)
    → passes alpha (seen ++ (name, p) ∷ rest) p ≡ true
    → Round one alpha (seen ++ (name, p) ∷ []) rest
Round-next one alpha seen name p rest r pass = (
  Under-next seen name p rest r.0 r.1.0,
  r.1.1,
  r.2.1,
  r.3.1,
  rw (append_assoc seen ((name, p) ∷ []) rest) (
      rw (all-append (λ q. passes alpha (seen ++ (name, p) ∷ rest) q.1) seen ((name, p) ∷ []))
        (rw (r.4) (rw pass refl))),
)

head-closed :
    (one alpha : ℕ) (seen : Family) (name : String) (p : ℕ) (rest : Family)
    → Round one alpha seen ((name, p) ∷ rest)
    → passes alpha (seen ++ (name, p) ∷ rest) p ≡ true
    → holm_closed alpha (seen ++ (name, p) ∷ rest) p ≡ true
head-closed one alpha seen name p rest r pass =
    let whole = seen ++ (name, p) ∷ rest in
    rw (all-append (λ q. not (leb q.1 p) || passes alpha whole q.1) seen ((name, p) ∷ rest)) (
      rw (seen-closed alpha whole p seen r.4)
        (rw pass (rw (rest-closed alpha whole p rest r.1.0 pass) (ground arith))))

not_over : (one p : ℕ) → p ≤ one → ltb one p ≡ false
not_over one p h = ground arith

over_passes : (alpha x : ℕ) (b : Bool) → leb x alpha ≡ b → ltb alpha x ≡ not b
over_passes alpha x b h = ground arith

pub step_down-Decides :
    (one alpha : ℕ) (seen rest : Family) (out : List (String × Bool))
    → Round one alpha seen rest
    → Decides alpha
        (seen ++ rest)
        rest
        out
        (step_down one alpha (length (seen ++ rest)) (length seen) rest out)
unfolding step_down
step_down-Decides one alpha seen [] out r = (out, refl, λ n. refl)
step_down-Decides one alpha seen ((name, p) ∷ rest) out r =
    let whole = seen ++ (name, p) ∷ rest in
    let test = test-passes alpha seen name p rest r.0 r.1.0 r.4 in
    elim (Bool-cases (passes alpha whole p)) [
      | inr fail ↦ rw (not_over one p r.3.0) (
          rw (over_passes alpha (p * (length whole - length seen)) false (test ∙ fail)) (
            Decides-stop alpha seen ((name, p) ∷ rest) out λ n q found.
              stopped alpha whole seen name p rest q
                (get-IsAbove p ((name, p) ∷ rest) n q (omega arith, r.1.0) found) fail))
      | inl pass ↦
          let moved : length (seen ++ (name, p) ∷ []) ≡ suc (length seen) =
            omega (arith, length-append seen ((name, p) ∷ [])) in
          let rest_decided =
            step_down-Decides one alpha (seen ++ (name, p) ∷ []) rest (put name true out)
              (Round-next one alpha seen name p rest r pass) in
          rw (not_over one p r.3.0) (
            rw (over_passes alpha (p * (length whole - length seen)) true (test ∙ pass)) (
              Decides-next alpha whole name p rest out _ r.2.0
                (head-closed one alpha seen name p rest r pass)
                (subst
                  (λ k.
                    Decides alpha whole rest (put name true out)
                      (step_down one alpha (length whole) k rest (put name true out)))
                  moved
                  (subst
                    (λ w. Decides alpha w rest (put name true out) (
                      step_down one alpha (length w) (length (seen ++ (name, p) ∷ [])) rest
                        (put name true out)))
                    (append_assoc seen ((name, p) ∷ []) rest) rest_decided))))
    ]

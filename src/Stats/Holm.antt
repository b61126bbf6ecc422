-- ===== src/Stats/Holm.antt =====
-- Holm's procedure in closed form: what it rejects does not depend on how ties are ordered.
pub mod Closed
pub mod Sorted
use localbench.Base.{
  ℕ, suc, ◌+◌, ◌-◌, ◌*◌, ◌≤◌, ◌<◌, String, Bool, true, false, not, ◌&&◌, ◌||◌, Option, none, some,
  List, [], ◌∷◌, ◌++◌, ◌==◌, ◌≡◌, refl, sym, ap, ◌∙◌, subst, arith, inl, inr, and-eq-true,
  Bool-cases, ltb, leb, le→leb, if◌then◌else◌, length, length-append, map, all, get, put, get-put,
  has_key, eq_iff, eq_refl, append_assoc,
}
use localbench.Stats.{
  Family, Outcome, decided, bad_pvalue, insert_item, sorted, step_down, none_rejected, holm_reject,
}

-- How many p-values of the family are at least `q`.
abbrev pub at_least : ℕ → Family → ℕ
at_least q [] = 0
at_least q (x ∷ xs) = (if leb q x.1 then 1 else 0) + at_least q xs

-- The step of a value: Bonferroni's bound over the values that are not smaller.
abbrev pub passes : ℕ → Family → ℕ → Bool
passes alpha family q = leb (q * at_least q family) alpha

-- Every value up to `p` passes its step.
abbrev pub holm_closed : ℕ → Family → ℕ → Bool
holm_closed alpha family p = all (λ r. not (leb r.1 p) || passes alpha family r.1) family

abbrev pub IsAbove : ℕ → Family → Type 0
IsAbove q [] = Unit
IsAbove q (x ∷ xs) = (q ≤ x.1) × IsAbove q xs

abbrev pub IsBelow : ℕ → Family → Type 0
IsBelow q [] = Unit
IsBelow q (x ∷ xs) = (x.1 ≤ q) × IsBelow q xs

abbrev pub IsSorted : Family → Type 0
IsSorted [] = Unit
IsSorted (x ∷ xs) = IsAbove x.1 xs × IsSorted xs

at_least-append : (q : ℕ) (xs ys : Family) → at_least q (xs ++ ys) ≡ at_least q xs + at_least q ys
at_least-append q [] ys = omega arith
at_least-append q (x ∷ xs) ys = omega (arith, at_least-append q xs ys)

at_least-above : (q : ℕ) (xs : Family) → IsAbove q xs → at_least q xs ≡ length xs
at_least-above q [] h = refl
at_least-above q (x ∷ xs) h = ground (arith, at_least-above q xs h.1)

-- Below a value that is not tied with any of them none counts; a tied one has passed already.
tied :
    (alpha : ℕ) (whole : Family) (q : ℕ) (xs : Family)
    → IsBelow q xs
    → all (λ r. passes alpha whole r.1) xs ≡ true
    → ltb 0 (at_least q xs) ≡ true
    → passes alpha whole q ≡ true
tied alpha whole q [] b h t = absurd (ground arith)
tied alpha whole q (x ∷ xs) b h t = elim (Bool-cases (leb q x.1)) [
  | inl same ↦
      let e : x.1 ≡ q = ground arith in subst (λ z. passes alpha whole z ≡ true) e (and-eq-true h).0
  | inr less ↦ tied alpha whole q xs b.1 (ground arith) (ground arith)
]

within : (p m n alpha : ℕ) → m ≤ n → leb (p * n) alpha ≡ true → leb (p * m) alpha ≡ true
within p m n alpha le h = grind arith

and-false : (b : Bool) → (b && false) ≡ false
and-false true = refl
and-false false = refl

-- The test of the loop is the step of the value.
pub test-passes :
    (alpha : ℕ) (seen : Family) (name : String) (p : ℕ) (rest : Family)
    → IsBelow p seen
    → IsAbove p rest
    → all (λ r. passes alpha (seen ++ (name, p) ∷ rest) r.1) seen ≡ true
    → leb (p * (length (seen ++ (name, p) ∷ rest) - length seen)) alpha
      ≡ passes alpha (seen ++ (name, p) ∷ rest) p
test-passes alpha seen name p rest b a h =
    let whole = seen ++ (name, p) ∷ rest in
    let left : length whole - length seen ≡ length rest + 1 =
      omega (arith, length-append seen ((name, p) ∷ rest)) in
    let here : at_least p whole ≡ at_least p seen + (length rest + 1) =
      at_least-append p seen ((name, p) ∷ rest) ∙ ground (arith, at_least-above p rest a) in
    elim (Bool-cases (ltb 0 (at_least p seen))) [
      | inl tie ↦
          let pass : passes alpha whole p ≡ true = tied alpha whole p seen b h tie in
          rw left (
            within p (length rest + 1) (at_least p whole) alpha (omega (arith, here)) pass
            ∙ sym pass)
      | inr new ↦ rw (left, here) (ap (λ n. leb (p * n) alpha) (ground arith))
    ]

pub IsAbove-trans : (p q : ℕ) (xs : Family) → p ≤ q → IsAbove q xs → IsAbove p xs
IsAbove-trans p q [] h a = tt
IsAbove-trans p q (x ∷ xs) h a = (omega arith, IsAbove-trans p q xs h a.1)

pub all-append :
    (f : String × ℕ → Bool) (xs ys : Family) → all f (xs ++ ys) ≡ (all f xs && all f ys)
all-append f [] ys = refl
all-append f (x ∷ xs) ys = ground (arith, all-append f xs ys)

-- A value of the family that fails stops every value that is not smaller.
pub stopped :
    (alpha : ℕ) (whole seen : Family) (name : String) (q : ℕ) (rest : Family) (p : ℕ)
    → q ≤ p
    → passes alpha whole q ≡ false
    → all (λ r. not (leb r.1 p) || passes alpha whole r.1) (seen ++ (name, q) ∷ rest) ≡ false
stopped alpha whole seen name q rest p le fail =
    rw (all-append (λ r. not (leb r.1 p) || passes alpha whole r.1) seen ((name, q) ∷ rest))
      (rw (le→leb q p le) (rw fail (and-false _)))

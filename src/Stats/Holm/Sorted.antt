-- ===== src/Stats/Holm/Sorted.antt =====
-- `holm_reject` in closed form: the sort changes neither the counts nor the lookups.
use localbench.Base.{
  ℕ, ◌+◌, ◌*◌, ◌≤◌, ◌<◌, String, Bool, true, false, not, ◌&&◌, ◌||◌, some, List, [], ◌∷◌, ◌==◌, ◌≡◌,
  refl, sym, ap, ◌∙◌, fun_ext, arith, inl, inr, Bool-cases, leb, lt→ltb, if◌then◌else◌, all, get,
  has_key, is_some, has_key-get, eq_iff,
}
use localbench.Stats.{Family, decided, insert_item, sorted, none_rejected, holm_reject}
use localbench.Stats.Holm.{at_least, passes, holm_closed, IsAbove, IsSorted, IsAbove-trans}
use localbench.Stats.Holm.Closed.{Distinct, IsProper, Under-nil, step_down-Decides}

at_least-insert_item :
    (q : ℕ) (x : String × ℕ) (xs : Family)
    → at_least q (insert_item x xs) ≡ (if leb q x.1 then 1 else 0) + at_least q xs
at_least-insert_item q x [] = refl
at_least-insert_item q x (y ∷ ys) = elim (Bool-cases (leb x.1 y.1)) [
  | inl first ↦ rw first refl
  | inr later ↦ rw later (omega (arith, at_least-insert_item q x ys))
]

at_least-sorted : (q : ℕ) (xs : Family) → at_least q (sorted xs) ≡ at_least q xs
unfolding sorted
at_least-sorted q [] = refl
at_least-sorted q (x ∷ xs) =
    omega (arith, at_least-insert_item q x (sorted xs), at_least-sorted q xs)

all-insert_item :
    (f : String × ℕ → Bool) (x : String × ℕ) (xs : Family)
    → all f (insert_item x xs) ≡ (f x && all f xs)
all-insert_item f x [] = refl
all-insert_item f x (y ∷ ys) = elim (Bool-cases (leb x.1 y.1)) [
  | inl first ↦ rw first refl
  | inr later ↦ rw later (ground (arith, all-insert_item f x ys))
]

all-sorted : (f : String × ℕ → Bool) (xs : Family) → all f (sorted xs) ≡ all f xs
unfolding sorted
all-sorted f [] = refl
all-sorted f (x ∷ xs) = all-insert_item f x (sorted xs) ∙ ap (λ b. f x && b) (all-sorted f xs)

get-insert_item :
    (n : String) (x : String × ℕ) (xs : Family)
    → has_key x.0 xs ≡ false
    → get n (insert_item x xs) ≡ (if x.0 == n then some x.1 else get n xs)
get-insert_item n x [] new = refl
get-insert_item n x (y ∷ ys) new = elim (Bool-cases (leb x.1 y.1)) [
  | inl first ↦ rw first refl
  | inr later ↦
      rw later (ground (arith, get-insert_item n x ys, eq_iff x.0 n, eq_iff y.0 n, eq_iff y.0 x.0))
]

get-sorted : (n : String) (xs : Family) → Distinct xs → get n (sorted xs) ≡ get n xs
unfolding sorted
get-sorted n [] d = refl
get-sorted n (x ∷ xs) d =
    get-insert_item n x (sorted xs) (
      has_key-get x.0 (sorted xs)
      ∙ ap is_some (get-sorted x.0 xs d.1)
      ∙ sym (has_key-get x.0 xs)
      ∙ d.0)
    ∙ rw (get-sorted n xs d.1) refl

has_key-insert_item :
    (n : String) (x : String × ℕ) (xs : Family)
    → has_key n (insert_item x xs) ≡ (x.0 == n || has_key n xs)
has_key-insert_item n x [] = refl
has_key-insert_item n x (y ∷ ys) = elim (Bool-cases (leb x.1 y.1)) [
  | inl first ↦ rw first refl
  | inr later ↦ rw later (ground (arith, has_key-insert_item n x ys))
]

Distinct-insert_item :
    (x : String × ℕ) (xs : Family)
    → has_key x.0 xs ≡ false
    → Distinct xs
    → Distinct (insert_item x xs)
Distinct-insert_item x [] new d = (refl, tt)
Distinct-insert_item x (y ∷ ys) new d = elim (Bool-cases (leb x.1 y.1)) [
  | inl first ↦ rw first (new, d)
  | inr later ↦ rw later (
    ground (arith, has_key-insert_item y.0 x ys, d.0, eq_iff x.0 y.0, eq_iff y.0 x.0),
    Distinct-insert_item x ys (ground arith) d.1,
  )
]

sorted-Distinct : (xs : Family) → Distinct xs → Distinct (sorted xs)
unfolding sorted
sorted-Distinct [] d = tt
sorted-Distinct (x ∷ xs) d =
    Distinct-insert_item x (sorted xs)
      (has_key-get x.0 (sorted xs)
        ∙ ap is_some (get-sorted x.0 xs d.1)
        ∙ sym (has_key-get x.0 xs)
        ∙ d.0)
      (sorted-Distinct xs d.1)

IsProper-insert_item :
    (one : ℕ) (x : String × ℕ) (xs : Family)
    → x.1 ≤ one
    → IsProper one xs
    → IsProper one (insert_item x xs)
IsProper-insert_item one x [] h p = (h, tt)
IsProper-insert_item one x (y ∷ ys) h p = elim (Bool-cases (leb x.1 y.1)) [
  | inl first ↦ rw first (h, p)
  | inr later ↦ rw later (p.0, IsProper-insert_item one x ys h p.1)
]

sorted-IsProper : (one : ℕ) (xs : Family) → IsProper one xs → IsProper one (sorted xs)
unfolding sorted
sorted-IsProper one [] p = tt
sorted-IsProper one (x ∷ xs) p =
    IsProper-insert_item one x (sorted xs) p.0 (sorted-IsProper one xs p.1)

IsAbove-insert_item :
    (q : ℕ) (x : String × ℕ) (xs : Family) → q ≤ x.1 → IsAbove q xs → IsAbove q (insert_item x xs)
IsAbove-insert_item q x [] h a = (h, tt)
IsAbove-insert_item q x (y ∷ ys) h a = elim (Bool-cases (leb x.1 y.1)) [
  | inl first ↦ rw first (h, a)
  | inr later ↦ rw later (a.0, IsAbove-insert_item q x ys h a.1)
]

insert_item-IsSorted : (x : String × ℕ) (xs : Family) → IsSorted xs → IsSorted (insert_item x xs)
insert_item-IsSorted x [] s = (tt, tt)
insert_item-IsSorted x (y ∷ ys) s = elim (Bool-cases (leb x.1 y.1)) [
  | inl first ↦ rw first ((ground arith, IsAbove-trans x.1 y.1 ys (ground arith) s.0), s)
  | inr later ↦
      rw later (IsAbove-insert_item y.1 x ys (ground arith) s.0, insert_item-IsSorted x ys s.1)
]

sorted-IsSorted : (xs : Family) → IsSorted (sorted xs)
unfolding sorted
sorted-IsSorted [] = tt
sorted-IsSorted (x ∷ xs) = insert_item-IsSorted x (sorted xs) (sorted-IsSorted xs)

holm_closed-sorted :
    (alpha : ℕ) (xs : Family) (p : ℕ) → holm_closed alpha (sorted xs) p ≡ holm_closed alpha xs p
holm_closed-sorted alpha xs p =
    all-sorted (λ r. not (leb r.1 p) || passes alpha (sorted xs) r.1) xs
    ∙ ap (λ f. all f xs)
        (fun_ext λ r. ap (λ k. not (leb r.1 p) || leb (r.1 * k) alpha) (at_least-sorted r.1 xs))

get-none_rejected :
    (xs : Family) (name : String) (p : ℕ)
    → get name xs ≡ some p
    → get name (none_rejected xs) ≡ some false
get-none_rejected [] name p e = absurd (ground arith)
get-none_rejected (x ∷ xs) name p e = ground (arith, get-none_rejected xs name p)

some_if : (b : Bool) → (if b then some true else some false) ≡ some b
some_if true = refl
some_if false = refl

-- For a family of p-values of at most one, with a name for each, and an alpha between zero and one, the
-- procedure returns, and a name is rejected exactly if every p-value up to its own, multiplied by the number
-- of p-values of the family that are not smaller, is at most alpha. So neither the order of the family nor
-- the order of ties matters.
pub holm_reject-closed :
    (one alpha : ℕ) (family : Family)
    → 0 < alpha
    → alpha < one
    → Distinct family
    → IsProper one family
    → (out : List (String × Bool)) × (holm_reject one alpha family ≡ decided out)
      × ((name : String) (p : ℕ)
          → get name family ≡ some p
          → get name out ≡ some (holm_closed alpha family p))
unfolding holm_reject
holm_reject-closed one alpha family low high d p =
    let (out, e, verdicts) = step_down-Decides one alpha [] (sorted family) (none_rejected family) (
      Under-nil (sorted family),
      sorted-IsSorted family,
      sorted-Distinct family d,
      sorted-IsProper one family p,
      refl,
    ) in
    (
      out,
      rw (lt→ltb 0 alpha low) (rw (lt→ltb alpha one high) e),
      λ name q found.
          verdicts name
          ∙ rw (get-sorted name family d) (
              rw found (
                rw (holm_closed-sorted alpha family q) (
                  rw (get-none_rejected family name q found)
                    (some_if (holm_closed alpha family q))))),
    )

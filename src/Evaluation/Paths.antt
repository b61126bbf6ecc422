-- ===== src/Evaluation/Paths.antt =====
-- Paths as pathlib has them: whether a path is absolute, and its parts.
use localbench.Base.{
  String, Bool, true, false, ◌&&◌, Option, none, some, List, [], ◌∷◌, ◌++◌, ◌==◌, ◌≡◌, refl, arith,
  eq_iff, if◌then◌else◌,
}

pub record FilePath : Type 0 where
  pub absolute : Bool
  pub parts : List String

abbrev pub relative : List String → FilePath
relative parts = record { absolute = false; parts = parts }

abbrev pub parts_eq : List String → List String → Bool
parts_eq [] [] = true
parts_eq (a ∷ as') (b ∷ bs) = a == b && parts_eq as' bs
parts_eq as' bs = false

-- The parts that are left after a prefix.
abbrev pub below : List String → List String → Option (List String)
below [] parts = some parts
below (a ∷ prefix) [] = none
below (a ∷ prefix) (b ∷ parts) = let rest = below prefix parts in if a == b then rest else none

-- `path.relative_to(base)` between absolute paths; `none` is its ValueError
abbrev pub relative_to : FilePath → FilePath → Option (List String)
relative_to base path = if base.absolute && path.absolute then below base.parts path.parts else none

-- `base / path`
abbrev pub joined : FilePath → FilePath → FilePath
joined base path =
    if path.absolute
    then path
    else record { absolute = base.absolute; parts = base.parts ++ path.parts }

pub parts_eq_refl : (parts : List String) → parts_eq parts parts ≡ true
parts_eq_refl [] = refl
parts_eq_refl (p ∷ parts) = ground (arith, eq_iff p p, parts_eq_refl parts)

pub parts_eq→eq : (ps qs : List String) → parts_eq ps qs ≡ true → ps ≡ qs
parts_eq→eq [] [] h = refl
parts_eq→eq [] (q ∷ qs) h = cc
parts_eq→eq (p ∷ ps) [] h = cc
parts_eq→eq (p ∷ ps) (q ∷ qs) h = ground (arith, eq_iff p q, parts_eq→eq ps qs)

below-append :
    (prefix parts rest : List String) → below prefix parts ≡ some rest → prefix ++ rest ≡ parts
below-append [] parts rest h = cc
below-append (p ∷ prefix) [] rest h = cc
below-append (p ∷ prefix) (q ∷ parts) rest h =
    ground (arith, eq_iff p q, below-append prefix parts rest)

-- A relative path leads back to the path that it was taken of.
pub joined-relative_to :
    (base path : FilePath) (rest : List String)
    → relative_to base path ≡ some rest
    → joined base (relative rest) ≡ path
joined-relative_to base path rest h = ground (arith, below-append base.parts path.parts rest)

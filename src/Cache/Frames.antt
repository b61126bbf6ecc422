-- ===== src/Cache/Frames.antt =====
-- The key of localbench/response_cache.py: the framing keeps the six inputs apart.
use localbench.Base.{
  ℕ, suc, zero, ◌+◌, ◌*◌, ◌/◌, ◌%◌, ◌^◌, ◌<◌, ◌≡◌, refl, sym, ap, ◌∙◌, arith, List, [], ◌∷◌, ◌++◌,
  length, length-append, append_assoc,
}
use localbench.Cache.{Bytes, to_bytes, frame, framed, KeyParts, parts_of}

-- The number that bytes write, from the end.
abbrev value : ℕ → Bytes → ℕ
value acc [] = acc
value acc (b ∷ bs) = value (acc * 256 + b) bs

value-append : (acc b : ℕ) (bs : Bytes) → value acc (bs ++ b ∷ []) ≡ value acc bs * 256 + b
value-append acc b [] = refl
value-append acc b (c ∷ bs) = value-append (acc * 256 + c) b bs

abbrev limit : ℕ → ℕ
limit zero = 1
limit (suc k) = 256 * limit k

value-to_bytes : (k n : ℕ) → n < limit k → value 0 (to_bytes k n) ≡ n
unfolding to_bytes
value-to_bytes zero n h = omega arith
value-to_bytes (suc k) n h =
    value-append 0 (n % 256) (to_bytes k (n / 256)) ∙ omega (arith, value-to_bytes k (n / 256))

length-to_bytes : (k n : ℕ) → length (to_bytes k n) ≡ k
unfolding to_bytes
length-to_bytes zero n = refl
length-to_bytes (suc k) n =
    omega (arith, length-append (to_bytes k (n / 256)) (n % 256 ∷ []), length-to_bytes k (n / 256))

-- Two texts with heads of one length are equal part by part.
append-injective :
    (xs ys us vs : Bytes) → length xs ≡ length ys → xs ++ us ≡ ys ++ vs → (xs ≡ ys) × (us ≡ vs)
append-injective [] [] us vs l h = (refl, h)
append-injective [] (y ∷ ys) us vs l h = ground arith
append-injective (x ∷ xs) [] us vs l h = ground arith
append-injective (x ∷ xs) (y ∷ ys) us vs l h = ground (arith, append-injective xs ys us vs)

to_bytes-injective : (k n m : ℕ) → n < limit k → m < limit k → to_bytes k n ≡ to_bytes k m → n ≡ m
to_bytes-injective k n m hn hm h =
    sym (value-to_bytes k n hn) ∙ ap (value 0) h ∙ value-to_bytes k m hm

-- `int.to_bytes(8, …)` raises above it.
abbrev pub frame_limit : ℕ
frame_limit = 2 ^ 64

frame-injective :
    (raw other rest left : Bytes)
    → length raw < frame_limit
    → length other < frame_limit
    → frame raw ++ rest ≡ frame other ++ left
    → (raw ≡ other) × (rest ≡ left)
unfolding frame
frame-injective raw other rest left hr ho h =
    let opened : to_bytes 8 (length raw) ++ (raw ++ rest)
        ≡ to_bytes 8 (length other) ++ (other ++ left) =
      sym (append_assoc (to_bytes 8 (length raw)) raw rest)
      ∙ h
      ∙ append_assoc (to_bytes 8 (length other)) other left in
    let heads = length-to_bytes 8 (length raw) ∙ sym (length-to_bytes 8 (length other)) in
    let (sizes, bodies) =
      append-injective (to_bytes 8 (length raw)) (to_bytes 8 (length other)) (raw ++ rest)
        (other ++ left) heads opened in
    let same = to_bytes-injective 8 (length raw) (length other) hr ho sizes in
    append-injective raw other rest left same bodies

abbrev pub AreShort : List Bytes → Type 0
AreShort [] = Unit
AreShort (raw ∷ rest) = (length raw < frame_limit) × AreShort rest

framed-injective :
    (ps qs : List Bytes)
    → length ps ≡ length qs
    → AreShort ps
    → AreShort qs
    → framed ps ≡ framed qs
    → ps ≡ qs
unfolding framed
framed-injective [] [] l hp hq h = refl
framed-injective [] (q ∷ qs) l hp hq h = ground arith
framed-injective (p ∷ ps) [] l hp hq h = ground arith
framed-injective (p ∷ ps) (q ∷ qs) l hp hq h =
    let (first, rest) = frame-injective p q (framed ps) (framed qs) hp.0 hq.0 h in
    rw (first, framed-injective ps qs (omega (arith, l)) hp.1 hq.1 rest) refl

abbrev parts_from : KeyParts → List Bytes → KeyParts
parts_from d (a ∷ b ∷ c ∷ e ∷ f ∷ g ∷ []) = record {
  request_bytes = a;
  model_digest = b;
  backend_version = c;
  suite_pin = e;
  repeat_namespace = f;
  template_bytes = g;
}
parts_from d _ = d

-- What is hashed into a key determines the request, the digest, the version, the suite, the namespace and
-- the template: two different calls, with inputs of less than 2^64 bytes, never share it.
pub framed-parts_injective :
    (p q : KeyParts)
    → AreShort (parts_of p)
    → AreShort (parts_of q)
    → framed (parts_of p) ≡ framed (parts_of q)
    → p ≡ q
framed-parts_injective p q hp hq h =
    ap (parts_from p) (framed-injective (parts_of p) (parts_of q) refl hp hq h)

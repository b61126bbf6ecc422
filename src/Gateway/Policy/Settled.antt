-- ===== src/Gateway/Policy/Settled.antt =====
-- The outcome of each lease after a sweep of `GatewayPolicy.expire_due` in localbench/gateway.py.
use localbench.Base.{
  ◌∙◌, eqb, on_some, ◌||◌, ◌+◌, ◌*◌, ℕ, String, Bool, true, false, not, ◌&&◌, Option, none, some,
  List, [], ◌∷◌, ◌==◌, ◌≡◌, refl, arith, if◌then◌else◌, find-update_key, IsUnique, Option-cases,
  inl, inr, is_some, Bool-cases,
}
use localbench.Gateway.Store.{second, Store, Lease, lease_of}
use localbench.Gateway.Residency.{claim_due, mark_result, marked}
use localbench.Gateway.Residency.Claim.{claim_due-is_due, names}
use localbench.Gateway.Policy.{Backend, expire_one, expire_each, expire_due}
use localbench.Gateway.Policy.Sweep.{is_final, is_deferred, is_outcome, outcome-known}

abbrev is_time : Option ℕ → ℕ → Bool
is_time none t = false
is_time (some u) t = eqb u t

-- A lease with a final outcome and no retry, or one that is tried again 15 seconds after `now`.
abbrev is_answered_row : ℕ → Lease → Bool
is_answered_row now l = elim l.last_outcome [
  | none ↦ false
  | some o ↦
      is_final o && not (is_some l.next_retry_at)
      || is_deferred o && is_time l.next_retry_at (now + 15 * second)
]

abbrev pub is_answered : ℕ → Option Lease → Bool
is_answered now none = false
is_answered now (some l) = is_answered_row now l

marked-answered :
    (o : String) (detail : Option String) (now : ℕ) (l : Lease)
    → is_outcome o ≡ true
    → is_answered_row now (marked o detail now l) ≡ true
marked-answered o detail now l h = ground arith

lease-mark_result :
    (n o m : String) (detail : Option String) (now : ℕ) (s : Store)
    → lease_of (mark_result n o detail now s) m
      ≡ (if n == m then on_some (marked o detail now) (lease_of s m) else lease_of s m)
unfolding mark_result
lease-mark_result n o m detail now s =
    find-update_key (λ l. l.model) (marked o detail now) n m s.leases (λ l. refl)

module _ {W : Type 0} (b : Backend W) (now : ℕ) (m : String) where
  unnamed-expire_each :
      (models : List String) (s : Store) (w : W)
      → names m models ≡ false
      → lease_of (expire_each b now models s w).1 m ≡ lease_of s m
  unfolding expire_each
  unnamed-expire_each [] s w h = refl
  unnamed-expire_each (n ∷ ns) s w h =
      let (verdict, w') = expire_one b n w in
      ground (
        arith,
        unnamed-expire_each ns (mark_result n verdict.0 verdict.1 now s) w',
        lease-mark_result n verdict.0 m verdict.1 now s,
      )

  answered-expire_each :
      (models : List String) (s : Store) (w : W)
      → (is_answered now (lease_of s m) || (names m models && is_some (lease_of s m))) ≡ true
      → is_answered now (lease_of (expire_each b now models s w).1 m) ≡ true
  unfolding expire_each
  answered-expire_each [] s w h = ground arith
  answered-expire_each (n ∷ ns) s w h =
      let (verdict, w') = expire_one b n w in
      let t = mark_result n verdict.0 verdict.1 now s in
      let marked_row = lease-mark_result n verdict.0 m verdict.1 now s in
      answered-expire_each ns t w' (elim (Option-cases (lease_of s m)) [
        | inl missing ↦ absurd (ground arith)
        | inr (l, found) ↦ elim (Bool-cases (n == m)) [
          | inl named ↦
              ground
                (arith, marked_row, marked-answered verdict.0 verdict.1 now l (outcome-known b n w))
          | inr other ↦ ground (arith, marked_row)
        ]
      ])

-- What a sweep leaves of the lease of a model, by whether it claimed it.
abbrev pub IsSwept : ℕ → Store → Bool → Store → String → Type 0
IsSwept now s true t m = is_answered now (lease_of t m) ≡ true
IsSwept now s false t m = lease_of t m ≡ lease_of s m

split-IsSwept :
    (now : ℕ) (s : Store) (claimed : Bool) (t : Store) (m : String)
    → (claimed ≡ true → is_answered now (lease_of t m) ≡ true)
    → (claimed ≡ false → lease_of t m ≡ lease_of s m)
    → IsSwept now s claimed t m
split-IsSwept now s true t m h k = h refl
split-IsSwept now s false t m h k = k refl

module _ {W : Type 0} (b : Backend W) where
  -- Whatever the probe and Ollama answer, or fail to answer: after a sweep each lease that it claimed has the
  -- outcome unloaded_confirmed or not_resident_confirmed and no retry, or the outcome deferred, unload_failed
  -- or verification_failed and a retry 15 seconds after the time of the sweep, and each other lease is as
  -- before.
  pub expire_due-settles :
      (now : ℕ) (s : Store) (w : W)
      → IsUnique (λ (l : Lease). l.model) s.leases
      → (m : String) → IsSwept now s (names m (claim_due now s).0) (expire_due b now s w).1 m
  unfolding expire_due
  expire_due-settles now s w u m =
      let (claimed, t) = claim_due now s in
      let (row, listed, _) = claim_due-is_due now s m u in
      split-IsSwept now s (names m claimed) _ m
        (λ h. answered-expire_each b now m claimed t w (elim (Option-cases (lease_of s m)) [
          | inl missing ↦ absurd (ground (arith, listed))
          | inr (l, found) ↦ ground (arith, row, listed)
        ]))
        (λ h. unnamed-expire_each b now m claimed t w h ∙ (elim (Option-cases (lease_of s m)) [
          | inl missing ↦ ground (arith, row)
          | inr (l, found) ↦ ground (arith, row, listed)
        ]))

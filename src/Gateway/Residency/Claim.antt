-- ===== src/Gateway/Residency/Claim.antt =====
-- Which leases `claim_due` of localbench/gateway.py takes.
use localbench.Base.{
  Option, none, leb, is_some, holds, ℕ, String, Bool, true, false, not, ◌&&◌, ◌||◌, some, List, [],
  ◌∷◌, ◌==◌, ◌≡◌, refl, ◌∙◌, any, find, select, update, if◌then◌else◌, arith, eq_iff, any-map,
  any-sort, any-select, find-update_if, on_some, Option-cases, inl, inr, find_sound, IsUnique,
  on_row, any_unique, any_swap,
}
use localbench.Gateway.Store.{Store, Lease, ActiveRequest, busy, lease_of}
use localbench.Gateway.Admission.{unload_pending}
use localbench.Gateway.Residency.{
  is_due, is_settled, due_models, claim, claimable, claim_each, claim_due,
}

abbrev pub names : String → List String → Bool
names m models = any (λ n. n == m) models

names-due_models :
    (now : ℕ) (s : Store) (m : String)
    → names m (due_models now s) ≡ any (λ l. is_due now s l && l.model == m) s.leases
names-due_models now s m =
    any-map (λ n. n == m) (λ l. l.model) _
    ∙ any-sort _ (λ l. l.model == m) (select (is_due now s) s.leases)
    ∙ any-select (λ l. l.model == m) (is_due now s) s.leases

due-idle :
    (now : ℕ) (s : Store) (m : String) (ls : List Lease)
    → any (λ l. is_due now s l && l.model == m) ls ≡ true
    → busy s m ≡ false
due-idle now s m [] h = cc
due-idle now s m (l ∷ ls) h = ground (arith, eq_iff l.model m, due-idle now s m ls)

pub due_models-idle :
    (now : ℕ) (s : Store) (m : String) → names m (due_models now s) ≡ true → busy s m ≡ false
due_models-idle now s m h = due-idle now s m s.leases (rw (names-due_models now s m) at h)

settled-pending : is_settled (some "unload_pending") ≡ true
unfolding is_settled
settled-pending = refl

-- A lease that is pending after the claims was pending before, or is of a named model.
pub pending-claim_each :
    (m : String) (models : List String) (ls : List Lease)
    → unload_pending (find (λ l. l.model == m) (claim_each models ls).1) ≡ true
    → (unload_pending (find (λ l. l.model == m) ls) || names m models) ≡ true
unfolding claim_each
pending-claim_each m [] ls h = ground arith
pending-claim_each m (n ∷ ns) ls h =
    let kept = find-update_if (λ l. l.model) (claimable n) claim m ls (λ l. refl) in
    let later = pending-claim_each m ns (update (claimable n) claim ls) h in
    elim (Option-cases (find (λ l. l.model == m) ls)) [
      | inl none_found ↦ ground (arith, kept, later)
      | inr (l, found) ↦ ground (
        arith,
        kept,
        later,
        eq_iff n m,
        eq_iff l.model m,
        eq_iff l.model n,
        find_sound (λ l. l.model == m) ls l found,
      )
    ]

-- The lease of a model after the claims.
find-claim_each :
    (m : String) (models : List String) (ls : List Lease)
    → find (λ l. l.model == m) (claim_each models ls).1
      ≡ on_some
          (λ l. if names m models && not (is_settled l.last_outcome) then claim l else l)
          (find (λ l. l.model == m) ls)
unfolding claim_each
find-claim_each m [] ls = elim (Option-cases (find (λ l. l.model == m) ls)) [
  | inl missing ↦ ground arith
  | inr (l, found) ↦ ground arith
]
find-claim_each m (n ∷ ns) ls =
    let kept = find-update_if (λ l. l.model) (claimable n) claim m ls (λ l. refl) in
    let later = find-claim_each m ns (update (claimable n) claim ls) in
    elim (Option-cases (find (λ l. l.model == m) ls)) [
      | inl missing ↦ ground (arith, kept, later)
      | inr (l, found) ↦ ground (
        arith,
        kept,
        later,
        eq_iff n m,
        eq_iff l.model m,
        eq_iff l.model n,
        find_sound (λ l. l.model == m) ls l found,
      )
    ]

any-claimable :
    (m n : String) (ls : List Lease)
    → any (claimable m) (update (claimable n) claim ls) ≡ (not (n == m) && any (claimable m) ls)
any-claimable m n [] = ground arith
any-claimable m n (l ∷ ls) =
    ground
      (arith, settled-pending, eq_iff n m, eq_iff l.model m, eq_iff l.model n, any-claimable m n ls)

-- The models that were claimed.
names-claim_each :
    (m : String) (models : List String) (ls : List Lease)
    → names m (claim_each models ls).0 ≡ (names m models && any (claimable m) ls)
unfolding claim_each
names-claim_each m [] ls = refl
names-claim_each m (n ∷ ns) ls =
    ground (
      arith,
      eq_iff n m,
      any-claimable m n ls,
      names-claim_each m ns (update (claimable n) claim ls),
    )

-- A time that is not set, or that has come.
abbrev pub is_past : ℕ → Option ℕ → Bool
is_past now none = true
is_past now (some t) = leb t now

abbrev pub has_no_request : String → List ActiveRequest → Bool
has_no_request m [] = true
has_no_request m (a ∷ active) = not (a.model == m) && has_no_request m active

-- Which leases a sweep may take, condition by condition.
abbrev pub is_unloadable : ℕ → Store → Lease → Bool
is_unloadable now s l =
    (is_some l.idle_expires_at || is_some l.manual_expires_at)
    && (is_past now l.idle_expires_at
        && (is_past now l.manual_expires_at
            && (is_past now l.next_retry_at
                && (not (holds l.last_outcome "unload_pending")
                    && (not (holds l.last_outcome "unloaded_confirmed")
                        && (not (holds l.last_outcome "not_resident_confirmed")
                            && (not (holds l.last_outcome "unmanaged_on_remove")
                                && has_no_request l.model s.active)))))))

busy-no_request :
    (m : String) (active : List ActiveRequest)
    → not (any (λ a. a.model == m) active) ≡ has_no_request m active
busy-no_request m [] = refl
busy-no_request m (a ∷ active) = ground (arith, busy-no_request m active)

due-unloadable : (now : ℕ) (s : Store) (l : Lease) → is_due now s l ≡ is_unloadable now s l
unfolding is_settled
due-unloadable now s l = elim (Option-cases l.idle_expires_at) [
  | inl no_idle ↦ elim (Option-cases l.manual_expires_at) [
    | inl no_manual ↦ ground (arith, no_idle, no_manual)
    | inr (manual, e) ↦ ground (arith, no_idle, e, busy-no_request l.model s.active)
  ]
  | inr (idle, e) ↦ elim (Option-cases l.manual_expires_at) [
    | inl no_manual ↦ ground (arith, e, no_manual, busy-no_request l.model s.active)
    | inr (manual, f) ↦ ground (arith, e, f, busy-no_request l.model s.active)
  ]
]

module _ (now : ℕ) (s : Store) (m : String) (u : IsUnique (λ (l : Lease). l.model) s.leases) where
  names-due :
      names m (due_models now s) ≡ on_row (λ (l : Lease). l.model) (is_due now s) (lease_of s m)
  names-due =
      names-due_models now s m
      ∙ any_swap (is_due now s) (λ l. l.model == m) s.leases
      ∙ any_unique (λ l. l.model) (is_due now s) m s.leases u

  -- A claim in terms of the rows that the query selects.
  pub claim_due-is_due :
      (lease_of (claim_due now s).1 m
        ≡ on_some (λ l. if is_due now s l then claim l else l) (lease_of s m))
      × (names m (claim_due now s).0
          ≡ on_row (λ (l : Lease). l.model) (is_due now s) (lease_of s m))
      × (busy (claim_due now s).1 m ≡ busy s m)
  unfolding claim_due
  claim_due-is_due =
      let claimed =
        any_unique (λ (l : Lease). l.model) (λ l. not (is_settled l.last_outcome)) m s.leases u in
      let found = find-claim_each m (due_models now s) s.leases in
      let listed = names-claim_each m (due_models now s) s.leases in
      elim (Option-cases (lease_of s m)) [
        | inl missing ↦ (ground (arith, found), ground (arith, listed, claimed, names-due), refl)
        | inr (l, e) ↦
            (ground (arith, found, names-due), ground (arith, listed, claimed, names-due), refl)
      ]

  -- A claim takes exactly the leases that have an expiry, of which the idle one, the manual one and the retry
  -- are past where they are set, whose outcome is none of unload_pending, unloaded_confirmed,
  -- not_resident_confirmed and unmanaged_on_remove, and whose model has no admitted request. It marks them as
  -- unload_pending without an error, leaves the other leases and the admitted requests, and returns their
  -- models.
  pub claim_due-exact :
      (lease_of (claim_due now s).1 m
        ≡ on_some
            (λ l.
              if is_unloadable now s l
              then record l { last_outcome = some "unload_pending"; last_error = none }
              else l)
            (lease_of s m))
      × (names m (claim_due now s).0
          ≡ on_row (λ (l : Lease). l.model) (is_unloadable now s) (lease_of s m))
      × (busy (claim_due now s).1 m ≡ busy s m)
  claim_due-exact =
      let (row, listed, same) = claim_due-is_due in
      elim (Option-cases (lease_of s m)) [
        | inl missing ↦ (ground (arith, row), ground (arith, listed), same)
        | inr (l, e) ↦ (
          ground (arith, row, due-unloadable now s l),
          ground (arith, listed, due-unloadable now s l),
          same,
        )
      ]

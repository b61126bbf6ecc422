-- ===== src/Gateway/Safety/Moves.antt =====
-- The other operations of the ledger keep the exclusions.
use localbench.Base.{
  ℕ, String, true, false, Option, some, List, [], ◌∷◌, map, ◌==◌, ◌≡◌, ◌≢◌, refl, ◌⊎◌, false≢true,
  find, update, upsert, arith, eq_iff, any-delete, find-update_key, find-upsert_key, any-update_key,
  Bool-cases, Option-cases, inl, inr,
}
use localbench.Gateway.Store.{Store, Lease, ok, busy, has_fence, lease_of}
use localbench.Gateway.Admission.{unload_pending, release_park_fence, new_lease}
use localbench.Gateway.Completion.{mark_first_byte, answered}
use localbench.Gateway.Residency.{
  set_manual_lease, clear_manual_lease, claim_due, due_models, mark_result, mark_unmanaged, marked,
  not_kept, kept_until, unmanaged, interrupt_each, interrupted,
}
use localbench.Gateway.Residency.Claim.{due_models-idle, pending-claim_each}
use localbench.Gateway.Safety.{IsSafe}

-- The later state has no request, fence or pending unload that the earlier one lacked.
record Shrinks (s t : Store) : Type 0 where
  busy_le : (m : String) → busy t m ≡ true → busy s m ≡ true
  fence_le : (m : String) → has_fence t m ≡ true → has_fence s m ≡ true
  pending_le :
      (m : String) → unload_pending (lease_of t m) ≡ true → unload_pending (lease_of s m) ≡ true

Shrinks-IsSafe : {s t : Store} → Shrinks s t → IsSafe s → IsSafe t
Shrinks-IsSafe {s} {t} k v = record {
  fence_idle = λ m h. ground (arith, k.busy_le m, k.fence_le m h, v.fence_idle m);
  unload_idle = λ m h. ground (arith, k.busy_le m, k.pending_le m h, v.unload_idle m);
}

pub release-IsSafe :
    (fence_id : String) (s : Store) → IsSafe s → IsSafe (release_park_fence fence_id s)
unfolding release_park_fence
release-IsSafe fence_id s v =
    Shrinks-IsSafe
      (record {
        busy_le = λ m h. ground arith;
        fence_le = λ m h.
            ground (arith, any-delete (λ f. f.model == m) (λ f. f.fence_id == fence_id) s.fences);
        pending_le = λ m h. ground arith;
      })
      v

pub first_byte-IsSafe :
    (request_id : String) (now : ℕ) (s : Store)
    → IsSafe s
    → IsSafe (mark_first_byte request_id now s)
unfolding mark_first_byte
first_byte-IsSafe request_id now s v =
    let same = λ (m : String).
      any-update_key (λ a. a.model) (λ a. a.request_id == request_id) (answered now) m s.active
        (λ a. refl) in
    Shrinks-IsSafe
      (record {
        busy_le = λ m h. ground (arith, same m);
        fence_le = λ m h. h;
        pending_le = λ m h. h;
      })
      v

-- An operation that changes leases only, and makes no unload pending.
module _ (s : Store) (leases : List Lease) (v : IsSafe s) where
  leases-IsSafe :
      ((m : String)
        → unload_pending (find (λ l. l.model == m) leases) ≡ true
        → (unload_pending (lease_of s m) ≡ true) ⊎ (busy s m ≡ false))
      → IsSafe (record s { leases = leases })
  leases-IsSafe keep = record {
    fence_idle = v.fence_idle;
    unload_idle = λ m h. ground (arith, keep m h, v.unload_idle m);
  }

pub keep-IsSafe :
    (model : String) (expires_at now : ℕ) (s t : Store)
    → set_manual_lease model expires_at now s ≡ ok t
    → IsSafe s
    → IsSafe t
unfolding set_manual_lease
keep-IsSafe model expires_at now s t e v =
    let kept = kept_until expires_at in
    let leases = upsert (λ l. l.model == model) kept (kept (new_lease model)) s.leases in
    let same : t ≡ record s { leases = leases } = ground arith in
    rw same (
      leases-IsSafe s leases v λ m h. ground (
        arith,
        eq_iff model m,
        find-upsert_key (λ l. l.model) kept (kept (new_lease model)) m s.leases (λ l. refl),
      ))

-- An UPDATE of the lease of one model to an outcome that is not pending.
update-IsSafe :
    (model : String) (f : Lease → Lease) (s : Store)
    → ((l : Lease) → (f l).model ≡ l.model)
    → ((l : Lease) → unload_pending (some (f l)) ≡ true → unload_pending (some l) ≡ true)
    → IsSafe s
    → IsSafe (record s { leases = update (λ l. l.model == model) f s.leases })
update-IsSafe model f s key lower v = leases-IsSafe s _ v λ m h.
    elim (Option-cases (lease_of s m)) [
      | inl missing ↦ ground (arith, find-update_key (λ l. l.model) f model m s.leases key)
      | inr (l, found) ↦
          ground (arith, lower l, find-update_key (λ l. l.model) f model m s.leases key)
    ]

pub clear-IsSafe : (model : String) (s : Store) → IsSafe s → IsSafe (clear_manual_lease model s)
unfolding clear_manual_lease
clear-IsSafe model s v = update-IsSafe model not_kept s (λ l. refl) (λ l h. h) v

pub mark-IsSafe :
    (model outcome : String) (detail : Option String) (now : ℕ) (s : Store)
    → outcome ≢ "unload_pending"
    → IsSafe s
    → IsSafe (mark_result model outcome detail now s)
unfolding mark_result
mark-IsSafe model outcome detail now s other v =
    update-IsSafe model (marked outcome detail now) s (λ l. refl)
      (λ l h. absurd (other ((eq_iff outcome "unload_pending").0 h))) v

pub claim-IsSafe : (now : ℕ) (s : Store) → IsSafe s → IsSafe (claim_due now s).1
unfolding claim_due
claim-IsSafe now s v = leases-IsSafe s _ v λ m h.
    ground (arith, pending-claim_each m (due_models now s) s.leases h, due_models-idle now s m)

unmanaged-none :
    (m : String) (ls : List Lease)
    → unload_pending (find (λ l. l.model == m) (map unmanaged ls)) ≡ false
unmanaged-none m [] = refl
unmanaged-none m (l ∷ ls) = ground (arith, unmanaged-none m ls)

pub unmanage-IsSafe : (s : Store) → IsSafe s → IsSafe (mark_unmanaged s)
unfolding mark_unmanaged
unmanage-IsSafe s v = leases-IsSafe s _ v λ m h. ground (arith, unmanaged-none m s.leases)

pub interrupt_each-IsSafe :
    (now : ℕ) (models : List String) (s : Store) → IsSafe s → IsSafe (interrupt_each now models s)
unfolding interrupt_each
interrupt_each-IsSafe now [] s v = v
interrupt_each-IsSafe now (m ∷ ms) s v = elim (Bool-cases (busy s m)) [
  | inl still ↦ rw still (interrupt_each-IsSafe now ms s v)
  | inr idle ↦ rw idle (
      interrupt_each-IsSafe now ms _
        (update-IsSafe m (interrupted now) s (λ l. refl) (λ l h. absurd (false≢true h)) v))
]

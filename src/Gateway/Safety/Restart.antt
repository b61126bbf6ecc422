-- ===== src/Gateway/Safety/Restart.antt =====
-- Recovery after a restart, and the fences, keep the exclusions.
use localbench.Base.{
  ℕ, String, true, Option, none, some, List, [], ◌∷◌, ◌==◌, ◌≡◌, refl, sorted_set, delete, holds,
  arith, any-delete, find-update_if, Option-cases, inl, inr,
}
use localbench.Gateway.Store.{Store, ActiveRequest, ok, lease_of}
use localbench.Gateway.Admission.{acquire_park_fence, acquire_names}
use localbench.Gateway.Admission.Fences.{acquire-fences_all, acquire-refused}
use localbench.Gateway.Residency.{
  interrupt_each, recover_instance, recover_each, recover_stale, owned_by, models_of, defer_unload,
  other_instances,
}
use localbench.Gateway.Safety.{IsSafe}
use localbench.Gateway.Safety.Moves.{interrupt_each-IsSafe}

drop_instance-IsSafe :
    (id : String) (s : Store)
    → IsSafe s
    → IsSafe (record s { active = delete (owned_by id) s.active })
drop_instance-IsSafe id s v =
    let fewer =
      λ (m : String). any-delete (λ (a : ActiveRequest). a.model == m) (owned_by id) s.active in
    record {
      fence_idle = λ m h. ground (arith, fewer m, v.fence_idle m);
      unload_idle = λ m h. ground (arith, fewer m, v.unload_idle m);
    }

pub recover_instance-IsSafe :
    (id : String) (now n : ℕ) (s t : Store)
    → recover_instance id true now s ≡ ok (n, t)
    → IsSafe s
    → IsSafe t
unfolding recover_instance
recover_instance-IsSafe id now n s t e v =
    let dropped = record s { active = delete (owned_by id) s.active } in
    let same : t ≡ interrupt_each now (models_of id s) dropped = ground arith in
    rw same (interrupt_each-IsSafe now (models_of id s) dropped (drop_instance-IsSafe id s v))

recover_each-IsSafe :
    (now : ℕ) (ids : List String) (s : Store) → IsSafe s → IsSafe (recover_each now ids s).1
unfolding recover_each
recover_each-IsSafe now [] s v = v
recover_each-IsSafe now (id ∷ ids) s v =
    recover_each-IsSafe now ids _
      (interrupt_each-IsSafe now (models_of id s) _ (drop_instance-IsSafe id s v))

pub recover_stale-IsSafe :
    (current : String) (now : ℕ) (s : Store) → IsSafe s → IsSafe (recover_stale current now s).1
unfolding recover_stale
recover_stale-IsSafe current now s v =
    let w = recover_each-IsSafe now (other_instances current s) s v in
    let t = (recover_each now (other_instances current s) s).1 in
    record {
      fence_idle = w.fence_idle;
      unload_idle = λ m h. elim (Option-cases (lease_of t m)) [
        | inl missing ↦ ground (
          arith,
          find-update_if (λ l. l.model) (λ l. holds l.last_outcome "unload_pending")
              (defer_unload now) m t.leases (λ l. refl),
        )
        | inr (l, found) ↦ ground (
          arith,
          find-update_if (λ l. l.model) (λ l. holds l.last_outcome "unload_pending")
              (defer_unload now) m t.leases (λ l. refl),
        )
      ];
    }

-- Apart from the fences an acquisition changes nothing.
pub leases-acquire :
    (names : List String) (fence_id : String) (now : ℕ) (s t : Store) (r : Option String)
    → acquire_names names fence_id now s ≡ ok (r, t)
    → t.leases ≡ s.leases
leases-acquire [] fence_id now s t r e = cc
leases-acquire (n ∷ ns) fence_id now s t r e = ground arith

pub acquire-IsSafe :
    (models : List String) (fence_id : String) (now : ℕ) (s t : Store) (r : Option String)
    → acquire_park_fence models fence_id now s ≡ ok (r, t)
    → IsSafe s
    → IsSafe t
unfolding acquire_park_fence
acquire-IsSafe models fence_id now s t none e v =
    let leases = leases-acquire (sorted_set models) fence_id now s t none e in
    record {
      fence_idle =
          λ m h. ground (arith, acquire-fences_all models fence_id now s t e m, v.fence_idle m);
      unload_idle = λ m h.
          ground (arith, acquire-fences_all models fence_id now s t e m, leases, v.unload_idle m);
    }
acquire-IsSafe models fence_id now s t (some why) e v =
    rw (acquire-refused models fence_id now s t why e).0 v

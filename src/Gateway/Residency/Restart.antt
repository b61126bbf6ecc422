-- ===== src/Gateway/Residency/Restart.antt =====
-- What a restart of the gateway leaves: `recover_stale` of localbench/gateway.py.
use localbench.Base.{
  ℕ, String, false, not, ◌&&◌, List, [], ◌∷◌, ◌==◌, ◌≡◌, refl, ◌∙◌, any, delete, holds, arith,
  any-map, any-sorted_set, find-update_if, any-delete_key, Option-cases, Bool-cases, inl, inr,
}
use localbench.Gateway.Store.{Store, ActiveRequest, busy, lease_of}
use localbench.Gateway.Admission.{unload_pending}
use localbench.Gateway.Residency.{
  owned_by, models_of, other_instances, interrupt_each, recover_each, recover_stale, defer_unload,
}

active-interrupt_each :
    (now : ℕ) (models : List String) (s : Store) → (interrupt_each now models s).active ≡ s.active
unfolding interrupt_each
active-interrupt_each now [] s = refl
active-interrupt_each now (m ∷ ms) s = elim (Bool-cases (busy s m)) [
  | inl still ↦ rw (still, interrupt_each) (active-interrupt_each now ms s)
  | inr idle ↦ rw (idle, interrupt_each) (active-interrupt_each now ms _)
]

owned-recover_each :
    (now : ℕ) (ids : List String) (s : Store) (i : String)
    → any (owned_by i) (recover_each now ids s).1.active
      ≡ (any (owned_by i) s.active && not (any (λ d. d == i) ids))
unfolding recover_each
owned-recover_each now [] s i = ground arith
owned-recover_each now (d ∷ ds) s i =
    let dropped = record s { active = delete (owned_by d) s.active } in
    let t = interrupt_each now (models_of d s) dropped in
    ground (
      arith,
      owned-recover_each now ds t i,
      active-interrupt_each now (models_of d s) dropped,
      any-delete_key (λ (a : ActiveRequest). a.instance_id) d i s.active,
    )

others :
    (current i : String) (s : Store)
    → any (λ d. d == i) (other_instances current s)
      ≡ (any (owned_by i) s.active && not (current == i))
others current i s =
    any-sorted_set (λ d. d == i) _
    ∙ any-map (λ d. d == i) (λ a. a.instance_id) (delete (owned_by current) s.active)
    ∙ any-delete_key (λ (a : ActiveRequest). a.instance_id) current i s.active

-- After a restart the only admitted requests are those of the current instance, which keeps its own, and
-- no unload is in progress.
pub recover_stale-clears :
    (current : String) (now : ℕ) (s : Store) (i m : String)
    → (any (owned_by i) (recover_stale current now s).1.active
        ≡ (any (owned_by i) s.active && current == i))
      × (unload_pending (lease_of (recover_stale current now s).1 m) ≡ false)
unfolding recover_stale
recover_stale-clears current now s i m =
    let ids = other_instances current s in
    let t = (recover_each now ids s).1 in
    let pending =
      find-update_if (λ l. l.model) (λ l. holds l.last_outcome "unload_pending") (defer_unload now)
        m t.leases (λ l. refl) in
    (
      ground (arith, owned-recover_each now ids s i, others current i s),
      elim (Option-cases (lease_of t m)) [
        | inl missing ↦ ground (arith, pending)
        | inr (l, found) ↦ ground (arith, pending)
      ],
    )

-- ===== src/Gateway/Handler/Rows.antt =====
-- The rows that `_send_upstream` of localbench/gateway.py puts in the ledger and takes out again.
use localbench.Base.{
  is_space, ℕ, String, Bool, true, false, not, Option, none, some, List, [], ◌∷◌, ◌≡◌, refl, arith,
  any, delete, select-append, delete-none, append-nil, any-append, eq_refl, remove_prefix,
  Bool-cases, inl, inr, all_codes, ◌==◌, Option-cases, ◌∙◌, ap,
}
use localbench.Gateway.Store.{Store, Result, ok, err, ActiveRequest, message}
use localbench.Gateway.Admission.{Request, start_request, new_request}
use localbench.Gateway.Admission.Start.{start-eq, start-fresh_id}
use localbench.Gateway.Completion.{Ending, finish_request, refuse_request}
use localbench.Gateway.Completion.Reconcile.{has_id, active-finish_request}
use localbench.Gateway.Routes.{Route, auxiliary_purpose}
use localbench.Gateway.Handler.{
  Server, Payload, Call, Ticket, Reply, forwarded, answered, crashed, started, admit_request,
  handle_clef, handle_auxiliary, handle_model, handle_payload, handle, complete, release_slots,
  acquire_aux, acquire_clef, is_gateway_error, slots_of, clef_request, model_request, finish_ledger,
  record_refusal,
}

-- The ledger's admitted requests beside the row of a ticket.
abbrev Others : Option String → List ActiveRequest → List ActiveRequest → Type 0
Others none before after = after ≡ before
Others (some id) before after = (delete (has_id id) after ≡ before) × (any (has_id id) after ≡ true)

abbrev KeepsRows : Store → Reply × Server → Type 0
KeepsRows s (forwarded tk, t) = Others tk.request_id s.active t.store.active
KeepsRows s (answered status text, t) = t.store.active ≡ s.active
KeepsRows s (crashed e, t) = t.store.active ≡ s.active

active-refusal :
    (c : Call) (profile model purpose reason : String) (s : Server)
    → (record_refusal c profile model purpose reason s).store.active ≡ s.store.active
unfolding refuse_request
active-refusal c profile model purpose reason s = ground arith

started-rows :
    (c : Call) (r : Request) (tk : Ticket) (s : Server) (res : Result Store)
    → start_request r c.request_id c.instance_id c.pid c.started_at s.store ≡ res
    → KeepsRows s.store (started c r tk res s)
started-rows c r tk s (ok t) h =
    let row = new_request r c.request_id c.instance_id c.pid c.started_at in
    let eq = start-eq r c.request_id c.instance_id c.pid c.started_at s.store h in
    let unused = start-fresh_id r c.request_id c.instance_id c.pid c.started_at s.store h in
    (
      ground (
        arith,
        eq,
        select-append (λ a. not (has_id c.request_id a)) s.store.active (row ∷ []),
        delete-none (has_id c.request_id) s.store.active unused,
        eq_refl c.request_id,
        append-nil s.store.active,
      ),
      ground (
        arith,
        eq,
        any-append (has_id c.request_id) s.store.active (row ∷ []),
        eq_refl c.request_id,
      ),
    )
started-rows c r tk s (err e) h = elim (Bool-cases (is_gateway_error e)) [
  | inl caught ↦
      rw caught (ground (arith, active-refusal c r.profile r.model r.purpose (message e) s))
  | inr other ↦ rw other refl
]

admit-rows :
    (c : Call) (r : Request) (tk : Ticket) (s : Server) (before : Store)
    → s.store ≡ before
    → KeepsRows before (admit_request c r tk s)
unfolding admit_request
admit-rows c r tk s before same = rw (← same) (started-rows c r tk s _ refl)

store-acquire_clef : (s : Server) → (acquire_clef s).1.store ≡ s.store
store-acquire_clef s = ground arith

store-acquire_aux : (s : Server) → (acquire_aux s).1.store ≡ s.store
store-acquire_aux s = ground arith

clef-rows : (c : Call) (route : Route) (s : Server) → KeepsRows s.store (handle_clef c route s)
unfolding handle_clef
clef-rows c route s = elim (Bool-cases (acquire_clef s).0) [
  | inl free ↦
      rw free
        (admit-rows c (clef_request route) (slots_of false true) _ s.store (store-acquire_clef s))
  | inr none_free ↦
      rw none_free
        (active-refusal c _ _ _ _ (acquire_clef s).1 ∙ ap (λ u. u.active) (store-acquire_clef s))
]

auxiliary-rows : (c : Call) (r : Request) (s : Server) → KeepsRows s.store (handle_auxiliary c r s)
unfolding handle_auxiliary
auxiliary-rows c r s = elim (Bool-cases (acquire_aux s).0) [
  | inl free ↦ rw free (admit-rows c r (slots_of true false) _ s.store (store-acquire_aux s))
  | inr none_free ↦
      rw none_free
        (active-refusal c _ _ _ _ (acquire_aux s).1 ∙ ap (λ u. u.active) (store-acquire_aux s))
]

model-rows : (c : Call) (r : Request) (s : Server) → KeepsRows s.store (handle_model c r s)
model-rows c r s = elim (Bool-cases (auxiliary_purpose r.purpose)) [
  | inl auxiliary ↦ rw auxiliary (auxiliary-rows c r s)
  | inr main ↦ rw main (admit-rows c r (slots_of false false) s s.store refl)
]

payload-rows :
    (c : Call) (route : Route) (payload : Option Payload) (s : Server)
    → KeepsRows s.store (handle_payload c route payload s)
payload-rows c route none s = refl
payload-rows c route (some p) s = elim (Bool-cases (route.upstream == "clef")) [
  | inl clef ↦ rw clef (clef-rows c route s)
  | inr ollama ↦ rw ollama (elim (Option-cases p.model) [
    | inl missing ↦ rw missing refl
    | inr (m, named) ↦
        rw named (elim (Bool-cases (all_codes is_space (remove_prefix "ollama/" m))) [
          | inl blank ↦ rw blank refl
          | inr some_model ↦
              rw some_model
                (model-rows c (model_request route c (remove_prefix "ollama/" m) p.purpose) s)
        ])
  ])
]

handle-rows :
    (c : Call) (route : Route) (payload : Option Payload) (s : Server)
    → KeepsRows s.store (handle c route payload s)
unfolding handle
handle-rows c route payload s = elim (Bool-cases (route.kind == "inference")) [
  | inl inference ↦ rw inference (payload-rows c route payload s)
  | inr discovery ↦ rw discovery refl
]

store-release : (tk : Ticket) (s : Server) → (release_slots tk s).store ≡ s.store
store-release tk s = ground arith

finished-rows :
    (vacuumed : Bool) (o : Option String) (e : Ending) (now : ℕ) (s t : Server)
    (before : List ActiveRequest)
    → Others o before s.store.active
    → finish_ledger vacuumed o e now s ≡ (ok tt, t)
    → t.store.active ≡ before
finished-rows vacuumed none e now s t before k h = ground arith
finished-rows vacuumed (some id) e now s t before k h =
    let u = finish_request vacuumed id e now s.store in
    let gone = active-finish_request vacuumed id e now s.store u.1 (ground arith) in
    ground (arith, gone, k)

module _ (c : Call) (route : Route) (payload : Option Payload) (s : Server) where
  -- A request that is forwarded and then ends, with nothing between, leaves the ledger with the admitted
  -- requests that it had before, unless the end itself raises.
  pub complete-handle :
      (tk : Ticket) (t u : Server) (vacuumed : Bool) (e : Ending) (now : ℕ)
      → handle c route payload s ≡ (forwarded tk, t)
      → complete vacuumed tk e now t ≡ (ok tt, u)
      → u.store.active ≡ s.store.active
  unfolding complete
  complete-handle tk t u vacuumed e now h done =
      let kept : KeepsRows s.store (forwarded tk, t) = rw h at (handle-rows c route payload s) in
      finished-rows vacuumed tk.request_id e now (release_slots tk t) u s.store.active
        (rw (store-release tk t) kept) done

  -- A request that is answered at once, with an error, leaves no admitted request behind.
  pub answered-rows :
      (status : ℕ) (text : String) (t : Server)
      → handle c route payload s ≡ (answered status text, t)
      → t.store.active ≡ s.store.active
  answered-rows status text t h = rw h at (handle-rows c route payload s)

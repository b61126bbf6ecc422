-- ===== src/Gateway/Handler/Slots.antt =====
-- The concurrency slots of localbench/gateway.py over a request: what `_send_upstream` takes, it gives back
-- when the transfer has ended, and what it does with them where the ledger refuses.
use localbench.Base.{
  is_space, ℕ, ◌-◌, ◌≤◌, ◌<◌, String, Bool, true, false, Option, none, some, ◌≡◌, refl, arith,
  remove_prefix, Bool-cases, inl, inr, all_codes, ◌==◌, Option-cases, ◌∙◌,
}
use localbench.Gateway.Store.{Store, Error, Result, ok, err, message}
use localbench.Gateway.Admission.{Request, start_request}
use localbench.Gateway.Completion.{Ending}
use localbench.Gateway.Routes.{Route, auxiliary_purpose}
use localbench.Gateway.Handler.{
  Server, Payload, Call, Ticket, Reply, forwarded, answered, crashed, started, admit_request,
  handle_clef, handle_auxiliary, handle_model, handle_payload, handle, complete, release_slots,
  acquire_aux, acquire_clef, clef_concurrency, is_gateway_error, slots_of, release_to, clef_request,
  model_request, finish_ledger, refusal_message,
}

-- No more slots are free than there are.
pub record AreBounded (s : Server) : Type 0 where
  pub aux_bounded : s.aux_free ≤ s.aux_cap
  pub clef_bounded : s.clef_free ≤ clef_concurrency

-- The free slots of the two kinds once a ticket is given back.
abbrev aux_back : Ticket → Server → ℕ
aux_back tk s = (release_slots tk s).aux_free

abbrev clef_back : Ticket → Server → ℕ
clef_back tk s = (release_slots tk s).clef_free

-- What a reply leaves of the slots that `s` had before the request took its own.
abbrev KeepsSlots : Server → Reply × Server → Type 0
KeepsSlots s (forwarded tk, t) = (aux_back tk t ≡ s.aux_free) × (clef_back tk t ≡ s.clef_free)
KeepsSlots s (answered status text, t) = t.clef_free ≡ s.clef_free
KeepsSlots s (crashed e, t) = Unit

-- `t` is `s` less the slots of the ticket.
abbrev Took : Server → Ticket → Server → Type 0
Took s tk t =
    (aux_back tk t ≡ s.aux_free)
    × (clef_back tk t ≡ s.clef_free)
    × (tk.clef_slot ≡ false → t.clef_free ≡ s.clef_free)
    × (tk.clef_slot ≡ true → release_to clef_concurrency t.clef_free ≡ s.clef_free)

started-slots :
    (c : Call) (r : Request) (tk : Ticket) (res : Result Store) (s t : Server)
    → Took s tk t
    → KeepsSlots s (started c r tk res t)
started-slots c r tk (ok store) s t k = (ground arith, ground arith)
started-slots c r tk (err e) s t k = elim (Bool-cases (is_gateway_error e)) [
  | inl caught ↦ rw caught (ground arith)
  | inr other ↦ rw other tt
]

admit-slots :
    (c : Call) (r : Request) (tk : Ticket) (s t : Server)
    → Took s tk t
    → KeepsSlots s (admit_request c r tk t)
unfolding admit_request
admit-slots c r tk s t k =
    started-slots c r tk (start_request r c.request_id c.instance_id c.pid c.started_at t.store) s t
      k

slots-Took : (s : Server) → Took s (slots_of false false) s
slots-Took s = (refl, refl, λ h. refl, λ h. cc)

acquire_clef-Took :
    (s : Server)
    → AreBounded s
    → (acquire_clef s).0 ≡ true
    → Took s (slots_of false true) (acquire_clef s).1
acquire_clef-Took s v h =
    let b = v.clef_bounded in (ground arith, ground arith, ground arith, ground arith)

acquire_aux-Took :
    (s : Server)
    → AreBounded s
    → (acquire_aux s).0 ≡ true
    → Took s (slots_of true false) (acquire_aux s).1
acquire_aux-Took s v h =
    let b = v.aux_bounded in (ground arith, ground arith, ground arith, ground arith)

clef-slots :
    (c : Call) (route : Route) (s : Server) → AreBounded s → KeepsSlots s (handle_clef c route s)
unfolding handle_clef
clef-slots c route s v = elim (Bool-cases (acquire_clef s).0) [
  | inl free ↦
      rw free
        (admit-slots c (clef_request route) (slots_of false true) s _ (acquire_clef-Took s v free))
  | inr none_free ↦ rw none_free (ground arith)
]

auxiliary-slots :
    (c : Call) (r : Request) (s : Server) → AreBounded s → KeepsSlots s (handle_auxiliary c r s)
unfolding handle_auxiliary
auxiliary-slots c r s v = elim (Bool-cases (acquire_aux s).0) [
  | inl free ↦ rw free (admit-slots c r (slots_of true false) s _ (acquire_aux-Took s v free))
  | inr none_free ↦ rw none_free (ground arith)
]

model-slots :
    (c : Call) (r : Request) (s : Server) → AreBounded s → KeepsSlots s (handle_model c r s)
model-slots c r s v = elim (Bool-cases (auxiliary_purpose r.purpose)) [
  | inl auxiliary ↦ rw auxiliary (auxiliary-slots c r s v)
  | inr main ↦ rw main (admit-slots c r (slots_of false false) s s (slots-Took s))
]

payload-slots :
    (c : Call) (route : Route) (payload : Option Payload) (s : Server)
    → AreBounded s
    → KeepsSlots s (handle_payload c route payload s)
payload-slots c route none s v = refl
payload-slots c route (some p) s v = elim (Bool-cases (route.upstream == "clef")) [
  | inl clef ↦ rw clef (clef-slots c route s v)
  | inr ollama ↦ rw ollama (elim (Option-cases p.model) [
    | inl missing ↦ rw missing refl
    | inr (m, named) ↦
        rw named (elim (Bool-cases (all_codes is_space (remove_prefix "ollama/" m))) [
          | inl blank ↦ rw blank refl
          | inr some_model ↦
              rw some_model
                (model-slots c (model_request route c (remove_prefix "ollama/" m) p.purpose) s v)
        ])
  ])
]

handle-slots :
    (c : Call) (route : Route) (payload : Option Payload) (s : Server)
    → AreBounded s
    → KeepsSlots s (handle c route payload s)
unfolding handle
handle-slots c route payload s v = elim (Bool-cases (route.kind == "inference")) [
  | inl inference ↦ rw inference (payload-slots c route payload s v)
  | inr discovery ↦ rw discovery (refl, refl)
]

finish-slots :
    (vacuumed : Bool) (o : Option String) (e : Ending) (now : ℕ) (s : Server)
    → ((finish_ledger vacuumed o e now s).1.aux_free ≡ s.aux_free)
      × ((finish_ledger vacuumed o e now s).1.clef_free ≡ s.clef_free)
finish-slots vacuumed none e now s = (refl, refl)
finish-slots vacuumed (some id) e now s = (refl, refl)

module _ (c : Call) (route : Route) (payload : Option Payload) (s : Server) (v : AreBounded s) where
  -- When a forwarded request ends, in whatever way, as many slots of both kinds are free as before it came.
  pub handle-complete :
      (tk : Ticket) (t : Server) (vacuumed : Bool) (e : Ending) (now : ℕ)
      → handle c route payload s ≡ (forwarded tk, t)
      → ((complete vacuumed tk e now t).1.aux_free ≡ s.aux_free)
        × ((complete vacuumed tk e now t).1.clef_free ≡ s.clef_free)
  unfolding complete
  handle-complete tk t vacuumed e now h =
      let kept : KeepsSlots s (forwarded tk, t) = rw h at (handle-slots c route payload s v) in
      let ended = finish-slots vacuumed tk.request_id e now (release_slots tk t) in
      (ended.0 ∙ kept.0, ended.1 ∙ kept.1)

  -- A request that is answered at once leaves no slot of the external server taken.
  pub handle-answered :
      (status : ℕ) (text : String) (t : Server)
      → handle c route payload s ≡ (answered status text, t)
      → t.clef_free ≡ s.clef_free
  handle-answered status text t h = rw h at (handle-slots c route payload s v)

-- An auxiliary request that takes a slot and that the ledger then refuses (a drain, a fence, a pending
-- unload, an unknown profile, a bad name) is answered with 503, and its slot is not given back.
pub auxiliary-loses_slot :
    (c : Call) (r : Request) (s : Server) (e : Error)
    → auxiliary_purpose r.purpose ≡ true
    → 0 < s.aux_cap
    → 0 < s.aux_free
    → start_request r c.request_id c.instance_id c.pid c.started_at s.store ≡ err e
    → is_gateway_error e ≡ true
    → ((handle_model c r s).0 ≡ answered 503 (refusal_message (message e)))
      × ((handle_model c r s).1.aux_free ≡ s.aux_free - 1)
unfolding handle_auxiliary admit_request
auxiliary-loses_slot c r s e auxiliary capped free refused caught =
    rw auxiliary (ground (arith, refused, caught))

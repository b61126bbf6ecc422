-- ===== src/Gateway/Handler.antt =====
-- `GatewayRequestHandler._send_upstream` of localbench/gateway.py: the admission of a request with the two
-- concurrency caps of `GatewayHTTPServer`, and what is done when its transfer has ended.
pub mod Slots
pub mod Rows
use text.Mathlib.Text.{find?}
use localbench.Base.{
  is_space, ℕ, suc, ◌-◌, String, Bool, true, false, not, ◌&&◌, ◌||◌, Option, none, some, List, [],
  ◌∷◌, ◌==◌, ltb, eqb, concat, if◌then◌else◌, is_some, or_text, remove_prefix, all_codes, leb,
}
use localbench.Gateway.Store.{Store, Error, integrity, message, Result, ok, err, clef_profile}
use localbench.Gateway.Admission.{Request, start_request}
use localbench.Gateway.Completion.{Ending, finish_request, refuse_request}
use localbench.Gateway.Routes.{Route, auxiliary_purpose}
use localbench.Gateway.Relay.{Chunk, relay_stream, relay_completed, relay_outcome}

-- An `aux_cap` of 0 is no cap: there is no semaphore then.
pub record Server : Type 0 where
  pub store : Store
  pub aux_cap : ℕ
  pub aux_free : ℕ
  pub clef_free : ℕ

abbrev pub clef_concurrency : ℕ
clef_concurrency = 2

abbrev pub clef_model : String
clef_model = "clef-flash"

abbrev pub acquire_aux : Server → Bool × Server
acquire_aux s =
    if eqb s.aux_cap 0
    then (true, s)
    else if ltb 0 s.aux_free
    then (true, record s { aux_free = s.aux_free - 1 })
    else (false, s)

abbrev pub acquire_clef : Server → Bool × Server
acquire_clef s =
    if ltb 0 s.clef_free then (true, record s { clef_free = s.clef_free - 1 }) else (false, s)

-- A release above the cap raises ValueError, and leaves the count.
abbrev release_to : ℕ → ℕ → ℕ
release_to cap free = if ltb free cap then suc free else free

abbrev pub release_aux : Server → Server
release_aux s = record s {
  aux_free = if eqb s.aux_cap 0 then s.aux_free else release_to s.aux_cap s.aux_free;
}

abbrev pub release_clef : Server → Server
release_clef s = record s { clef_free = release_to clef_concurrency s.clef_free }

-- What the handler reads of a JSON body: the model, where it is a text of an object, and the purpose that
-- `request_purpose` finds in it.
pub record Payload : Type 0 where
  pub model : Option String
  pub purpose : String

-- What a call takes from outside: two fresh ids, the identity of the process, and the times.
pub record Call : Type 0 where
  pub request_id : String
  pub refusal_id : String
  pub instance_id : String
  pub pid : ℕ
  pub started_at : ℕ
  pub refused_at : ℕ
  pub feature_header : String

-- The slots and the ledger row that a forwarded request holds; discovery holds none.
pub record Ticket : Type 0 where
  pub request_id : Option String
  pub aux_slot : Bool
  pub clef_slot : Bool

pub data Reply : Type 0 where
  forwarded : Ticket → Reply
  answered : ℕ → String → Reply
  crashed : Error → Reply

abbrev mentions : String → String → Bool
mentions reason text = is_some (find? reason text)

abbrev pub refusal_message : String → String
refusal_message reason =
    if mentions reason "draining"
    then "gateway is draining and will not accept new requests"
    else if mentions reason "fenced"
    then "model is fenced at the gateway (park or an agreed window); retry after it is released"
    else if mentions reason "not registered"
    then "OMP profile is not registered with the residency gateway"
    else reason

-- A refusal that cannot be recorded is dropped.
abbrev recorded : Store → Result Store → Store
recorded s (ok t) = t
recorded s (err e) = s

abbrev pub record_refusal : Call → String → String → String → String → Server → Server
record_refusal c profile model purpose reason s = record s {
  store =
      recorded s.store
        (refuse_request c.refusal_id profile model purpose reason c.refused_at s.store);
}

-- Only a `GatewayError` is caught.
abbrev pub is_gateway_error : Error → Bool
is_gateway_error integrity = false
is_gateway_error _ = true

-- The handler of a `GatewayError`: the clef slot is released.
abbrev refused_start : Call → Request → Ticket → Error → Server → Reply × Server
refused_start c r slots e s =
    let t = record_refusal c r.profile r.model r.purpose (message e) s in
    (answered 503 (refusal_message (message e)), if slots.clef_slot then release_clef t else t)

abbrev pub started : Call → Request → Ticket → Result Store → Server → Reply × Server
started c r slots (ok store) s =
    (forwarded (record slots { request_id = some c.request_id }), record s { store = store })
started c r slots (err e) s =
    if is_gateway_error e then refused_start c r slots e s else (crashed e, s)

-- From `start_request` on, with the slots that the request holds.
unfoldable pub admit_request : Call → Request → Ticket → Server → Reply × Server
admit_request c r slots s =
    started c r slots (start_request r c.request_id c.instance_id c.pid c.started_at s.store) s

abbrev slots_of : Bool → Bool → Ticket
slots_of aux clef = record { request_id = none; aux_slot = aux; clef_slot = clef }

abbrev clef_request : Route → Request
clef_request route = record {
  profile = clef_profile;
  model = clef_model;
  purpose = route.feature;
  feature = route.feature;
}

unfoldable pub handle_clef : Call → Route → Server → Reply × Server
unfolding admit_request
handle_clef c route s =
    let (slot, t) = acquire_clef s in
    if slot then admit_request c (clef_request route) (slots_of false true) t else (
      answered 503 "clef-flash already has 2 calls in flight",
      record_refusal c clef_profile clef_model route.feature "clef-flash concurrency cap reached" t,
    )

abbrev profile_of : Route → String
profile_of route = elim route.profile [ none ↦ "" | some p ↦ p ]

abbrev model_request : Route → Call → String → String → Request
model_request route c model purpose = record {
  profile = profile_of route;
  model = model;
  purpose = purpose;
  feature = c.feature_header;
}

unfoldable pub handle_auxiliary : Call → Request → Server → Reply × Server
unfolding admit_request
handle_auxiliary c r s =
    let (slot, t) = acquire_aux s in
    if slot then admit_request c r (slots_of true false) t else (
      answered 503 "auxiliary concurrency cap reached",
      record_refusal c r.profile r.model r.purpose "auxiliary concurrency cap reached" t,
    )

abbrev pub handle_model : Call → Request → Server → Reply × Server
handle_model c r s =
    if auxiliary_purpose r.purpose
    then handle_auxiliary c r s
    else admit_request c r (slots_of false false) s

abbrev pub handle_named : Call → Route → String → String → Server → Reply × Server
handle_named c route model purpose s =
    if all_codes is_space model
    then (answered 400 "inference request must contain a non-empty model field", s)
    else handle_model c (model_request route c model purpose) s

abbrev pub handle_payload : Call → Route → Option Payload → Server → Reply × Server
handle_payload c route none s = (
  answered 400 (
      if route.upstream == "clef"
      then "clef-flash request body must be JSON"
      else "inference request must contain a JSON model field"),
  s,
)
handle_payload c route (some p) s =
    if route.upstream == "clef" then handle_clef c route s else elim p.model [
      | none ↦ (answered 400 "inference request must contain a non-empty model field", s)
      | some m ↦ handle_named c route (remove_prefix "ollama/" m) p.purpose s
    ]

-- `payload` is `none` where the body is not JSON.
unfoldable pub handle : Call → Route → Option Payload → Server → Reply × Server
unfolding handle_clef handle_auxiliary admit_request auxiliary_purpose
handle c route payload s =
    if route.kind == "inference"
    then handle_payload c route payload s
    else (forwarded (slots_of false false), s)

-- How the relay ended: with the response, with a lost connection, or with another exception.
pub data Close : Type 0 where
  finished disconnected interrupted : Close

abbrev pub ending_of : Bool → List Chunk → Close → Ending
ending_of stream chunks finished =
    let completed = relay_completed stream chunks in
    record { completed = completed; outcome = relay_outcome completed; abandon_reason = none }
ending_of stream chunks disconnected = record {
  completed = stream && relay_stream false [] chunks;
  outcome = "client_or_upstream_disconnected";
  abandon_reason = none;
}
ending_of stream chunks interrupted = record {
  completed = stream && relay_stream false [] chunks;
  outcome = "interrupted";
  abandon_reason = none;
}

abbrev pub release_slots : Ticket → Server → Server
release_slots t s =
    let after_aux = if t.aux_slot then release_aux s else s in
    if t.clef_slot then release_clef after_aux else after_aux

abbrev pub finish_ledger : Bool → Option String → Ending → ℕ → Server → Result (Unit {0}) × Server
finish_ledger vacuumed none e now s = (ok tt, s)
finish_ledger vacuumed (some id) e now s =
    let (r, store) = finish_request vacuumed id e now s.store in (r, record s { store = store })

-- The `finally` blocks.
unfoldable pub complete : Bool → Ticket → Ending → ℕ → Server → Result (Unit {0}) × Server
complete vacuumed t e now s = finish_ledger vacuumed t.request_id e now (release_slots t s)

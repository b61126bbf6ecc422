-- ===== src/Tests/Requests.antt =====
-- Requests through the gateway of localbench/gateway.py: routes, relays and the handler on small inputs.
use localbench.Base.{
  String, true, false, Option, none, some, List, [], ◌∷◌, ◌≡◌, refl, arith, ◌*◌, bytes, is_infix,
  is_prefix, last, strip_prefix, remove_suffix, split_slash, join_slash, has_code, all_codes,
}
use localbench.Gateway.Store.{
  fresh, second, Store, ok, err, fenced, has_nul, is_bad_name, is_bad_label, message,
}
use localbench.Gateway.Admission.{start_request, accepting}
use localbench.Gateway.Completion.{
  Ending, finish_request, finish_row, vacuum, evict_requests, evict_over, refuse_request,
}
use localbench.Gateway.Routes.{
  Route, routed, refused, plain, route_request, clef_route, is_clef_name, endpoint_route,
  is_bad_profile, auxiliary_purpose, capture_matches, inference,
}
use localbench.Gateway.Routes.Closed.{is_closed, route_request-closed}
use localbench.Gateway.Relay.{Chunk, has_terminal, relay_completed, relay_stream}
use localbench.Gateway.Relay.Chunks.{relay-joined, joined}
use localbench.Gateway.Handler.{
  Server, Payload, Call, Ticket, Reply, forwarded, answered, handle, handle_model, complete,
  handle_auxiliary, admit_request,
}
use localbench.Gateway.Handler.Slots.{AreBounded, handle-complete, auxiliary-loses_slot}
use localbench.Gateway.Handler.Rows.{complete-handle}
use localbench.Gateway.Admission.{Request}

-- Paths without a percent sign decode to themselves.
abbrev decoded : String → Option String
decoded text = some text

route_run :
    route_request decoded "POST" "/omp-profile/main/v1/chat/completions" ("main" ∷ [])
    ≡ routed (inference "main" "chat/completions")
unfolding route_request strip_prefix split_slash join_slash is_bad_profile has_code endpoint_route
route_run = refl

clef_run :
    clef_route "POST" "Wrong/v1/systemone"
    ≡ refused 400 "clef-flash route must be 1-64 characters of [a-z0-9-]"
unfolding clef_route remove_suffix is_clef_name all_codes
clef_run = refl

capture_run : capture_matches ("decision" ∷ []) "decision:effort" ≡ true
unfolding capture_matches strip_prefix
capture_run = refl

route_request-closed_example :
    is_closed "POST"
      ("main" ∷ [])
      (route_request decoded "POST" "/omp-profile/main/v1/responses" ("main" ∷ []))
    ≡ true
route_request-closed_example =
    route_request-closed "POST" ("main" ∷ []) decoded "/omp-profile/main/v1/responses"

abbrev cut_stream : List Chunk
cut_stream = bytes "data: 1 data: [DO" ∷ bytes "NE]" ∷ []

relay_run : relay_completed true cut_stream ≡ true
unfolding relay_completed relay_stream is_infix is_prefix last
relay_run = refl

relay-joined_example : relay_completed true cut_stream ≡ has_terminal (joined cut_stream)
relay-joined_example = relay-joined cut_stream

abbrev server : Server
server = record { store = fresh; aux_cap = 1; aux_free = 1; clef_free = 2 }

bounded : AreBounded server
bounded = record { aux_bounded = omega arith; clef_bounded = omega arith }

abbrev call : Call
call = record {
  request_id = "r1";
  refusal_id = "r2";
  instance_id = "g1";
  pid = 7;
  started_at = 10 * second;
  refused_at = 10 * second;
  feature_header = "";
}

abbrev loopback : Route
loopback = plain "inference" (some "/v1/systemone")

abbrev title : Payload
title = record { model = some "ollama/qwen"; purpose = "title" }

abbrev draining : Server
draining = record server { store = record fresh { accepting_value = some "0" } }

abbrev reply : Reply × Server
reply = handle call loopback (some title) server

abbrev ticket : Ticket
ticket = record { request_id = some "r1"; aux_slot = true; clef_slot = false }

forward_run : reply ≡ (forwarded ticket, reply.1)
unfolding handle handle_auxiliary admit_request auxiliary_purpose strip_prefix all_codes
    start_request accepting is_bad_name is_bad_label has_nul
forward_run = refl

abbrev ended : Ending
ended = record { completed = true; outcome = "completed"; abandon_reason = none }

handle-complete_example :
    ((complete false ticket ended (12 * second) reply.1).1.aux_free ≡ 1)
    × ((complete false ticket ended (12 * second) reply.1).1.clef_free ≡ 2)
handle-complete_example =
    handle-complete call loopback (some title) server bounded ticket reply.1 false ended
      (12 * second) forward_run

abbrev after_end : Server
after_end = (complete false ticket ended (12 * second) reply.1).1

complete_run : complete false ticket ended (12 * second) reply.1 ≡ (ok tt, after_end)
unfolding complete handle handle_auxiliary admit_request auxiliary_purpose strip_prefix all_codes
    start_request accepting is_bad_name is_bad_label has_nul finish_request finish_row vacuum
    evict_requests evict_over
complete_run = refl

complete-handle_example : after_end.store.active ≡ fresh.active
complete-handle_example =
    complete-handle call loopback (some title) server ticket reply.1 after_end false ended
      (12 * second) forward_run complete_run

abbrev turned_away : Reply × Server
turned_away = handle call loopback (some title) draining

abbrev away_text : String
away_text = "gateway is draining and will not accept new requests"

away_run : turned_away ≡ (answered 503 away_text, turned_away.1)
unfolding handle handle_auxiliary admit_request auxiliary_purpose strip_prefix all_codes
    start_request accepting is_bad_name is_bad_label has_nul refuse_request
away_run = refl

away_bounded : AreBounded draining
away_bounded = record { aux_bounded = omega arith; clef_bounded = omega arith }

abbrev title_request : Request
title_request = record { profile = ""; model = "qwen"; purpose = "title"; feature = "" }

is_auxiliary : auxiliary_purpose "title" ≡ true
unfolding auxiliary_purpose strip_prefix
is_auxiliary = refl

drain_run :
    start_request title_request "r1" "g1" 7 (10 * second) draining.store
    ≡ err localbench.Gateway.Store.draining
unfolding start_request accepting is_bad_name is_bad_label has_nul
drain_run = refl

auxiliary-loses_slot_example :
    ((handle_model call title_request draining).0 ≡ answered 503 away_text)
    × ((handle_model call title_request draining).1.aux_free ≡ 0)
auxiliary-loses_slot_example =
    auxiliary-loses_slot call title_request draining localbench.Gateway.Store.draining is_auxiliary
      (omega arith) (omega arith) drain_run refl

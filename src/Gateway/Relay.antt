-- ===== src/Gateway/Relay.antt =====
-- The relay of a response in `GatewayRequestHandler._send_upstream` of localbench/gateway.py: the loop
-- over the chunks, which decides whether a stream has completed.
pub mod Chunks
use localbench.Base.{
  ℕ, String, Bool, true, false, ◌||◌, List, [], ◌∷◌, ◌++◌, any, bytes, is_infix, last,
  if◌then◌else◌,
}

abbrev pub Chunk : Type 0
Chunk = List ℕ

-- What ends a stream of events.
abbrev pub terminals : List Chunk
terminals =
    bytes "data: [DONE]"
    ∷ bytes "response.completed"
    ∷ bytes "response.failed"
    ∷ bytes "response.incomplete"
    ∷ []

abbrev pub has_terminal : Chunk → Bool
has_terminal sample = any (λ m. is_infix m sample) terminals

abbrev pub tail_bytes : ℕ
tail_bytes = 128

-- The loop of a stream: each chunk is searched together with the last bytes before it.
unfoldable pub relay_stream : Bool → Chunk → List Chunk → Bool
relay_stream completed terminal_tail [] = completed
relay_stream completed terminal_tail (chunk ∷ chunks) =
    let sample = terminal_tail ++ chunk in
    relay_stream (completed || has_terminal sample) (last tail_bytes sample) chunks

-- A response that is not a stream is complete when it ends.
unfoldable pub relay_completed : Bool → List Chunk → Bool
unfolding relay_stream
relay_completed stream chunks = if stream then relay_stream false [] chunks else true

abbrev pub relay_outcome : Bool → String
relay_outcome completed = if completed then "completed" else "stream_ended_without_terminal_event"

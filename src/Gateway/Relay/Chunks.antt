-- ===== src/Gateway/Relay/Chunks.antt =====
-- The relay of localbench/gateway.py does not depend on how a response is cut into chunks.
use localbench.Base.{
  suc, ◌≤◌, ◌<◌, true, ◌||◌, List, [], ◌∷◌, ◌++◌, ◌≡◌, refl, sym, ap, ◌∙◌, arith, any, is_infix,
  is_prefix, last, length, infix-append, last-append, append_assoc, append-nil,
}
use localbench.Gateway.Relay.{
  Chunk, terminals, has_terminal, tail_bytes, relay_stream, relay_completed,
}

-- The whole response.
abbrev pub joined : List Chunk → Chunk
joined [] = []
joined (c ∷ cs) = c ++ joined cs

abbrev IsShort : Chunk → Type 0
IsShort m = (0 < length m) × (length m ≤ suc tail_bytes)

abbrev AreShort : List Chunk → Type 0
AreShort [] = Unit
AreShort (m ∷ ms) = IsShort m × AreShort ms

any-joined :
    (ms : List Chunk) (xs ys : Chunk)
    → AreShort ms
    → any (λ m. is_infix m (xs ++ ys)) ms
      ≡ (any (λ m. is_infix m xs) ms || any (λ m. is_infix m (last tail_bytes xs ++ ys)) ms)
any-joined [] xs ys h = refl
any-joined (m ∷ ms) xs ys h =
    ground (arith, infix-append tail_bytes m xs ys h.0.0 h.0.1, any-joined ms xs ys h.1)

terminals-AreShort : AreShort terminals
terminals-AreShort = (
  (omega arith, omega arith),
  ((omega arith, omega arith), ((omega arith, omega arith), ((omega arith, omega arith), tt))),
)

terminal-joined :
    (xs ys : Chunk)
    → has_terminal (xs ++ ys) ≡ (has_terminal xs || has_terminal (last tail_bytes xs ++ ys))
terminal-joined xs ys = any-joined terminals xs ys terminals-AreShort

relay-prefix :
    (chunks : List Chunk) (sent : Chunk)
    → relay_stream (has_terminal sent) (last tail_bytes sent) chunks
      ≡ has_terminal (sent ++ joined chunks)
unfolding relay_stream
relay-prefix [] sent = ap has_terminal (sym (append-nil sent))
relay-prefix (c ∷ cs) sent =
    rw (← terminal-joined sent c, last-append tail_bytes sent c)
      (relay-prefix cs (sent ++ c) ∙ ap has_terminal (append_assoc sent c (joined cs)))

-- A stream counts as completed exactly if one of the terminal events stands in the whole response, however
-- the chunks cut it.
pub relay-joined :
    (chunks : List Chunk) → relay_completed true chunks ≡ has_terminal (joined chunks)
unfolding relay_completed is_infix is_prefix last
relay-joined chunks = relay-prefix chunks []

-- ===== src/Cache.antt =====
-- The response cache of localbench/response_cache.py. The hash is a parameter, a file is its decoded JSON
-- document, and a file that is no document is `corrupt`.
pub mod Frames
pub mod Replay
use localbench.Base.{
  is_hex, ℕ, suc, zero, ◌/◌, ◌%◌, String, Bool, true, false, not, ◌&&◌, ◌||◌, Option, none, some,
  List, [], ◌∷◌, ◌++◌, ◌==◌, eqb, leb, if◌then◌else◌, is_some, length, get, put as put_key,
  all_codes,
}
use Prim.Native.String.{count}

abbrev pub Bytes : Type 0
Bytes = List ℕ

-- `n.to_bytes(k, "big")` for `n < 256 ** k`
unfoldable pub to_bytes : ℕ → ℕ → Bytes
to_bytes zero n = []
to_bytes (suc k) n = to_bytes k (n / 256) ++ n % 256 ∷ []

unfoldable pub frame : Bytes → Bytes
unfolding to_bytes
frame raw = to_bytes 8 (length raw) ++ raw

unfoldable pub framed : List Bytes → Bytes
unfolding frame
framed [] = []
framed (raw ∷ rest) = frame raw ++ framed rest

-- The six inputs in the order in which they are hashed.
pub record KeyParts : Type 0 where
  pub request_bytes : Bytes
  pub model_digest : Bytes
  pub backend_version : Bytes
  pub suite_pin : Bytes
  pub repeat_namespace : Bytes
  pub template_bytes : Bytes

abbrev pub parts_of : KeyParts → List Bytes
parts_of p =
    p.request_bytes ∷ p.model_digest ∷ p.backend_version ∷ p.suite_pin ∷ p.repeat_namespace
    ∷ p.template_bytes ∷ []

unfoldable pub response_key : (Bytes → String) → KeyParts → String
unfolding framed
response_key sha256_hex p = sha256_hex (framed (parts_of p))

pub record EvidenceFlags : Type 0 where
  pub cache_hit : Bool
  pub latency_eligible : Bool
  pub availability_eligible : Bool

pub record CachedResponse : Type 0 where
  pub body : Bytes
  pub flags : EvidenceFlags

abbrev pub live_flags : EvidenceFlags
live_flags = record { cache_hit = false; latency_eligible = true; availability_eligible = true }

abbrev pub replay_flags : EvidenceFlags
replay_flags = record { cache_hit = true; latency_eligible = false; availability_eligible = false }

pub data Document : Type 0 where
  corrupt : Document
  document : (schema : ℕ) (key : String) (cacheable : Bool) (body : Bytes) → Document

-- The files of the cache, by key.
abbrev pub Files : Type 0
Files = List (String × Document)

-- `len(key) != 64 or any(c not in "0123456789abcdef" for c in key)`
unfoldable pub is_bad_key : String → Bool
is_bad_key key = not (eqb (count key) 64) || not (all_codes is_hex key)

abbrev pub schema_version : ℕ
schema_version = 1

abbrev pub read_document : String → Option Document → Option CachedResponse
read_document key (some (document schema stored cacheable body)) =
    if not (eqb schema schema_version) || not (stored == key)
    then none
    else if not cacheable
    then none
    else some (record { body = body; flags = replay_flags })
read_document key _ = none

-- A bad key is a miss, like a missing or corrupt file.
unfoldable pub get_response : String → Files → Option CachedResponse
get_response key files = if is_bad_key key then none else read_document key (get key files)

pub record Transport : Type 0 where
  pub error_kind : Option String
  pub timed_out : Bool
  pub truncated : Bool

abbrev pub is_failed : Transport → Bool
is_failed t = is_some t.error_kind || t.timed_out || t.truncated

-- Whether the response was stored; `none` where a bad key raises. `written` is whether the write and the
-- rename succeed.
unfoldable pub put_response : String → Bytes → Transport → Bool → Files → Option Bool × Files
put_response key body t written files =
    if is_failed t
    then (some false, files)
    else if is_bad_key key
    then (none, files)
    else if written
    then (some true, put_key key (document schema_version key true body) files)
    else (some false, files)

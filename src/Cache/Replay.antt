-- ===== src/Cache/Replay.antt =====
-- What localbench/response_cache.py replays.
use localbench.Base.{
  String, Bool, true, false, Option, none, some, ◌≡◌, refl, arith, ◌==◌, get, put as put_key,
  get-put, eq_refl, Bool-cases, inl, inr,
}
use localbench.Cache.{
  Bytes, Files, Document, corrupt, document, CachedResponse, replay_flags, Transport, is_failed,
  is_bad_key, read_document, get_response, put_response, schema_version,
}

read-document :
    (key : String) (body : Bytes)
    → read_document key (some (document schema_version key true body))
      ≡ some (record { body = body; flags = replay_flags })
read-document key body = rw (eq_refl key) refl

module _ (key : String) (body : Bytes) (t : Transport) (written : Bool) (files u : Files)
    (stored : put_response key body t written files ≡ (some true, u)) where
  stored-eq :
      (is_failed t ≡ false)
      × (is_bad_key key ≡ false)
      × (u ≡ put_key key (document schema_version key true body) files)
  unfolding put_response
  stored-eq = ground arith

  sound-transport :
      is_failed t ≡ false → (t.error_kind ≡ none) × (t.timed_out ≡ false) × (t.truncated ≡ false)
  sound-transport h = ground arith

  -- A response that was stored came without an error kind, not timed out and not truncated; it is replayed
  -- with its body, as a cache hit that counts neither for latency nor for availability; and the other keys
  -- are as before.
  pub get-put_response :
      ((t.error_kind ≡ none) × (t.timed_out ≡ false) × (t.truncated ≡ false))
      × (get_response key u
          ≡ some (record {
            body = body;
            flags = record {
              cache_hit = true;
              latency_eligible = false;
              availability_eligible = false;
            };
          }))
      × ((j : String) → (key == j) ≡ false → get_response j u ≡ get_response j files)
  unfolding get_response
  get-put_response =
      let (sound, fine, eq) = stored-eq in
      let found = get-put key key (document schema_version key true body) files in
      (
        sound-transport sound,
        rw (eq, fine, found, eq_refl key) (read-document key body),
        λ j other. rw (eq, get-put key j (document schema_version key true body) files, other) refl,
      )

read-replay :
    (key : String) (o : Option Document) (r : CachedResponse)
    → read_document key o ≡ some r
    → r.flags ≡ replay_flags
read-replay key none r h = cc
read-replay key (some corrupt) r h = cc
read-replay key (some (document schema stored cacheable body)) r h = ground arith

-- Whatever the files hold, what is replayed is a cache hit that is no evidence on latency or availability.
pub get_response-replay :
    (key : String) (files : Files) (r : CachedResponse)
    → get_response key files ≡ some r
    → r.flags ≡ replay_flags
unfolding get_response
get_response-replay key files r h = elim (Bool-cases (is_bad_key key)) [
  | inl bad ↦ cc (rw bad at h)
  | inr fine ↦ read-replay key (get key files) r (rw fine at h)
]

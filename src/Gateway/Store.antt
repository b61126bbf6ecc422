-- ===== src/Gateway/Store.antt =====
-- The ledger of localbench/gateway.py: the tables of `GatewayStore._initialize` as lists of records,
-- the constants, and the errors that its methods raise. Times are natural numbers of microseconds.
use Prim.Native.Char.{code}
use Prim.Native.String.{count}
use localbench.Base.{
  ℕ, ◌*◌, String, Bool, true, false, ◌||◌, Option, none, some, List, [], ◌==◌, ltb, eqb, any, find,
}

abbrev pub second : ℕ
second = 1_000_000

abbrev pub idle_seconds : ℕ
idle_seconds = 300 * second

abbrev pub retry_seconds : ℕ
retry_seconds = 15 * second

abbrev pub hour : ℕ
hour = 3600 * second

abbrev pub requests_retention : ℕ
requests_retention = 7 * 24 * hour

abbrev pub requests_max_rows : ℕ
requests_max_rows = 200_000

abbrev pub vacuum_interval : ℕ
vacuum_interval = 30 * 24 * hour

abbrev pub clef_profile : String
clef_profile = "proj-b"

-- `profile in EXTERNAL_PROFILES`
abbrev pub is_external : String → Bool
is_external profile = profile == clef_profile

pub record Lease : Type 0 where
  pub model : String
  pub last_completed_at : Option ℕ
  pub idle_expires_at : Option ℕ
  pub manual_expires_at : Option ℕ
  pub last_outcome : Option String
  pub last_error : Option String
  pub next_retry_at : Option ℕ

pub record LeaseProfile : Type 0 where
  pub model : String
  pub profile : String
  pub last_seen_at : ℕ

pub record ActiveRequest : Type 0 where
  pub request_id : String
  pub model : String
  pub profile : String
  pub started_at : ℕ
  pub owner_pid : ℕ
  pub instance_id : String
  pub purpose : String
  pub feature : String
  pub first_byte_at : Option ℕ

pub record ParkFence : Type 0 where
  pub model : String
  pub fence_id : String
  pub created_at : ℕ

pub record PurposeStat : Type 0 where
  pub profile : String
  pub purpose : String
  pub bucket_start : ℕ
  pub requests : ℕ
  pub busy_s : ℕ

pub record RequestRow : Type 0 where
  pub request_id : String
  pub profile : String
  pub purpose : String
  pub model : String
  pub started_at : ℕ
  pub first_byte_at : Option ℕ
  pub ended_at : ℕ
  pub status : String
  pub feature : String
  pub abandon_reason : Option String

pub record Profile : Type 0 where
  pub name : String
  pub route : String

-- The rows of `gateway_state` are the two keys that the methods use.
pub record Store : Type 0 where
  pub profiles : List Profile
  pub accepting_value : Option String
  pub requests_vacuum_at : Option ℕ
  pub leases : List Lease
  pub lease_profiles : List LeaseProfile
  pub active : List ActiveRequest
  pub fences : List ParkFence
  pub purpose_stats : List PurposeStat
  pub requests : List RequestRow

-- A new database: INSERT OR IGNORE puts 'accepting' at '1'.
abbrev pub fresh : Store
fresh = record {
  profiles = [];
  accepting_value = some "1";
  requests_vacuum_at = none;
  leases = [];
  lease_profiles = [];
  active = [];
  fences = [];
  purpose_stats = [];
  requests = [];
}

-- One constructor for each `raise`. `integrity` is sqlite3's error on a primary key that is taken.
pub data Error : Type 0 where
  fence_id_invalid fence_model_invalid : Error
  model_invalid purpose_invalid feature_invalid : Error
  draining fenced unload_in_progress profile_unregistered : Error
  negative_connections manual_expiry_invalid keep_refused death_unproven integrity : Error

abbrev pub message : Error → String
message fence_id_invalid = "park fence id is missing or invalid"
message fence_model_invalid = "park fence model name is missing or invalid"
message model_invalid = "request model name is missing or invalid"
message purpose_invalid = "request purpose is invalid"
message feature_invalid = "request feature is invalid"
message draining = "gateway is draining and will not accept inference requests"
message fenced = "model is fenced for park; retry after localbench unpark"
message unload_in_progress = "model unload is in progress; retry the inference request"
message profile_unregistered = "request profile is not registered"
message negative_connections = "gateway connection count cannot be negative"
message manual_expiry_invalid = "manual lease expiry must be finite and in the future"
message keep_refused = "model unload is in progress; finite keep was refused"
message death_unproven = "cannot reclaim in-flight requests until prior process death is proven"
message integrity = "UNIQUE constraint failed"

-- The value that a method returns, or the exception that leaves it.
pub data Result {ℓ} (A : Type ℓ) : Type ℓ where
  err : Error → Result A
  ok : A → Result A

infixl 5 ◌>>=◌ ◌>>◌
-- The rest of a method is skipped after an exception.
abbrev pub ◌>>=◌ {ℓ κ} :
    {A : Type ℓ} {B : Type κ} (call : Result A) (rest : A → Result B) → Result B
err raised >>= rest = err raised
ok value >>= rest = rest value

abbrev pub ◌>>◌ {ℓ} : {B : Type ℓ} (check : Result (Unit {0})) (rest : Result B) → Result B
check >> rest = check >>= λ _. rest

-- `if b: raise e`
abbrev pub raise_if : Bool → Error → Result (Unit {0})
raise_if true e = err e
raise_if false e = ok tt

-- `"\x00" in text`
unfoldable pub has_nul : String → Bool
has_nul String.[] = false
has_nul (String.◌∷◌ c cs) = eqb (code c) 0 || has_nul cs

-- `not text or len(text) > limit or "\x00" in text`
unfoldable pub is_bad_name : String → Bool
unfolding has_nul
is_bad_name name = name == "" || ltb 512 (count name) || has_nul name

unfoldable pub is_bad_label : String → Bool
unfolding has_nul
is_bad_label label = has_nul label || ltb 256 (count label)

-- Whether the model has an admitted request, a fence, and its lease.
abbrev pub busy : Store → String → Bool
busy s m = any (λ a. a.model == m) s.active

abbrev pub has_fence : Store → String → Bool
has_fence s m = any (λ f. f.model == m) s.fences

abbrev pub lease_of : Store → String → Option Lease
lease_of s m = find (λ l. l.model == m) s.leases

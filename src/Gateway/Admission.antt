-- ===== src/Gateway/Admission.antt =====
-- Admission in localbench/gateway.py: the accepting switch, the profiles, the park fences and
-- `GatewayStore.start_request`. The request id, the process id and the time are arguments.
pub mod Fences
pub mod Start
use localbench.Base.{
  ℕ, String, Bool, true, false, not, ◌&&◌, Option, none, some, List, [], ◌∷◌, ◌++◌, map, ◌==◌, any,
  find, delete, upsert, sorted_set, sort, le_text, ltb, eqb, ◌||◌, holds, if◌then◌else◌, concat,
}
use localbench.Gateway.Store.{
  Store, Lease, LeaseProfile, ActiveRequest, ParkFence, Profile, Result, ok, err, ◌>>=◌, ◌>>◌,
  raise_if, fence_id_invalid, fence_model_invalid, model_invalid, purpose_invalid, feature_invalid,
  draining, fenced, unload_in_progress, profile_unregistered, integrity, is_bad_name, is_bad_label,
  has_nul, is_external, busy, has_fence, lease_of,
}

-- UPDATE changes the row if it is there.
unfoldable pub set_accepting : Bool → Store → Store
set_accepting accepting s = record s {
  accepting_value = elim s.accepting_value [
    | none ↦ none
    | some v ↦ some (if accepting then "1" else "0")
  ];
}

unfoldable pub accepting : Store → Bool
accepting s = holds s.accepting_value "1"

unfoldable pub park_fence : String → Store → Option String
park_fence model s = elim (find (λ f. f.model == model) s.fences) [
  | none ↦ none
  | some f ↦ some f.fence_id
]

-- ORDER BY created_at, model
abbrev older : ParkFence → ParkFence → Bool
older f g =
    ltb f.created_at g.created_at || eqb f.created_at g.created_at && le_text f.model g.model

unfoldable pub list_fences : Store → List ParkFence
list_fences s = sort older s.fences

-- The loop over the names: the first that has an admitted request or a fence.
unfoldable pub fence_refusal : Store → List String → Option String
fence_refusal s [] = none
fence_refusal s (model ∷ rest) =
    let later = fence_refusal s rest in
    if busy s model
    then some (concat ("gateway request is in flight for this model: " ∷ model ∷ []))
    else if has_fence s model
    then some (concat ("model already has an active park fence: " ∷ model ∷ []))
    else later

abbrev new_fences : String → ℕ → List String → List ParkFence
new_fences fence_id now names =
    map (λ model. record { model = model; fence_id = fence_id; created_at = now }) names

-- The fences are all inserted, or none is and the refusal is returned.
abbrev fence_all : List String → String → ℕ → Store → Option String × Store
fence_all names fence_id now s = elim (fence_refusal s names) [
  | some refusal ↦ (some refusal, s)
  | none ↦ (none, record s { fences = s.fences ++ new_fences fence_id now names })
]

abbrev pub acquire_names : List String → String → ℕ → Store → Result (Option String × Store)
acquire_names [] fence_id now s = ok (none, s)
acquire_names (n ∷ ns) fence_id now s = do
  raise_if (fence_id == "" || has_nul fence_id) fence_id_invalid
  raise_if (any is_bad_name (n ∷ ns)) fence_model_invalid
  ok (fence_all (n ∷ ns) fence_id now s)

unfoldable pub acquire_park_fence :
    List String → String → ℕ → Store → Result (Option String × Store)
unfolding fence_refusal
acquire_park_fence models fence_id now s = acquire_names (sorted_set models) fence_id now s

unfoldable pub release_park_fence : String → Store → Store
release_park_fence fence_id s =
    if fence_id == ""
    then s
    else record s { fences = delete (λ f. f.fence_id == fence_id) s.fences }

-- `profiles` is a dict: its keys are distinct.
unfoldable pub set_profiles : List Profile → Store → Store
set_profiles profiles s = record s { profiles = sort (λ p q. le_text p.name q.name) profiles }

-- The external server waits for every fence, a model for its own.
abbrev pub is_fenced : Store → String → String → Bool
is_fenced s profile model =
    if is_external profile then any (λ f. true) s.fences else has_fence s model

abbrev pub unload_pending : Option Lease → Bool
unload_pending none = false
unload_pending (some l) = holds l.last_outcome "unload_pending"

abbrev pub new_lease : String → Lease
new_lease model = record {
  model = model;
  last_completed_at = none;
  idle_expires_at = none;
  manual_expires_at = none;
  last_outcome = none;
  last_error = none;
  next_retry_at = none;
}

abbrev pub renew_lease : Lease → Lease
renew_lease l = record l { last_outcome = none; last_error = none; next_retry_at = none }

abbrev pub touch_lease : String → String → ℕ → Store → Store
touch_lease profile model now s = record s {
  leases = upsert (λ l. l.model == model) renew_lease (new_lease model) s.leases;
  lease_profiles =
      upsert (λ r. r.model == model && r.profile == profile) (λ r. record r { last_seen_at = now })
        (record { model = model; profile = profile; last_seen_at = now }) s.lease_profiles;
}

-- External servers are never leased.
abbrev pub lease_request : String → String → ℕ → Store → Store
lease_request profile model now s =
    if is_external profile then s else touch_lease profile model now s

-- What the gateway knows of a request before it is admitted.
pub record Request : Type 0 where
  pub profile : String
  pub model : String
  pub purpose : String
  pub feature : String

abbrev pub new_request : Request → String → String → ℕ → ℕ → ActiveRequest
new_request r request_id instance_id pid now = record {
  request_id = request_id;
  model = r.model;
  profile = r.profile;
  started_at = now;
  owner_pid = pid;
  instance_id = instance_id;
  purpose = r.purpose;
  feature = r.feature;
  first_byte_at = none;
}

-- `profile != "" and not external` and no row in `profiles`
abbrev pub is_unregistered : Store → String → Bool
is_unregistered s profile =
    not (profile == "")
    && not (is_external profile)
    && not (any (λ p. p.name == profile) s.profiles)

-- The primary key of `active_requests` is taken.
abbrev pub has_request : Store → String → Bool
has_request s request_id = any (λ a. a.request_id == request_id) s.active

abbrev pub admit : ActiveRequest → Store → Store
admit row s = record s { active = s.active ++ row ∷ [] }

unfoldable pub start_request : Request → String → String → ℕ → ℕ → Store → Result Store
unfolding accepting
start_request r request_id instance_id pid now s = do
  raise_if (is_bad_name r.model) model_invalid
  raise_if (is_bad_label r.purpose) purpose_invalid
  raise_if (is_bad_label r.feature) feature_invalid
  raise_if (not (accepting s)) draining
  raise_if (is_fenced s r.profile r.model) fenced
  raise_if (unload_pending (lease_of s r.model)) unload_in_progress
  raise_if (is_unregistered s r.profile) profile_unregistered
  raise_if (has_request s request_id) integrity
  ok (admit (new_request r request_id instance_id pid now) (lease_request r.profile r.model now s))

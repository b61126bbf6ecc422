-- ===== src/Presets/Rollback.antt =====
-- `rollback` and `drift` of localbench/presets.py.
pub mod Checked
pub mod Undone
pub mod Entries
use Prim.Native.Char.{code}
use Prim.Native.String
use localbench.Base.{
  is_hex, ℕ, String, Bool, true, false, not, ◌&&◌, ◌||◌, Option, none, some, List, [], ◌∷◌, ◌++◌,
  map, ◌==◌, leb, eqb, if◌then◌else◌, get, put, delete, is_some,
}
use localbench.Presets.Values.{
  Value, Scalar, Expect, equals, role_equals, contains, excludes, block, holds,
}
use localbench.Presets.Block.{managed}
use localbench.Presets.Host.{
  Failure, bad_id, no_rollback, wrong_status, changed_since_apply, Result, err, ok, ◌>>=◌, ◌>>◌,
  raise_if, Files, read_text, Host, path,
}
use localbench.Presets.Backup.{Saved, hash_of, same_hash, restore}
use localbench.Presets.Registry.{family, is_in}
use localbench.Presets.Apply.{same_block}
use localbench.Presets.World.{
  Entry, Status, applying, applied, rolled_back, restore_broken, Manifest, Applied, World, families,
  entry_of, filed, logged,
}

abbrev is_stamp : ℕ → Bool
is_stamp n = leb 48 n && leb n 57 || eqb n 84 || eqb n 90

abbrev hex_rest : String → Bool
hex_rest String.[] = true
hex_rest (String.◌∷◌ c rest) = is_hex (code c) && hex_rest rest

abbrev starts_hex : String → Bool
starts_hex String.[] = false
starts_hex (String.◌∷◌ c rest) = is_hex (code c) && hex_rest rest

-- After a first character of the stamp: `[0-9TZ]*-[0-9a-f]+`
abbrev stamp_rest : String → Bool
stamp_rest String.[] = false
stamp_rest (String.◌∷◌ c rest) =
    let later = stamp_rest rest in
    if eqb (code c) 45 then starts_hex rest else is_stamp (code c) && later

-- `re.fullmatch(r"[0-9TZ]+-[0-9a-f]+", rid)`
unfoldable pub is_rollback_id : String → Bool
is_rollback_id String.[] = false
is_rollback_id (String.◌∷◌ c rest) = is_stamp (code c) && stamp_rest rest

abbrev or_no_rollback : String → Option Manifest → Result Manifest
or_no_rollback id none = err (no_rollback id)
or_no_rollback id (some m) = ok m

abbrev pub can_roll_back : Status → Bool
can_roll_back rolled_back = false
can_roll_back status = true

abbrev is_applied : Status → Bool
is_applied applied = true
is_applied status = false

abbrev pub has_id : String → Option Entry → Bool
has_id id none = false
has_id id (some e) = e.id == id

-- The family of a profile as it was before.
abbrev pub reset : String → Option Entry → List (String × Entry) → List (String × Entry)
reset fam none fams = delete (λ r. r.0 == fam) fams
reset fam (some e) fams = put fam e fams

-- The loop over `previous_applied`.
unfoldable pub revert : String → String → List (String × Option Entry) → Applied → Applied
revert id fam [] state = state
revert id fam ((profile, previous) ∷ rest) state = revert id fam rest (
    if has_id id (entry_of profile fam state)
    then put profile (reset fam previous (families profile state)) state
    else state)

module _ (h : Host) (sha : String → String) where
  -- The files that have changed since the apply.
  unfoldable pub later_changes : Files → List Saved → List (Option String) → List (String × String)
  later_changes files [] hashes = []
  later_changes files (r ∷ rs) [] = []
  later_changes files (r ∷ rs) (x ∷ xs) =
      let rest = later_changes files rs xs in
      if same_hash (hash_of sha (files r.place)) x then rest else (r.profile, r.name) ∷ rest

  abbrev pub is_empty {ℓ} : {A : Type ℓ} → List A → Bool
  is_empty [] = true
  is_empty (x ∷ xs) = false

  abbrev pub later_of : Manifest → Files → List (String × String)
  later_of m files = if is_applied m.status then later_changes files m.saved m.applied_sha else []

  abbrev pub checked : String → Bool → World → Result Manifest
  checked id force w = do
    raise_if (not (is_rollback_id id)) (bad_id id)
    m ← or_no_rollback id (get id w.manifests)
    raise_if (not (can_roll_back m.status)) (wrong_status id)
    let later = later_of m w.files
    raise_if (not (is_empty later || force)) (changed_since_apply later)
    ok m

  abbrev pub reverted : Manifest → World → World
  reverted m w = record w { record_of = revert m.id (family m.preset) m.previous w.record_of }

  abbrev pub finished :
      Manifest
      → World
      → Result (List (String × String)) × Files
      → Result (List (String × String)) × World
  finished m w (err failed, files) = (err failed, record w { files = files })
  finished m w (ok restored, files) = (
    ok restored,
    logged "rollback" m.id "restored"
        (filed (record m { status = rolled_back }) (reverted m (record w { files = files }))),
  )

  abbrev pub carried_out : World → Result Manifest → Result (List (String × String)) × World
  carried_out w (err failed) = (err failed, w)
  carried_out w (ok m) = finished m w (restore h sha m.saved w.files)

  -- `rollback`
  unfoldable pub rollback : String → Bool → World → Result (List (String × String)) × World
  unfolding restore later_changes revert family is_rollback_id
  rollback id force w = carried_out w (checked id force w)

-- The profile, the preset and the expectation that does not hold.
pub record Drift : Type 0 where
  pub profile : String
  pub preset : String
  pub id : String
  pub expected : Expect

module _ (h : Host) (files : Files) where
  abbrev value_holds : String → String → Expect → Result Bool
  value_holds profile key e = Host.omp_get h profile key files >>= λ actual. ok (holds e actual)

  -- Whether the live configuration meets the expectation.
  unfoldable pub meets : String → Expect → Result Bool
  unfolding path managed holds
  meets profile (block b) = path h profile "models.yml" >>= λ place.
      managed (read_text (files place)) >>= λ actual. ok (same_block actual b)
  meets profile (equals key v) = value_holds profile key (equals key v)
  meets profile (role_equals r selector) = value_holds profile "modelRoles" (role_equals r selector)
  meets profile (contains key item) = value_holds profile key (contains key item)
  meets profile (excludes key item) = value_holds profile key (excludes key item)

  unfoldable pub entry_drift : String → Entry → List Expect → Result (List Drift)
  unfolding meets
  entry_drift profile e [] = ok []
  entry_drift profile e (x ∷ xs) = do
    good ← meets profile x
    rest ← entry_drift profile e xs
    ok (
        if good
        then rest
        else record { profile = profile; preset = e.preset; id = e.id; expected = x } ∷ rest)

  unfoldable pub profile_drift : String → List (String × Entry) → Result (List Drift)
  unfolding entry_drift
  profile_drift profile [] = ok []
  profile_drift profile ((fam, e) ∷ fams) = do
    these ← entry_drift profile e e.expected
    rest ← profile_drift profile fams
    ok (these ++ rest)

  abbrev is_asked : Option (List String) → String → Bool
  is_asked none profile = true
  is_asked (some profiles) profile = is_in profile profiles

  -- `drift`, over the applied record in the order of the profiles
  unfoldable pub drift : Option (List String) → Applied → Result (List Drift)
  unfolding profile_drift
  drift asked [] = ok []
  drift asked ((profile, fams) ∷ state) = do
    these ← if is_asked asked profile then profile_drift profile fams else ok []
    rest ← drift asked state
    ok (these ++ rest)

-- ===== src/Presets/Backup.antt =====
-- `_backup` and `_restore` of localbench/presets.py. A label `profile/name` is the pair of the two, since the name
-- of a profile has no slash. The hash is a parameter.
pub mod Copies
pub mod Covered
pub mod Restored
use localbench.Base.{
  ℕ, String, Bool, true, false, not, ◌&&◌, ◌||◌, Option, none, some, List, [], ◌∷◌, ◌++◌, ◌==◌,
  if◌then◌else◌,
}
use localbench.Presets.Host.{
  Failure, is_link, foreign_entry, bad_backup, not_restored, os_error, Result, err, ok, ◌>>=◌, ◌>>◌,
  raise_if, Place, agent_file, backup_file, same, File, Files, store, is_file, bytes_of, Host, path,
}

pub record Saved : Type 0 where
  pub profile : String
  pub name : String
  pub place : Place
  pub existed : Bool
  pub sha256 : Option String
  pub backup : Place
  pub mode : ℕ

abbrev pub hash_of : (String → String) → Option File → Option String
hash_of sha none = none
hash_of sha (some f) = some (sha f.bytes)

abbrev pub same_hash : Option String → Option String → Bool
same_hash none none = true
same_hash (some a) (some b) = a == b
same_hash a b = false

abbrev mode_of : Option File → ℕ
mode_of none = 384
mode_of (some f) = f.mode

abbrev pub link_of : Option File → Bool
link_of none = false
link_of (some f) = f.symlink

abbrev pub private : String → File
private bytes = record { bytes = bytes; mode = 384; symlink = false }

abbrev pub restored_file : ℕ → String → File
restored_file mode bytes = record { bytes = bytes; mode = mode; symlink = false }

-- `_atomic_write`: the file is replaced, or nothing changes.
abbrev pub write : Host → Place → File → Files → Result (Unit {0}) × Files
write h p f files =
    if Host.writable h p then (ok tt, store p (some f) files) else (err os_error, files)

-- The rest is done only if the call has returned.
abbrev pub then_do {ℓ} :
    {A B : Type ℓ} → Result A × Files → (A → Files → Result B × Files) → Result B × Files
then_do (err failed, files) rest = (err failed, files)
then_do (ok a, files) rest = rest a files

abbrev pub file_names : List String
file_names = "config.yml" ∷ "models.yml" ∷ []

module _ (h : Host) (sha : String → String) where
  abbrev pub saved_of : String → String → String → Place → Option File → Saved
  saved_of id profile name place found = record {
    profile = profile;
    name = name;
    place = place;
    existed = is_file found;
    sha256 = hash_of sha found;
    backup = backup_file id profile name;
    mode = mode_of found;
  }

  abbrev pub copy_found : Place → Option File → Files → Result (Unit {0}) × Files
  copy_found place none files = (ok tt, files)
  copy_found place (some f) files = write h place (private f.bytes) files

  -- One file of a profile.
  unfoldable pub backup_one : String → String → String → Files → Result Saved × Files
  unfolding path
  backup_one id profile name files =
      then_do (path h profile name, files)
        λ place fs.
          if link_of (fs place)
          then (err (is_link profile name), fs)
          else then_do (copy_found (backup_file id profile name) (fs place) fs)
              λ _ gs. (ok (saved_of id profile name place (fs place)), gs)

  unfoldable pub backup_names : String → String → List String → Files → Result (List Saved) × Files
  unfolding backup_one
  backup_names id profile [] files = (ok [], files)
  backup_names id profile (name ∷ names) files =
      then_do (backup_one id profile name files)
        λ s fs. then_do (backup_names id profile names fs) λ more gs. (ok (s ∷ more), gs)

  -- `_backup`
  unfoldable pub backup : String → List String → Files → Result (List Saved) × Files
  unfolding backup_names
  backup id [] files = (ok [], files)
  backup id (profile ∷ profiles) files =
      then_do (backup_names id profile file_names files)
        λ saved fs. then_do (backup id profiles fs) λ more gs. (ok (saved ++ more), gs)

  abbrev is_file_name : String → Bool
  is_file_name name = name == "config.yml" || name == "models.yml"

  -- The first loop of `_restore`: an entry must name the profile's own file.
  unfoldable pub check_entries : List Saved → Result (Unit {0})
  unfolding path
  check_entries [] = ok tt
  check_entries (r ∷ rs) = do
    raise_if (not (is_file_name r.name)) (foreign_entry r.profile r.name)
    place ← path h r.profile r.name
    raise_if (not (same r.place place)) (foreign_entry r.profile r.name)
    check_entries rs

  abbrev pub write_backup : Saved → Option File → Files → Result (Unit {0}) × Files
  write_backup r none files = (err os_error, files)
  write_backup r (some f) files =
      if same_hash (some (sha f.bytes)) r.sha256
      then write h r.place (restored_file r.mode f.bytes) files
      else (err (bad_backup r.profile r.name), files)

  abbrev pub remove : Place → Files → Result (Unit {0}) × Files
  remove p files = if Host.writable h p then (ok tt, store p none files) else (err os_error, files)

  abbrev pub put_back : Saved → Files → Result (Unit {0}) × Files
  put_back r files =
      if r.existed then write_backup r (files r.backup) files else remove r.place files

  abbrev is_restored : Saved → Files → Bool
  is_restored r files = same_hash (hash_of sha (files r.place)) r.sha256

  -- One entry: whether it was changed back.
  unfoldable pub restore_one : Saved → Files → Result Bool × Files
  restore_one r files =
      if is_restored r files
      then (ok false, files)
      else then_do (put_back r files) λ _ fs.
        if is_restored r fs then (ok true, fs) else (err (not_restored r.profile r.name), fs)

  abbrev label : Saved → String × String
  label r = (r.profile, r.name)

  abbrev noted : Saved → Bool → List (String × String) → List (String × String)
  noted r done rest = if done then label r ∷ rest else rest

  unfoldable pub restore_each : List Saved → Files → Result (List (String × String)) × Files
  unfolding restore_one
  restore_each [] files = (ok [], files)
  restore_each (r ∷ rs) files =
      then_do (restore_one r files)
        λ done fs. then_do (restore_each rs fs) λ rest gs. (ok (noted r done rest), gs)

  -- `_restore`
  unfoldable pub restore : List Saved → Files → Result (List (String × String)) × Files
  unfolding check_entries restore_each
  restore saved files = then_do (check_entries saved, files) λ _ fs. restore_each saved fs

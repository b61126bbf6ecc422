-- ===== src/Presets/Rollback/Checked.antt =====
-- A rollback whose manifest is found and passes the checks: the saved files come back.
use localbench.Base.{
  String, Bool, true, false, ◌||◌, some, List, [], ◌∷◌, map, ◌≡◌, refl, sym, ap, subst, get,
}
use localbench.Presets.Host.{Result, err, ok, Place, Files, Host}
use localbench.Presets.Backup.{Saved, hash_of, restore}
use localbench.Presets.Backup.Copies.{Ends, All, IsSaved}
use localbench.Presets.Backup.Covered.{CoversAll}
use localbench.Presets.Backup.Restored.{IsBack, Restores, restore-IsBack, same_hash_refl}
use localbench.Presets.Registry.{family}
use localbench.Presets.World.{Manifest, applied, World, entry_of}
use localbench.Presets.Apply.Writes.{KeepsCopies, OmpKeepsCopies}
use localbench.Presets.Apply.Atomic.{SameBytes, FilesAsBefore, restored_bytes}
use localbench.Presets.Rollback.{
  is_rollback_id, is_empty, later_of, later_changes, checked, finished, carried_out, can_roll_back,
  rollback, revert,
}

-- What a rollback leaves, compared with a world.
abbrev pub IsUndone : List String → World → Result (List (String × String)) × World → Type 0
IsUndone profiles w (ok labels, after) =
    FilesAsBefore profiles w.files after.files
    × ((q f : String) → entry_of q f after.record_of ≡ entry_of q f w.record_of)
IsUndone profiles w (err failed, after) = ⊥

-- Other files may have changed since, but not the backups.
abbrev pub with_files : World → Files → World
with_files w files = record w { files = files }

-- The rollback of an apply, at once, and by force whatever has happened to the files since.
abbrev pub BothUndone :
    Host → (String → String) → String → List String → World → Result Manifest × World → Type 0
BothUndone h sha id profiles w (err failed, after) = Unit
BothUndone h sha id profiles w (ok m, after) =
    IsUndone profiles w (rollback h sha id false after)
    × ((files : Files)
        → KeepsCopies after.files files
        → IsUndone profiles w (rollback h sha id true (with_files after files)))

pub later_changes-same :
    (h : Host) (sha : String → String) (fs : Files) (saved : List Saved)
    → later_changes h sha fs saved (map (λ r. hash_of sha (fs r.place)) saved) ≡ []
unfolding later_changes
later_changes-same h sha fs [] = refl
later_changes-same h sha fs (r ∷ rs) =
    rw (same_hash_refl (hash_of sha (fs r.place))) (later_changes-same h sha fs rs)

pub or-true : (b : Bool) → (b || true) ≡ true
or-true true = refl
or-true false = refl

module _ (h : Host) (sha : String → String) (sha_injective : (a b : String) → sha a ≡ sha b → a ≡ b)
    (can_write : (p : Place) → Host.writable h p ≡ true) (omp_keeps : OmpKeepsCopies h)
    (id : String) (valid : is_rollback_id id ≡ true) where
  finished-IsUndone :
      (m : Manifest) (profiles : List String) (w v : World)
      → ((q f : String)
          → entry_of q f (revert m.id (family m.preset) m.previous v.record_of)
            ≡ entry_of q f w.record_of)
      → (r : Result (List (String × String)) × Files)
      → Ends (λ _ hs. FilesAsBefore profiles w.files hs) (λ _. ⊥) r
      → IsUndone profiles w (finished h sha m v r)
  finished-IsUndone m profiles w v back (ok labels, hs) e = (e, back)
  finished-IsUndone m profiles w v back (err broken, hs) e = e

  restored-Ends :
      (w : World) (profiles : List String) (saved : List Saved) (gs : Files)
      → All (IsSaved h sha id w.files gs) saved
      → ((hs : Files) → CoversAll (SameBytes w.files hs) profiles saved gs)
      → (r : Result (List (String × String)) × Files)
      → Ends
          (λ _ hs.
            Restores h sha id w.files gs hs × All (λ q. IsBack h sha id w.files hs q.place) saved)
          (λ _. ⊥)
          r
      → Ends (λ _ hs. FilesAsBefore profiles w.files hs) (λ _. ⊥) r
  restored-Ends w profiles saved gs kept c (ok labels, hs) b =
      c hs (restored_bytes h sha sha_injective can_write omp_keeps id w.files gs saved kept hs b.1)
  restored-Ends w profiles saved gs kept c (err broken, hs) b = b

  -- The rollback of a manifest that is found and passes the checks.
  pub rollback-IsUndone :
      (m : Manifest) (profiles : List String) (w v : World) (force : Bool)
      → checked h sha id force v ≡ ok m
      → ((q f : String)
          → entry_of q f (revert m.id (family m.preset) m.previous v.record_of)
            ≡ entry_of q f w.record_of)
      → All (IsSaved h sha id w.files v.files) m.saved
      → ((hs : Files) → CoversAll (SameBytes w.files hs) profiles m.saved v.files)
      → IsUndone profiles w (rollback h sha id force v)
  unfolding rollback
  rollback-IsUndone m profiles w v force found back kept c =
      subst (λ r. IsUndone profiles w (carried_out h sha v r)) (sym found)
        (finished-IsUndone m profiles w v back (restore h sha m.saved v.files) (
          restored-Ends w profiles m.saved v.files kept c (restore h sha m.saved v.files)
            (restore-IsBack h sha id w.files can_write m.saved v.files kept)))

  -- The manifest that an apply has filed is found again.
  pub checked-found :
      (m : Manifest) (v : World) (force : Bool)
      → get id v.manifests ≡ some m
      → m.status ≡ applied
      → (is_empty h sha (later_of h sha m v.files) || force) ≡ true
      → checked h sha id force v ≡ ok m
  checked-found m v force found status clear =
      rw valid (rw found (rw (ap (λ s. can_roll_back s) status) (rw clear refl)))

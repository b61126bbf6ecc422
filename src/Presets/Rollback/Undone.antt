-- ===== src/Presets/Rollback/Undone.antt =====
-- A rollback undoes its apply: the files of the profiles, byte for byte, and the applied record.
use localbench.Base.{
  ℕ, String, Bool, true, false, ◌||◌, Option, none, some, List, [], map, ◌≡◌, refl, ◌∙◌, subst, inl,
  put, get-put, eq_refl,
}
use localbench.Presets.Host.{Failure, Result, err, ok, Place, Files, Host}
use localbench.Presets.Backup.{Saved, backup, restore}
use localbench.Presets.Backup.Copies.{
  Ends, All-map, IsSaved, Unchanged, Grows-IsSaved, SavesAll, backup-IsSaved,
}
use localbench.Presets.Backup.Covered.{CoversAll, backup-CoversAll}
use localbench.Presets.Plan.{Plan, Step, plan, Target, Grades}
use localbench.Presets.Registry.{Registry, family}
use localbench.Presets.Apply.{
  manifest_of, settled, begun, commit, undo, apply_plan, apply, write_and_read, record_applied,
}
use localbench.Presets.World.{Manifest, World, entry_of, filed}
use localbench.Presets.Apply.Writes.{KeepsCopies, OmpKeepsCopies, IsReadBack, write_and_read-Ends}
use localbench.Presets.Apply.Atomic.{SameBytes, KeepsCopies-Grows, plan-profiles}
use localbench.Presets.Rollback.{is_rollback_id, is_empty, later_of, rollback, revert}
use localbench.Presets.Rollback.Entries.{revert-entry, record_applied-Written}
use localbench.Presets.Rollback.Checked.{
  IsUndone, with_files, BothUndone, later_changes-same, or-true, rollback-IsUndone, checked-found,
}

module _ (h : Host) (sha : String → String) (sha_injective : (a b : String) → sha a ≡ sha b → a ≡ b)
    (can_write : (p : Place) → Host.writable h p ≡ true) (omp_keeps : OmpKeepsCopies h)
    (id : String) (valid : is_rollback_id id ≡ true) where
  -- The applied record comes back.
  record-back :
      (at : String) (p : Plan) (w : World) (q f : String)
      → let fam = family p.preset in
        entry_of q f (
          revert id fam
            (map (λ profile. (profile, entry_of profile fam w.record_of)) p.profiles)
            (record_applied p fam id at p.profiles w.record_of))
        ≡ entry_of q f w.record_of
  record-back at p w q f =
      let fam = family p.preset in
      revert-entry id fam w.record_of p.profiles (record_applied p fam id at p.profiles w.record_of)
        (record_applied-Written id fam w.record_of p at p.profiles [] w.record_of (λ r g. inl refl))
        q f

  undo-BothUndone :
      (failed : Failure) (m : Manifest) (profiles : List String) (w v : World)
      → (r : Result (List (String × String)) × Files)
      → BothUndone h sha id profiles w (undo h sha failed m v r)
  unfolding undo
  undo-BothUndone failed m profiles w v (ok labels, gs) = tt
  undo-BothUndone failed m profiles w v (err broken, gs) = tt

  -- The world after an apply that returned, with the files that it left.
  abbrev left : String → Plan → World → List Saved → Files → Manifest × World
  left at p w saved gs =
      let m = manifest_of h sha id p saved w.record_of in
      commit h sha at m (record (filed m w) { files = gs })

  left-IsUndone :
      (at : String) (p : Plan) (w : World) (saved : List Saved) (fs gs files : Files) (force : Bool)
      → SavesAll h sha id w.files w.files saved fs
      → ((hs : Files) → CoversAll (SameBytes w.files hs) p.profiles saved fs)
      → KeepsCopies fs files
      → (is_empty h sha (later_of h sha (left at p w saved gs).0 files) || force) ≡ true
      → IsUndone p.profiles w (rollback h sha id force (with_files (left at p w saved gs).1 files))
  unfolding commit
  left-IsUndone at p w saved fs gs files force s c k clear =
      let m = (left at p w saved gs).0 in
      rollback-IsUndone h sha sha_injective can_write omp_keeps id valid m p.profiles w
        (with_files (left at p w saved gs).1 files) force
        (checked-found h sha sha_injective can_write omp_keeps id valid m
          (with_files (left at p w saved gs).1 files) force
          (rw (get-put id id m (put id (manifest_of h sha id p saved w.record_of) w.manifests))
            (rw (eq_refl id) refl))
          refl clear)
        (record-back at p w)
        (All-map (IsSaved h sha id w.files fs) (IsSaved h sha id w.files files) saved
          (λ r.
            Grows-IsSaved h sha id w.files fs files r
              (KeepsCopies-Grows h sha sha_injective can_write omp_keeps id w.files fs files k))
          s.0)
        c

  settled-BothUndone :
      (at : String) (p : Plan) (w : World) (saved : List Saved) (fs : Files)
      → SavesAll h sha id w.files w.files saved fs
      → ((gs : Files) → CoversAll (SameBytes w.files gs) p.profiles saved fs)
      → (r : Result (Unit {0}) × Files)
      → Ends (λ _ gs. KeepsCopies fs gs × IsReadBack h p.steps gs) (KeepsCopies fs) r
      → BothUndone h sha id p.profiles w (
          settled h sha at
            (manifest_of h sha id p saved w.record_of)
            (filed (manifest_of h sha id p saved w.record_of) (record w { files = fs }))
            r)
  unfolding commit
  settled-BothUndone at p w saved fs s c (err failed, gs) e =
      undo-BothUndone failed (manifest_of h sha id p saved w.record_of) p.profiles w _
        (restore h sha saved gs)
  settled-BothUndone at p w saved fs s c (ok _, gs) e = (
    left-IsUndone at p w saved fs gs gs false s c e.0 (rw (later_changes-same h sha gs saved) refl),
    λ files k.
        left-IsUndone at p w saved fs gs files true s c (λ i q n. k i q n ∙ e.0 i q n) (or-true _),
  )

  begun-BothUndone :
      (at : String) (p : Plan) (w : World)
      → (r : Result (List Saved) × Files)
      → Ends (SavesAll h sha id w.files w.files) (Unchanged h sha id w.files) r
      → ((gs : Files) → Ends (CoversAll (SameBytes w.files gs) p.profiles) (λ _. Unit {0}) r)
      → BothUndone h sha id p.profiles w (begun h sha id at p w r)
  begun-BothUndone at p w (ok saved, fs) s c =
      settled-BothUndone at p w saved fs s c (write_and_read h p.steps fs)
        (write_and_read-Ends h omp_keeps p.steps fs)
  begun-BothUndone at p w (err failed, fs) u c = tt

  apply_plan-BothUndone :
      (at : String) (p : Plan) (w : World)
      → BothUndone h sha id p.profiles w (apply_plan h sha id at p w)
  unfolding apply_plan
  apply_plan-BothUndone at p w = by_refusal p.refusal
    where
      by_refusal :
          (refusal : Option Failure)
          → BothUndone h sha id p.profiles w (elim refusal [
            | some failed ↦ (err failed, w)
            | none ↦ begun h sha id at p w (backup h sha id p.profiles w.files)
          ])
      by_refusal (some failed) = tt
      by_refusal none =
          begun-BothUndone at p w (backup h sha id p.profiles w.files)
            (backup-IsSaved h sha id w.files w.files p.profiles (λ q n. refl))
            (λ gs. backup-CoversAll (SameBytes w.files gs) h sha id p.profiles w.files)

  module _ (grades : List Step → Grades) (sessions : List (ℕ × String)) where
    apply-BothUndone :
        (r : Registry) (at name : String) (profiles : List String) (target : Target) (force : Bool)
        (w : World)
        → BothUndone h sha id profiles w
            (apply h sha grades sessions r id at name profiles target force w)
    unfolding apply
    apply-BothUndone r at name profiles target force w =
        by_plan (plan h grades sessions r name profiles target force w.files) refl
      where
        by_plan :
            (planned : Result Plan)
            → plan h grades sessions r name profiles target force w.files ≡ planned
            → BothUndone h sha id profiles w
                (elim planned [ err failed ↦ (err failed, w) | ok p ↦ apply_plan h sha id at p w ])
        by_plan (err failed) e = tt
        by_plan (ok p) e =
            subst (λ ps. BothUndone h sha id ps w (apply_plan h sha id at p w))
              (plan-profiles h sha sha_injective can_write omp_keeps grades sessions r name profiles
                target force w.files p e)
              (apply_plan-BothUndone at p w)

    -- If omp leaves the backups alone, files can be written and the hash has no collision, then the
    -- rollback of an apply that returned also returns, and both files of every profile are as they
    -- were before the apply, byte for byte, and so is every entry of the applied record. At once this
    -- needs no force; with force it holds whatever has happened to the files since, as long as the
    -- backups are still there.
    pub rollback-apply :
        (r : Registry) (at name : String) (profiles : List String) (target : Target) (force : Bool)
        (w : World) (m : Manifest) (after : World)
        → apply h sha grades sessions r id at name profiles target force w ≡ (ok m, after)
        → IsUndone profiles w (rollback h sha id false after)
          × ((files : Files)
              → KeepsCopies after.files files
              → IsUndone profiles w (rollback h sha id true (with_files after files)))
    rollback-apply r at name profiles target force w m after e =
        subst (λ ended. BothUndone h sha id profiles w ended) e
          (apply-BothUndone r at name profiles target force w)

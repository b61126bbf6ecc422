-- ===== src/Presets/Apply/Atomic.antt =====
-- `apply` is atomic: it returns with every value read back, or it raises and the files of the profiles are as before.
use localbench.Base.{
  ℕ, String, Bool, true, Option, none, some, List, [], ◌∷◌, ◌≡◌, refl, ap, ◌∙◌, arith, subst,
}
use localbench.Presets.Host.{
  Failure, Result, err, ok, Place, agent_file, File, Files, bytes_of, Host,
}
use localbench.Presets.Backup.{Saved, hash_of, backup, restore, file_names}
use localbench.Presets.Backup.Copies.{
  Ends, All, All-map, IsSaved, Unchanged, Grows, Grows-IsSaved, SavesAll, backup-IsSaved,
}
use localbench.Presets.Backup.Covered.{CoversAll, backup-CoversAll}
use localbench.Presets.Backup.Restored.{IsBack, Restores, restore-IsBack}
use localbench.Presets.Apply.Writes.{KeepsCopies, OmpKeepsCopies, IsReadBack, write_and_read-Ends}
use localbench.Presets.Plan.{Plan, Step, plan, Target, Grades}
use localbench.Presets.Registry.{Registry}
use localbench.Presets.Apply.{
  write_and_read, undo, commit, settled, manifest_of, begun, apply_plan, apply,
}
use localbench.Presets.World.{Manifest, applied, World, filed}

-- A place holds the bytes that it held at the start.
abbrev pub SameBytes : Files → Files → String → String → Type 0
SameBytes start fs p n = bytes_of (fs (agent_file p n)) ≡ bytes_of (start (agent_file p n))

abbrev pub FilesAsBefore : List String → Files → Files → Type 0
FilesAsBefore profiles start fs = All (λ p. All (SameBytes start fs p) file_names) profiles

-- What `apply` leaves: every value is read back, or all is as before.
abbrev pub IsAtomic : Host → List String → World → Result Manifest × World → Type 0
IsAtomic h profiles w (ok m, after) =
    (m.status ≡ applied) × IsReadBack h m.planned.steps after.files
IsAtomic h profiles w (err failed, after) =
    FilesAsBefore profiles w.files after.files × (after.record_of ≡ w.record_of)

bytes_of-hash :
    (sha : String → String)
    → ((a b : String) → sha a ≡ sha b → a ≡ b)
    → (a b : Option File) → hash_of sha a ≡ hash_of sha b
    → bytes_of a ≡ bytes_of b
bytes_of-hash sha inj none none e = refl
bytes_of-hash sha inj (some a) (some b) e = ap some (inj a.bytes b.bytes (ground arith))
bytes_of-hash sha inj none (some b) e = ground arith
bytes_of-hash sha inj (some a) none e = ground arith

AsBefore-refl :
    (profiles : List String) (start fs : Files)
    → ((p n : String) → fs (agent_file p n) ≡ start (agent_file p n))
    → FilesAsBefore profiles start fs
AsBefore-refl [] start fs u = tt
AsBefore-refl (p ∷ ps) start fs u = (
  (ap bytes_of (u p "config.yml"), (ap bytes_of (u p "models.yml"), tt)),
  AsBefore-refl ps start fs u,
)

module _ (h : Host) (sha : String → String) (sha_injective : (a b : String) → sha a ≡ sha b → a ≡ b)
    (can_write : (p : Place) → Host.writable h p ≡ true) (omp_keeps : OmpKeepsCopies h) where
  pub restored_bytes :
      (id : String) (start fs : Files) (rs : List Saved)
      → All (IsSaved h sha id start fs) rs
      → (gs : Files) → All (λ r. IsBack h sha id start gs r.place) rs
      → All (λ r. SameBytes start gs r.profile r.name) rs
  restored_bytes id start fs [] s gs b = tt
  restored_bytes id start fs (r ∷ rs) s gs b = (
    subst (λ p. bytes_of (gs p) ≡ bytes_of (start p)) s.0.at_agent
        (bytes_of-hash sha sha_injective (gs r.place) (start r.place) b.0),
    restored_bytes id start fs rs s.1 gs b.1,
  )

  pub KeepsCopies-Grows :
      (id : String) (start fs gs : Files) → KeepsCopies fs gs → Grows h sha id start fs gs
  KeepsCopies-Grows id start fs gs k p n b = ap bytes_of (k id p n) ∙ b

  undo-IsAtomic :
      (failed : Failure) (m : Manifest) (p : Plan) (w v : World)
      → v.record_of ≡ w.record_of
      → (r : Result (List (String × String)) × Files)
      → Ends (λ _ gs. FilesAsBefore p.profiles w.files gs) (λ _. ⊥) r
      → IsAtomic h p.profiles w (undo h sha failed m v r)
  unfolding undo
  undo-IsAtomic failed m p w v same (ok restored, gs) e = (e, same)
  undo-IsAtomic failed m p w v same (err broken, gs) e = absurd e

  settled-IsAtomic :
      (id at : String) (p : Plan) (w : World) (saved : List Saved) (fs : Files)
      → SavesAll h sha id w.files w.files saved fs
      → ((gs : Files) → CoversAll (SameBytes w.files gs) p.profiles saved fs)
      → (r : Result (Unit {0}) × Files)
      → Ends (λ _ gs. KeepsCopies fs gs × IsReadBack h p.steps gs) (KeepsCopies fs) r
      → IsAtomic h p.profiles w (
          settled h sha at
            (manifest_of h sha id p saved w.record_of)
            (filed (manifest_of h sha id p saved w.record_of) (record w { files = fs }))
            r)
  unfolding commit
  settled-IsAtomic id at p w saved fs s c (ok _, gs) e = (refl, e.1)
  settled-IsAtomic id at p w saved fs s c (err failed, gs) e =
      undo-IsAtomic failed (manifest_of h sha id p saved w.record_of) p w _ refl
        (restore h sha saved gs)
        (by_restore (restore h sha saved gs)
          (restore-IsBack h sha id w.files can_write saved gs kept))
    where
      kept : All (IsSaved h sha id w.files gs) saved
      kept =
          All-map (IsSaved h sha id w.files fs) (IsSaved h sha id w.files gs) saved
            (λ r. Grows-IsSaved h sha id w.files fs gs r (KeepsCopies-Grows id w.files fs gs e)) s.0

      by_restore :
          (r : Result (List (String × String)) × Files)
          → Ends
              (λ _ hs.
                Restores h sha id w.files gs hs
                × All (λ q. IsBack h sha id w.files hs q.place) saved)
              (λ _. ⊥)
              r
          → Ends (λ _ hs. FilesAsBefore p.profiles w.files hs) (λ _. ⊥) r
      by_restore (ok labels, hs) b = c hs (restored_bytes id w.files gs saved kept hs b.1)
      by_restore (err broken, hs) b = b

  begun-IsAtomic :
      (id at : String) (p : Plan) (w : World)
      → (r : Result (List Saved) × Files)
      → Ends (SavesAll h sha id w.files w.files) (Unchanged h sha id w.files) r
      → ((gs : Files) → Ends (CoversAll (SameBytes w.files gs) p.profiles) (λ _. Unit {0}) r)
      → IsAtomic h p.profiles w (begun h sha id at p w r)
  begun-IsAtomic id at p w (ok saved, fs) s c =
      settled-IsAtomic id at p w saved fs s c (write_and_read h p.steps fs)
        (write_and_read-Ends h omp_keeps p.steps fs)
  begun-IsAtomic id at p w (err failed, fs) u c = (AsBefore-refl p.profiles w.files fs u, refl)

  pub apply_plan-IsAtomic :
      (id at : String) (p : Plan) (w : World) → IsAtomic h p.profiles w (apply_plan h sha id at p w)
  unfolding apply_plan
  apply_plan-IsAtomic id at p w = by_refusal p.refusal
    where
      by_refusal :
          (refusal : Option Failure)
          → IsAtomic h p.profiles w (elim refusal [
            | some failed ↦ (err failed, w)
            | none ↦ begun h sha id at p w (backup h sha id p.profiles w.files)
          ])
      by_refusal (some failed) = (AsBefore-refl p.profiles w.files w.files (λ q n. refl), refl)
      by_refusal none =
          begun-IsAtomic id at p w (backup h sha id p.profiles w.files)
            (backup-IsSaved h sha id w.files w.files p.profiles (λ q n. refl))
            (λ gs. backup-CoversAll (SameBytes w.files gs) h sha id p.profiles w.files)

  module _ (grades : List Step → Grades) (sessions : List (ℕ × String)) where
    pub plan-profiles :
        (r : Registry) (name : String) (profiles : List String) (target : Target) (force : Bool)
        (files : Files) (p : Plan)
        → plan h grades sessions r name profiles target force files ≡ ok p
        → p.profiles ≡ profiles
    unfolding plan
    plan-profiles r name profiles target force files p e = ground arith

    -- If omp leaves the backups alone, files can be written and the hash has no collision, then `apply`
    -- either returns with every value of the plan read back, or it raises with both files of every
    -- profile as they were, byte for byte, and the applied record too, wherever it failed.
    pub apply-IsAtomic :
        (r : Registry) (id at name : String) (profiles : List String) (target : Target)
        (force : Bool) (w : World)
        → IsAtomic h profiles w (apply h sha grades sessions r id at name profiles target force w)
    unfolding apply
    apply-IsAtomic r id at name profiles target force w =
        by_plan (plan h grades sessions r name profiles target force w.files) refl
      where
        by_plan :
            (planned : Result Plan)
            → plan h grades sessions r name profiles target force w.files ≡ planned
            → IsAtomic h profiles w
                (elim planned [ err failed ↦ (err failed, w) | ok p ↦ apply_plan h sha id at p w ])
        by_plan (err failed) e = (AsBefore-refl profiles w.files w.files (λ q n. refl), refl)
        by_plan (ok p) e =
            subst (λ ps. IsAtomic h ps w (apply_plan h sha id at p w))
              (plan-profiles r name profiles target force w.files p e)
              (apply_plan-IsAtomic id at p w)

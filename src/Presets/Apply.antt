-- ===== src/Presets/Apply.antt =====
-- `apply`, `rollback` and `drift` of localbench/presets.py. The manifests, the applied record and the audit log are
-- taken to be written; the writes of the profiles' files and of the backups may fail.
pub mod Atomic
pub mod Writes
use Prim.Native.Char.{code}
use Prim.Native.String
use localbench.Base.{
  ℕ, String, Bool, true, false, not, ◌&&◌, ◌||◌, Option, none, some, List, [], ◌∷◌, ◌++◌, map, ◌==◌,
  all, any, leb, eqb, if◌then◌else◌, get, put, select, delete, is_some,
}
use localbench.Presets.Values.{Value, value_eq, Expect, holds}
use localbench.Presets.Block.{managed, models_text}
use localbench.Presets.Host.{
  Failure, changed_since_plan, mismatch, bad_id, no_rollback, wrong_status, changed_since_apply,
  restored_after, restore_failed, Result, err, ok, ◌>>=◌, ◌>>◌, raise_if, File, Files, store,
  read_text, Host, path,
}
use localbench.Presets.Backup.{
  Saved, hash_of, same_hash, write, then_do, backup, restore, private, restored_file,
}
use localbench.Presets.World.{
  Entry, Status, applying, applied, rolled_back, restore_broken, Manifest, Applied, AuditRow, World,
  families, entry_of, logged, filed,
}
use localbench.Presets.Plan.{Target, Change, setting, provider_change, Step, Plan, plan, Grades}
use localbench.Presets.Registry.{Registry, family, is_in}

abbrev pub same_block : Option String → Option String → Bool
same_block none none = true
same_block (some a) (some b) = a == b
same_block a b = false

abbrev mode_or : Option File → ℕ
mode_or none = 384
mode_or (some f) = f.mode

module _ (h : Host) where
  open h use {omp_get, omp_set}

  -- The provider branch of the loop over the steps.
  unfoldable pub write_block :
      String → Option String → Option String → Files → Result (Unit {0}) × Files
  unfolding path
  write_block profile before after files =
      then_do (path h profile "models.yml", files)
        λ place fs.
          then_do (managed (read_text (fs place)), fs)
            λ found gs.
              if same_block found before
              then (then_do (models_text (read_text (gs place)) after, gs)
                  λ text hs. write h place (restored_file (mode_or (hs place)) text) hs)
              else (err (changed_since_plan profile), gs)

  abbrev pub called : Option Failure × Files → Result (Unit {0}) × Files
  called (none, files) = (ok tt, files)
  called (some failed, files) = (err failed, files)

  abbrev pub write_change : String → String → Change → Files → Result (Unit {0}) × Files
  write_change profile key (setting before after) files = called (omp_set profile key after files)
  write_change profile key (provider_change before after) files =
      write_block profile before after files

  unfoldable pub write_steps : List Step → Files → Result (Unit {0}) × Files
  unfolding write_block
  write_steps [] files = (ok tt, files)
  write_steps (s ∷ steps) files =
      then_do (if s.changed then write_change s.profile s.key s.change files else (ok tt, files))
        λ _ fs. write_steps steps fs

  -- Whether omp, or models.yml, reads back what the step writes.
  unfoldable pub reads_back : Step → Files → Result Bool
  unfolding path
  reads_back s files = elim s.change [
    | setting before after ↦ omp_get s.profile s.key files >>= λ actual. ok (value_eq actual after)
    | provider_change before after ↦ path h s.profile "models.yml" >>= λ place.
        managed (read_text (files place)) >>= λ actual. ok (same_block actual after)
  ]

  -- `_readback`
  unfoldable pub readback : List Step → Files → Result (List (String × String))
  unfolding reads_back
  readback [] files = ok []
  readback (s ∷ steps) files = do
    good ← reads_back s files
    rest ← readback steps files
    ok (if good then rest else (s.profile, s.key) ∷ rest)

  abbrev pub raise_mismatch : List (String × String) → Result (Unit {0})
  raise_mismatch [] = ok tt
  raise_mismatch bad = err (mismatch bad)

  -- The body of the `try`.
  unfoldable pub write_and_read : List Step → Files → Result (Unit {0}) × Files
  unfolding write_steps readback
  write_and_read steps files =
      then_do (write_steps steps files) λ _ fs. (readback steps fs >>= raise_mismatch, fs)

abbrev pub expected_of : String → List Step → List Expect
expected_of profile [] = []
expected_of profile (s ∷ steps) =
    let rest = expected_of profile steps in
    if s.profile == profile then s.expected ++ rest else rest

unfoldable pub record_applied : Plan → String → String → String → List String → Applied → Applied
record_applied p fam id at [] state = state
record_applied p fam id at (profile ∷ profiles) state = record_applied p fam id at profiles (
    put profile
      (put fam
        (record { preset = p.preset; id = id; at = at; expected = expected_of profile p.steps })
        (families profile state))
      state)

module _ (h : Host) (sha : String → String) where
  -- The handler of the `try`.
  unfoldable pub undo :
      Failure → Manifest → World → Result (List (String × String)) × Files → Result Manifest × World
  undo failed m w (err broken, files) = (
    err (restore_failed failed),
    logged "apply" m.id "restore_failed"
        (filed (record m { status = restore_broken }) (record w { files = files })),
  )
  undo failed m w (ok restored, files) = (
    err (restored_after failed),
    logged "apply" m.id "rolled-back"
        (filed (record m { status = rolled_back }) (record w { files = files })),
  )

  abbrev pub committed : Manifest → Files → Manifest
  committed m files = record m {
    status = applied;
    applied_sha = map (λ r. hash_of sha (files r.place)) m.saved;
  }

  unfoldable pub commit : String → Manifest → World → Manifest × World
  unfolding record_applied family
  commit at m w =
      let done = committed m w.files in
      let state =
        record_applied m.planned (family m.preset) m.id at m.planned.profiles w.record_of in
      (done, logged "apply" m.id "applied" (filed done (record w { record_of = state })))

  abbrev pub settled :
      String → Manifest → World → Result (Unit {0}) × Files → Result Manifest × World
  settled at m w (err failed, files) =
      undo failed m (record w { files = files }) (restore h sha m.saved files)
  settled at m w (ok _, files) =
      let (done, after) = commit at m (record w { files = files }) in (ok done, after)

  abbrev pub manifest_of : String → Plan → List Saved → Applied → Manifest
  manifest_of id p saved state = record {
    id = id;
    preset = p.preset;
    status = applying;
    planned = p;
    saved = saved;
    previous = map (λ profile. (profile, entry_of profile (family p.preset) state)) p.profiles;
    applied_sha = [];
  }

  abbrev pub begun :
      String → String → Plan → World → Result (List Saved) × Files → Result Manifest × World
  begun id at p w (err failed, files) = (err failed, record w { files = files })
  begun id at p w (ok saved, files) =
      let m = manifest_of id p saved w.record_of in
      settled at m (filed m (record w { files = files })) (write_and_read h p.steps files)

  -- `apply` after `plan`
  unfoldable pub apply_plan : String → String → Plan → World → Result Manifest × World
  unfolding backup undo commit restore write_and_read family
  apply_plan id at p w = elim p.refusal [
    | some failed ↦ (err failed, w)
    | none ↦ begun id at p w (backup h sha id p.profiles w.files)
  ]

module _ (h : Host) (sha : String → String) (grades : List Step → Grades)
    (sessions : List (ℕ × String)) where
  -- `apply`
  unfoldable pub apply :
      Registry
      → String
      → String
      → String
      → List String
      → Target
      → Bool
      → World
      → Result Manifest × World
  unfolding plan apply_plan
  apply r id at name profiles target force w =
      elim (plan h grades sessions r name profiles target force w.files) [
        | err failed ↦ (err failed, w)
        | ok p ↦ apply_plan h sha id at p w
      ]

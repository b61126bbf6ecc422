-- ===== src/Presets/Backup/Covered.antt =====
-- `_backup` saves both files of every profile: what holds of the entries holds of the files.
use localbench.Base.{String, List, [], ◌∷◌, ◌++◌, inl, inr, Bool-cases}
use localbench.Presets.Host.{Result, err, ok, backup_file, Files, Host, path}
use localbench.Presets.Backup.{
  Saved, copy_found, link_of, backup_one, backup_names, backup, file_names,
}
use localbench.Presets.Backup.Copies.{Ends, then_do-Ends, All}

abbrev Trivial : Files → Type 0
Trivial files = Unit

Ends-Trivial {ℓ} : {A : Type ℓ} (m : Result A × Files) → Ends (λ _ _. Unit {0}) Trivial m
Ends-Trivial (ok a, files) = tt
Ends-Trivial (err failed, files) = tt

module _ (Q : String → String → Type 0) where
  abbrev pub Holds : List Saved → Type 0
  Holds rs = All (λ r. Q r.profile r.name) rs

  Holds-append : (rs more : List Saved) → Holds (rs ++ more) → Holds rs × Holds more
  Holds-append [] more h = (tt, h)
  Holds-append (r ∷ rs) more h = let rest = Holds-append rs more h.1 in ((h.0, rest.0), rest.1)

  abbrev Names : String → String → Saved → Files → Type 0
  Names p n r files = Q r.profile r.name → Q p n

  abbrev Covers : String → List String → List Saved → Files → Type 0
  Covers p names rs files = Holds rs → All (Q p) names

  abbrev pub CoversAll : List String → List Saved → Files → Type 0
  CoversAll profiles rs files = Holds rs → All (λ p. All (Q p) file_names) profiles

  module _ (h : Host) (sha : String → String) (id : String) where
    backup_one-Names :
        (p n : String) (fs : Files) → Ends (Names p n) Trivial (backup_one h sha id p n fs)
    unfolding backup_one
    backup_one-Names p n fs =
        then_do-Ends (λ _ _. Unit {0}) (Names p n) Trivial (path h p n, fs) _
          (Ends-Trivial (path h p n, fs))
          λ place gs _. elim (Bool-cases (link_of (gs place))) [
            | inl linked ↦ rw linked tt
            | inr plain ↦ rw plain (
                then_do-Ends (λ _ _. Unit {0}) (Names p n) Trivial
                  (copy_found h sha (backup_file id p n) (gs place) gs) _ (Ends-Trivial _)
                  λ _ hs _ q. q)
          ]

    backup_names-Covers :
        (p : String) (names : List String) (fs : Files)
        → Ends (Covers p names) Trivial (backup_names h sha id p names fs)
    unfolding backup_names
    backup_names-Covers p [] fs = λ _. tt
    backup_names-Covers p (n ∷ names) fs =
        then_do-Ends (Names p n) (Covers p (n ∷ names)) Trivial (backup_one h sha id p n fs) _
          (backup_one-Names p n fs)
          λ r gs one.
            then_do-Ends (Covers p names) (Covers p (n ∷ names)) Trivial
              (backup_names h sha id p names gs) _ (backup_names-Covers p names gs)
              λ rs hs more q. (one q.0, more q.1)

    pub backup-CoversAll :
        (profiles : List String) (fs : Files)
        → Ends (CoversAll profiles) Trivial (backup h sha id profiles fs)
    unfolding backup
    backup-CoversAll [] fs = λ _. tt
    backup-CoversAll (p ∷ profiles) fs =
        then_do-Ends (Covers p file_names) (CoversAll (p ∷ profiles)) Trivial
          (backup_names h sha id p file_names fs) _ (backup_names-Covers p file_names fs)
          λ rs gs here.
            then_do-Ends (CoversAll profiles) (CoversAll (p ∷ profiles)) Trivial
              (backup h sha id profiles gs) _ (backup-CoversAll profiles gs)
              λ more hs there q.
                let (first, rest) = Holds-append rs more q in (here first, there rest)

-- ===== src/Presets/Apply/Writes.antt =====
-- The writes of `apply` leave the backups alone, and its `try` returns only if every value is read back.
use localbench.Base.{
  String, Bool, true, false, Option, none, some, List, [], ◌∷◌, ◌≡◌, refl, ◌∙◌, arith, inl, inr,
  Bool-cases, if◌then◌else◌,
}
use localbench.Presets.Values.{Value}
use localbench.Presets.Host.{
  Failure, Result, err, ok, ◌>>=◌, Place, agent_file, backup_file, File, Files, read_text, Host,
  path,
}
use localbench.Presets.Block.{managed, models_text}
use localbench.Presets.Backup.{write, then_do}
use localbench.Presets.Backup.Copies.{Ends, then_do-Ends}
use localbench.Presets.Plan.{Step, Change, setting, provider_change}
use localbench.Presets.Apply.{
  write_block, called, write_change, write_steps, readback, raise_mismatch, write_and_read,
  same_block,
}

abbrev pub KeepsCopies : Files → Files → Type 0
KeepsCopies fs gs = (i p n : String) → gs (backup_file i p n) ≡ fs (backup_file i p n)

KeepsCopies-trans : (fs gs hs : Files) → KeepsCopies fs gs → KeepsCopies gs hs → KeepsCopies fs hs
KeepsCopies-trans fs gs hs k l i p n = l i p n ∙ k i p n

-- omp writes the files of its profiles, and not the backups.
abbrev pub OmpKeepsCopies : Host → Type 0
OmpKeepsCopies h =
    (profile key : String) (value : Value) (fs : Files)
    → KeepsCopies fs (Host.omp_set h profile key value fs).1

-- No step has a mismatch.
abbrev pub IsReadBack : Host → List Step → Files → Type 0
IsReadBack h steps gs = readback h steps gs ≡ ok []

-- A call that only computes.
then_pure {ℓ} :
    {A B : Type ℓ} (fs : Files) (r : Result A) (k : A → Files → Result B × Files)
    → ((a : A) → r ≡ ok a → Ends (λ _ gs. KeepsCopies fs gs) (KeepsCopies fs) (k a fs))
    → Ends (λ _ gs. KeepsCopies fs gs) (KeepsCopies fs) (then_do (r, fs) k)
then_pure fs (ok a) k step = step a refl
then_pure fs (err failed) k step = λ i p n. refl

Ends-weaker {ℓ} :
    {A : Type ℓ} {P Q : Files → Type 0}
    → ((gs : Files) → P gs → Q gs)
    → (r : Result A × Files) → Ends (λ _ gs. P gs) P r
    → Ends (λ _ gs. Q gs) Q r
Ends-weaker f (ok a, gs) e = f gs e
Ends-weaker f (err failed, gs) e = f gs e

module _ (h : Host) (omp_keeps : OmpKeepsCopies h) where
  write-KeepsCopies :
      (profile name : String) (f : File) (fs : Files)
      → Ends (λ _ gs. KeepsCopies fs gs) (KeepsCopies fs) (write h (agent_file profile name) f fs)
  write-KeepsCopies profile name f fs =
      elim (Bool-cases (Host.writable h (agent_file profile name))) [
        | inl can ↦ rw can (λ i p n. refl)
        | inr not ↦ rw not (λ i p n. refl)
      ]

  path_place :
      (profile name : String) (place : Place)
      → path h profile name ≡ ok place
      → place ≡ agent_file profile name
  unfolding path
  path_place profile name place e = ground arith

  write_block-KeepsCopies :
      (profile : String) (before after : Option String) (fs : Files)
      → Ends (λ _ gs. KeepsCopies fs gs) (KeepsCopies fs) (write_block h profile before after fs)
  unfolding write_block
  write_block-KeepsCopies profile before after fs =
      then_pure fs (path h profile "models.yml") _ λ place found.
        then_pure fs (managed (read_text (fs place))) _ λ now _.
          elim (Bool-cases (same_block now before)) [
            | inr differs ↦ rw differs (λ i p n. refl)
            | inl agrees ↦ rw agrees (
                then_pure fs (models_text (read_text (fs place)) after) _ λ text _.
                  rw (path_place profile "models.yml" place found)
                    (write-KeepsCopies profile "models.yml" _ fs))
          ]

  write_change-KeepsCopies :
      (s : Step) (fs : Files)
      → Ends
          (λ _ gs. KeepsCopies fs gs)
          (KeepsCopies fs)
          (write_change h s.profile s.key s.change fs)
  write_change-KeepsCopies s fs = by_change s.change
    where
      by_call :
          (r : Option Failure × Files)
          → KeepsCopies fs r.1
          → Ends (λ _ gs. KeepsCopies fs gs) (KeepsCopies fs) (called h r)
      by_call (none, gs) k = k
      by_call (some failed, gs) k = k

      by_change :
          (c : Change)
          → Ends (λ _ gs. KeepsCopies fs gs) (KeepsCopies fs) (write_change h s.profile s.key c fs)
      by_change (setting before after) =
          by_call (Host.omp_set h s.profile s.key after fs) (omp_keeps s.profile s.key after fs)
      by_change (provider_change before after) = write_block-KeepsCopies s.profile before after fs

  write_step-KeepsCopies :
      (s : Step) (fs : Files) (changed : Bool)
      → Ends
          (λ _ gs. KeepsCopies fs gs)
          (KeepsCopies fs)
          (if changed then write_change h s.profile s.key s.change fs else (ok tt, fs))
  write_step-KeepsCopies s fs true = write_change-KeepsCopies s fs
  write_step-KeepsCopies s fs false = λ i p n. refl

  write_steps-KeepsCopies :
      (steps : List Step) (start fs : Files)
      → KeepsCopies start fs
      → Ends (λ _ gs. KeepsCopies start gs) (KeepsCopies start) (write_steps h steps fs)
  unfolding write_steps
  write_steps-KeepsCopies [] start fs k = k
  write_steps-KeepsCopies (s ∷ steps) start fs k =
      then_do-Ends (λ _ gs. KeepsCopies start gs) (λ _ gs. KeepsCopies start gs) (KeepsCopies start)
        (if s.changed then write_change h s.profile s.key s.change fs else (ok tt, fs)) _
        (Ends-weaker (λ gs. KeepsCopies-trans start fs gs k)
          (if s.changed then write_change h s.profile s.key s.change fs else (ok tt, fs))
          (write_step-KeepsCopies s fs s.changed))
        λ _ gs k'. write_steps-KeepsCopies steps start gs k'

  -- The body of the `try`.
  pub write_and_read-Ends :
      (steps : List Step) (fs : Files)
      → Ends
          (λ _ gs. KeepsCopies fs gs × IsReadBack h steps gs)
          (KeepsCopies fs)
          (write_and_read h steps fs)
  unfolding write_and_read
  write_and_read-Ends steps fs =
      then_do-Ends (λ _ gs. KeepsCopies fs gs) (λ _ gs. KeepsCopies fs gs × IsReadBack h steps gs)
        (KeepsCopies fs) (write_steps h steps fs) _
        (write_steps-KeepsCopies steps fs fs (λ i p n. refl))
        λ _ gs k. by_readback gs k (readback h steps gs) refl
    where
      by_readback :
          (gs : Files)
          → KeepsCopies fs gs
          → (r : Result (List (String × String))) → readback h steps gs ≡ r
          → Ends
              (λ _ gs. KeepsCopies fs gs × IsReadBack h steps gs)
              (KeepsCopies fs)
              (r >>= raise_mismatch h, gs)
      by_readback gs k (ok []) e = (k, e)
      by_readback gs k (ok (b ∷ bad)) e = k
      by_readback gs k (err failed) e = k

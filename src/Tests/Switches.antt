-- ===== src/Tests/Switches.antt =====
-- The presets of localbench/presets.py: runs of apply and rollback, and the theorems at concrete inputs.
use localbench.Base.{
  String, Bool, true, false, Option, none, some, List, [], ◌∷◌, ◌≡◌, refl, ◌==◌, if◌then◌else◌,
}
use localbench.Presets.Values.{
  Value, scalar, array, mapping, null, flag, num, str, expect, holds, Op, set_key, list_add,
  list_remove,
}
use localbench.Presets.Block.{provider_block, managed, models_text}
use localbench.Presets.Host.{
  Failure, omp_failed, Result, err, ok, ◌>>=◌, agent_file, backup_file, Files, store, read_text,
  Host,
}
use localbench.Presets.Plan.{test, fold_all}
use localbench.Presets.Registry.{Registry}
use localbench.Presets.Plan.Folded.{undisturbed, fold_all-holds}
use localbench.Presets.Backup.Copies.{All}
use localbench.Presets.Apply.Writes.{KeepsCopies, OmpKeepsCopies}
use localbench.Presets.Apply.{apply}
use localbench.Presets.World.{Manifest, restore_broken, World}
use localbench.Presets.Apply.Atomic.{IsAtomic, apply-IsAtomic}
use localbench.Presets.Rollback.{rollback, is_rollback_id}
use localbench.Presets.Rollback.Checked.{IsUndone, with_files}
use localbench.Presets.Rollback.Undone.{rollback-apply}

-- An omp whose config.yml holds one text.
abbrev written : String → Value → Files → Option Failure × Files
written profile (scalar (str s)) files = (
  none,
  store (agent_file profile "config.yml") (some (record { bytes = s; mode = 420; symlink = false }))
      files,
)
written profile v files = (some (omp_failed profile), files)

abbrev host : Host
host = record {
  home = "/h";
  resolve = λ path. path;
  writable = λ place. true;
  omp_get =
      λ profile key files. ok (scalar (str (read_text (files (agent_file profile "config.yml")))));
  omp_set = λ profile key value files. written profile value files;
}

abbrev registry : Registry
registry = record {
  presets =
      record {
        name = "think:high";
        is_local = false;
        ops = set_key "defaultThinkingLevel" (scalar (str "high")) ∷ [];
      }
      ∷ [];
  test_profiles = "lab" ∷ [];
}

abbrev low_file : Files
low_file place = elim place [
  | agent_file p n ↦
      if n == "config.yml"
      then some (record { bytes = "low"; mode = 420; symlink = false })
      else none
  | backup_file i p n ↦ none
]

abbrev world : World
world = record { files = low_file; manifests = []; record_of = []; audit = [] }

abbrev id : String
id = "20261001T000000Z-ab12"

abbrev run : Result Manifest × World
run =
    apply host (λ s. s) (λ steps. []) [] registry id "20261001T000001Z" "think:high" ("lab" ∷ [])
      test false world

abbrev is_ok {ℓ} : {A : Type ℓ} → Result A → Bool
is_ok (ok a) = true
is_ok (err failed) = false

applies : is_ok run.0 ≡ true
unfolding apply
applies = refl

writes : read_text (run.1.files (agent_file "lab" "config.yml")) ≡ "high"
unfolding apply
writes = refl

undoes :
    read_text ((rollback host (λ s. s) id false run.1).1.files (agent_file "lab" "config.yml"))
    ≡ "low"
unfolding apply rollback
undoes = refl

keeps : OmpKeepsCopies host
keeps profile key (scalar (str s)) fs i p n = refl
keeps profile key (scalar null) fs i p n = refl
keeps profile key (scalar (flag b)) fs i p n = refl
keeps profile key (scalar (num k)) fs i p n = refl
keeps profile key (array xs) fs i p n = refl
keeps profile key (mapping d) fs i p n = refl

valid : is_rollback_id id ≡ true
unfolding is_rollback_id
valid = refl

abbrev left : Manifest
left = elim run.0 [
  | ok m ↦ m
  | err failed ↦ record {
    id = "";
    preset = "";
    status = restore_broken;
    planned = record {
      preset = "";
      target = test;
      profiles = [];
      forced = none;
      refusal = none;
      steps = [];
      keeps_old = [];
    };
    saved = [];
    previous = [];
    applied_sha = [];
  }
]

run_returns : run ≡ (ok left, run.1)
unfolding apply
run_returns = refl

apply-IsAtomic_example : IsAtomic host ("lab" ∷ []) world (
    apply host
      (λ s. s)
      (λ steps. [])
      []
      registry
      id
      "20261001T000001Z"
      "think:high"
      ("lab" ∷ [])
      test
      false
      world)
apply-IsAtomic_example =
    apply-IsAtomic host (λ s. s) (λ a b e. e) (λ place. refl) keeps (λ steps. []) [] registry id
      "20261001T000001Z" "think:high" ("lab" ∷ []) test false world

rollback-apply_example :
    IsUndone ("lab" ∷ []) world (rollback host (λ s. s) id false run.1)
    × ((files : Files)
        → KeepsCopies run.1.files files
        → IsUndone ("lab" ∷ []) world (rollback host (λ s. s) id true (with_files run.1 files)))
rollback-apply_example =
    rollback-apply host (λ s. s) (λ a b e. e) (λ place. refl) keeps id valid (λ steps. []) []
      registry "20261001T000001Z" "think:high" ("lab" ∷ []) test false world left run.1 run_returns

abbrev ops : List Op
ops = list_add "task.disabledAgents" "a" ∷ list_remove "task.disabledAgents" "b" ∷ []

folded : fold_all ops (array (str "b" ∷ str "c" ∷ [])) ≡ some (array (str "c" ∷ str "a" ∷ []))
unfolding fold_all
folded = refl

free : undisturbed ops ≡ true
unfolding undisturbed
free = refl

fold_all-holds_example : All (λ op. holds (expect op) (array (str "c" ∷ str "a" ∷ [])) ≡ true) ops
fold_all-holds_example =
    fold_all-holds ops (array (str "b" ∷ str "c" ∷ [])) (array (str "c" ∷ str "a" ∷ [])) folded free

-- A models.yml with a provider of its own gets the block, and a new model replaces it.
abbrev models_yml : String
models_yml = "providers: # mine\n  other:\n    api: x\n"

abbrev added : Result String
added = models_text models_yml (some (provider_block "http://u" "m"))

reads_block : (added >>= managed) ≡ ok (some (provider_block "http://u" "m"))
unfolding models_text
reads_block = refl

removes_block : (added >>= λ t. models_text t none) ≡ ok models_yml
unfolding models_text
removes_block = refl

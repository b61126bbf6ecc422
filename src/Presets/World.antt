-- ===== src/Presets/World.antt =====
-- The state of localbench/presets.py: the files, the manifests of the backups, the applied record and the audit log.
use localbench.Base.{String, Option, none, some, List, [], ◌∷◌, ◌++◌, get, put}
use localbench.Presets.Values.{Expect}
use localbench.Presets.Host.{Files}
use localbench.Presets.Backup.{Saved}
use localbench.Presets.Plan.{Plan}

pub record Entry : Type 0 where
  pub preset : String
  pub id : String
  pub at : String
  pub expected : List Expect

pub data Status : Type 0 where
  applying applied rolled_back restore_broken : Status

pub record Manifest : Type 0 where
  pub id : String
  pub preset : String
  pub status : Status
  pub planned : Plan
  pub saved : List Saved
  pub previous : List (String × Option Entry)
  pub applied_sha : List (Option String)

-- profile -> family -> entry
abbrev pub Applied : Type 0
Applied = List (String × List (String × Entry))

pub record AuditRow : Type 0 where
  pub action : String
  pub id : String
  pub result : String

pub record World : Type 0 where
  pub files : Files
  pub manifests : List (String × Manifest)
  pub record_of : Applied
  pub audit : List AuditRow

abbrev pub families : String → Applied → List (String × Entry)
families profile state = elim (get profile state) [ none ↦ [] | some fams ↦ fams ]

abbrev pub entry_of : String → String → Applied → Option Entry
entry_of profile fam state = get fam (families profile state)

abbrev pub logged : String → String → String → World → World
logged action id result w = record w {
  audit = w.audit ++ record { action = action; id = id; result = result } ∷ [];
}

abbrev pub filed : Manifest → World → World
filed m w = record w { manifests = put m.id m w.manifests }

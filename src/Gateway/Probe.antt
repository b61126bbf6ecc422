-- ===== src/Gateway/Probe.antt =====
-- `ExternalActivityProbe.check` of localbench/gateway.py: whether a model may be unloaded, from the clients
-- of Ollama and the GPU time between two readings.
pub mod Closed
use localbench.Base.{
  ℕ, String, Bool, true, false, ◌||◌, Option, none, some, List, [], ◌∷◌, ◌==◌, any, if◌then◌else◌,
  holds, is_some,
}

pub record ClientConnection : Type 0 where
  pub pid : ℕ
  pub name : String
  pub port : ℕ

-- A row of `sysstats.gpu_share`: the process and the model that it serves, where they are known.
pub record GpuRow : Type 0 where
  pub name : Option String
  pub model : Option String

-- `G` is a reading of the GPU time by process.
pub record Probe (G : Type 0) : Type 0 where
  pub last_gpu : Option G
  pub last_at : ℕ

abbrev pub Answer : Type 0
Answer = Option Bool × Option String

abbrev unknown : String → Answer
unknown reason = (none, some reason)

abbrev unsafe : String → Answer
unsafe reason = (some false, some reason)

-- Rows of the model, or of the Ollama processes themselves.
abbrev pub is_active : String → List GpuRow → Bool
is_active model rows =
    any (λ r. holds r.model model) rows
    || any (λ r. holds r.name "ollama" || holds r.name "llama-server") rows

module _ {G : Type 0} (share : G → G → ℕ → ℕ → Option (List GpuRow)) where
  -- `share last after last_at now` is the GPU share between the readings, `none` where it raises.
  abbrev pub after_share : String → Option (List GpuRow) → Answer
  after_share model none = unknown "GPU activity telemetry is unavailable"
  after_share model (some rows) =
      if is_active model rows
      then unsafe "Ollama GPU activity was observed during the safety window"
      else (some true, none)

  abbrev pub after_reading : String → G → ℕ → Option G → ℕ → Answer
  after_reading model after now none last_at = unknown "GPU activity telemetry has no baseline"
  after_reading model after now (some last) last_at =
      after_share model (share last after last_at now)

  -- Without a reading the baseline is kept, and only the time moves on.
  abbrev pub idle_clients : String → Option G → ℕ → Probe G → Answer × Probe G
  idle_clients model none now p =
      (unknown "GPU activity telemetry is unavailable", record p { last_at = now })
  idle_clients model (some after) now p = (
    after_reading model after now p.last_gpu p.last_at,
    record p { last_gpu = some after; last_at = now },
  )

  -- `clients` and `reading` are `none` where `_clients` and the GPU reader raise.
  unfoldable pub check :
      String → Option (List ClientConnection) → Option G → ℕ → Probe G → Answer × Probe G
  check model none reading now p = (unknown "external-client activity telemetry is unavailable", p)
  check model (some (c ∷ cs)) reading now p = (
    unsafe "established non-gateway Ollama client connection remains",
    record { last_gpu = reading; last_at = now },
  )
  check model (some []) reading now p = idle_clients model reading now p

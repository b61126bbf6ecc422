-- ===== src/Tests/Reports.antt =====
-- The reports and the probe of localbench/gateway.py on small inputs.
use localbench.Base.{
  arith, ℕ, ◌*◌, String, true, false, Option, none, some, List, [], ◌∷◌, ◌≡◌, refl, eqb,
  if◌then◌else◌,
}
use localbench.Gateway.Store.{Store, PurposeStat, fresh, second, hour}
use localbench.Gateway.Reports.{PurposeTotal, purpose_report}
use localbench.Gateway.Reports.Totals.{IsTotalled, overlaps, sum-purpose_report}
use localbench.Gateway.Probe.{GpuRow, Probe, check}
use localbench.Gateway.Probe.Closed.{says_safe, is_evident, check-safe}

abbrev bucket : String → ℕ → ℕ → PurposeStat
bucket purpose start requests = record {
  profile = "main";
  purpose = purpose;
  bucket_start = start;
  requests = requests;
  busy_s = requests * second;
}

abbrev counted : Store
counted = record fresh {
  purpose_stats =
      bucket "title" 0 2
      ∷ bucket "main" 0 3
      ∷ bucket "title" hour 4
      ∷ bucket "title" (9 * hour) 1
      ∷ [];
}

abbrev total : String → ℕ → PurposeTotal
total purpose requests = record {
  profile = "main";
  purpose = purpose;
  requests = requests;
  busy_s = requests * second;
}

report_run : purpose_report 0 (2 * hour) counted ≡ total "main" 3 ∷ total "title" 6 ∷ []
unfolding purpose_report
report_run = refl

sum-purpose_report_example :
    IsTotalled "main" "title" (overlaps 0 (2 * hour)) (purpose_report 0 (2 * hour) counted) counted
sum-purpose_report_example = sum-purpose_report 0 (2 * hour) counted (omega arith) "main" "title"

-- A reading is the time of one process; it is active where the time has grown.
abbrev share : ℕ → ℕ → ℕ → ℕ → Option (List GpuRow)
share last after last_at now =
    if eqb after 0 then some [] else some (record { name = some "ollama"; model = none } ∷ [])

abbrev probe : Probe ℕ
probe = record { last_gpu = some 0; last_at = 0 }

safe_run : (check share "qwen" (some []) (some 0) 5 probe).0 ≡ (some true, none)
unfolding check
safe_run = refl

busy_run :
    (check share "qwen" (some []) (some 1) 5 probe).0
    ≡ (some false, some "Ollama GPU activity was observed during the safety window")
unfolding check
busy_run = refl

check-safe_example :
    says_safe (check share "qwen" (some []) (some 1) 5 probe).0
    ≡ is_evident share "qwen" (some []) (some 1) 5 probe
check-safe_example = check-safe share "qwen" (some []) (some 1) 5 probe

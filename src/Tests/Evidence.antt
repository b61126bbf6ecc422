-- ===== src/Tests/Evidence.antt =====
-- The response cache of localbench/response_cache.py and the watchdog of localbench/watchdog.py: runs, and
-- the theorems at concrete inputs.
use localbench.Base.{
  String, Bool, true, false, ◌&&◌, none, some, [], ◌∷◌, ◌≡◌, refl, arith, bytes, eqb, holds,
  all_codes, ◌==◌,
}
use localbench.Cache.{
  Bytes, KeyParts, parts_of, frame, to_bytes, Files, corrupt, document, replay_flags, Transport,
  is_bad_key, get_response, put_response,
}
use localbench.Cache.Frames.{AreShort, framed-parts_injective}
use localbench.Cache.Replay.{get-put_response}
use localbench.Watchdog.{
  GpuProc, rows, Sample, Target, run_watchdog, violations, foreign_models,
  expected_model_not_resident,
}
use localbench.Watchdog.Closed.{is_clean, is_valid_state, violations-closed}

abbrev parts : KeyParts
parts = record {
  request_bytes = bytes "ab";
  model_digest = bytes "c";
  backend_version = [];
  suite_pin = [];
  repeat_namespace = [];
  template_bytes = [];
}

frame_run : frame (bytes "ab") ≡ 0 ∷ 0 ∷ 0 ∷ 0 ∷ 0 ∷ 0 ∷ 0 ∷ 2 ∷ 97 ∷ 98 ∷ []
unfolding frame to_bytes
frame_run = refl

abbrev short_parts : AreShort (parts_of parts)
short_parts =
    (omega arith, (omega arith, (omega arith, (omega arith, (omega arith, (omega arith, tt))))))

framed-parts_injective_example : parts ≡ parts
framed-parts_injective_example = framed-parts_injective parts parts short_parts short_parts refl

abbrev key : String
key = "0123456789abcdef0123456789abcdef0123456789abcdef0123456789abcdef"

abbrev complete : Transport
complete = record { error_kind = none; timed_out = false; truncated = false }

abbrev answer : Bytes
answer = bytes "yes"

abbrev stored : Files
stored = (key, document 1 key true answer) ∷ []

put_run :
    put_response key answer complete true ((key, corrupt) ∷ [])
    ≡ (some true, (key, document 1 key true answer) ∷ [])
unfolding put_response is_bad_key all_codes
put_run = refl

get-put_response_example :
    ((complete.error_kind ≡ none) × (complete.timed_out ≡ false) × (complete.truncated ≡ false))
    × (get_response key stored
        ≡ some (record {
          body = answer;
          flags = record {
            cache_hit = true;
            latency_eligible = false;
            availability_eligible = false;
          };
        }))
    × ((j : String)
        → (key == j) ≡ false
        → get_response j stored ≡ get_response j ((key, corrupt) ∷ []))
get-put_response_example =
    get-put_response key answer complete true ((key, corrupt) ∷ []) stored put_run

get_run : get_response key stored ≡ some (record { body = answer; flags = replay_flags })
unfolding get_response is_bad_key all_codes
get_run = refl

abbrev target : Target
target = record { backend = "ollama"; models = "qwen" ∷ [] }

target_run : run_watchdog (target.backend ∷ target.models) "sha" ≡ some target
unfolding run_watchdog
target_run = refl

unpinned_run : run_watchdog (target.backend ∷ target.models) "" ≡ none
unfolding run_watchdog
unpinned_run = refl

abbrev runner : GpuProc
runner = record { pid = 7; name = "ollama"; cmd = "ollama serve"; pct = 90_000 }

abbrev sample : Sample
sample = record {
  resident = some (("ollama", some ("qwen" ∷ [])) ∷ []);
  gpu_procs = rows (runner ∷ []);
}

abbrev by_pid : GpuProc → Bool
by_pid r = eqb r.pid 7

abbrev any_proc : GpuProc → Bool
any_proc r = true

clean_run : violations by_pid any_proc target "sha" 25_000 (some "sha") sample ≡ []
unfolding violations foreign_models
clean_run = refl

evicted_run :
    violations by_pid any_proc target "sha" 25_000
      (some "sha")
      (record sample { resident = some (("ollama", some []) ∷ []) })
    ≡ expected_model_not_resident "qwen" ∷ []
unfolding violations foreign_models
evicted_run = refl

violations-closed_example :
    is_clean (violations by_pid any_proc target "sha" 25_000 (some "sha") sample) ≡ (
      is_valid_state by_pid any_proc target 25_000 sample.resident sample.gpu_procs
      && holds (some "sha") "sha")
violations-closed_example =
    violations-closed by_pid any_proc target "sha" 25_000 (some "sha") sample

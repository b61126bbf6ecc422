-- ===== src/Lib.antt =====
-- A model of localbench: the parts of the program that decide, and the theorems about them.
-- localbench measures local language models on one machine, and its gateway (localbench/gateway.py)
-- stands in front of the Ollama server: every inference request is admitted through it, so that a
-- model is unloaded when it is idle and only then, and so that a measurement can park a model. The
-- gateway keeps a SQLite ledger (`GatewayStore`), a maintenance loop sweeps it
-- (`GatewayPolicy.expire_due`), and commands fence models for a park.
-- The ledger is the record `Store` of Gateway/Store.antt: one list for each table, in insertion order,
-- one record type for each kind of row, and the two keys of `gateway_state` that the methods use. A
-- method that writes in one transaction is one function from a store to a store; one that raises
-- returns `err` with the error, and the store is then the one before the call. Times are natural
-- numbers of microseconds where the code has floats of seconds, so an infinite or NaN time is outside
-- the model. The texts of UUIDs, process ids and the clock are arguments. SQLite itself is taken to
-- execute each transaction alone.
-- Files:
--   Gateway/Store       the tables, the constants, the errors (gateway.py: `_initialize`)
--   Gateway/Admission   set_accepting, accepting, park_fence, fences (list_fences), acquire_park_fence,
--                       release_park_fence, set_profiles, start_request
--   Gateway/Completion  _evict_requests, finish_request, reconcile_abandoned_requests, mark_first_byte,
--                       refuse_request
--   Gateway/Residency   set_manual_lease, clear_manual_lease, active_requests, claim_due, mark_result,
--                       mark_unmanaged, lease, recover_instance, recover_stale
--   Gateway/Policy      GatewayPolicy.expire_due, with the probe and Ollama as the record `Backend`
--   Gateway/Safety      the operations as a step relation and what every reachable ledger satisfies
--   Gateway/Routes      route_request, _clef_route, the lookups of _dispatch, auxiliary_purpose,
--                       capture_matches
--   Gateway/Relay       the loop over the chunks of a response in _send_upstream
--   Gateway/Handler     _send_upstream with the semaphores of GatewayHTTPServer: `handle` up to the
--                       forwarding, `complete` for the finally blocks
--   Gateway/Reports     profile_paths, requests_report, leases, purpose_report
--   Gateway/Probe       ExternalActivityProbe.check
--   Golden/Pins         the pins of localbench/golden.py: tier_keys, golden_tier_pins, tier_diff, pin_diff,
--                       attach_splash, stored_pin_block
--   Golden/Document     tiers_of, merge and compare
--   Golden/Arms         arm_pin_drift, load_balance, and the verdict of a row of ab_table (`ab_verdict`)
--   ProofQueue          localbench/proofqueue.py: Marker (render, parse_marker), Planned (plan),
--                       Applied (apply, with its errors as the value `err`)
--   Cache               localbench/response_cache.py
--   Watchdog            localbench/watchdog.py (`run_watchdog` is the constructor), with foreign_models and
--                       classify of localbench/sysstats.py
--   Presets/Values      the settings, ops and expectations of localbench/presets.py: _fold, _expect, _holds
--   Presets/Host        _agent_dir, _path, the files, and omp
--   Presets/Block       provider_block, _managed, _models_text
--   Presets/Registry    _check, load, find, family
--   Presets/Plan        plan
--   Presets/Backup      _backup, _restore, _atomic_write, _sha
--   Presets/World       the manifests, the applied record and the audit log
--   Presets/Apply       apply, _readback
--   Presets/Rollback    rollback, drift
--   Quiet               localbench/quiet.py: plan_pause, pause, plan_resume, resume
--   Evaluation/Paths    the paths of pathlib: relative_to and the joining of paths
--   Evaluation/Evidence what a campaign of localbench/evaluation.py keeps, and its errors
--   Evaluation/Campaign record_case, completed_case, write_scores
--   Evaluation/Manifest create and open
--   Evaluation/Json     the JSON values that the grader reads
--   Evaluation/Trial    make_varied_spec (Made) and score_varied_trial: Paths, Scan and Events (the loop
--                       over the output) and Score
--   Stats               holm_reject of localbench/stats.py
--   Heavyslot/Admission readings and admission of localbench/heavyslot.py
--   Heavyslot/Slot      _take, Slot.release and holder over the processes of a machine
--   Heavyslot/Queue     the tickets and one pass of the loop of acquire (`attempt`)
--   Base                the operations on tables, keys, texts and bytes, and lemmas on them
--   Tests               runs on small inputs
-- The heavy-job slot (localbench/heavyslot.py) lets one GPU-heavy job run at a time on the machine. A
-- process that holds the flock keeps a count in memory; `World` has the flock, the owner file, the
-- history and the counts of all processes, and a process may end at any step. A percentage is a number
-- of thousandths, and a sensor value that the code rejects is `unreadable`. A problem of admission is
-- a constructor where the code formats a text.
-- A golden (localbench/golden.py) holds the values that a later run is compared with, and the pins of
-- the generation that they were measured under. Values and tolerances are numbers of ten-thousandths,
-- and the comparison is exact where the code rounds floats; pins are texts, and a missing key reads as
-- None. The response cache keeps documents by the hash of its framed inputs; the hash is a parameter.
-- The watchdog judges each sample of a run.
-- A preset (localbench/presets.py) switches settings of omp in the files of its profiles. A place is a
-- file of an agent directory or of a backup; omp may do anything to the files but to the backups, and
-- a call of it may fail after it has written. A setting is a scalar, a list of scalars or a mapping to
-- scalars, and deeper values are outside the model; the hash is a parameter without collisions. The
-- grades of the features that a live preset needs are a parameter, since the feature map is not
-- modelled. The manifests, the applied record and the audit log are taken to be written. A machine of
-- localbench/quiet.py has processes that start, end and reuse pids at any step. The p-values of
-- `holm_reject` are whole numbers of parts of one.
-- An evaluation campaign (localbench/evaluation.py) keeps a record for each finished case, with the
-- hashes of its traces, and one score document for each scorer. `Disk` has the links and the regular
-- files of the machine, which may change at any step, and the files of cases/ and scores/; a write
-- fails before or after it replaces the file. The hashes, the JSON text of a score document, and the
-- identity with its equality are parameters. A run directory in a record that is no text is outside
-- the model, and the hashes of a record are checked in the order in which they were recorded. A varied
-- trial is graded from the lines of the output of omp, each given as the JSON value that it holds; a
-- number with a fraction has no value in the model, and a wall time is only tested.
-- Each loop of the code is a recursion on the list that it goes through, so none needs fuel. The
-- process table (`_pid_alive`), the decimal text of a process id, the activity probe and Ollama are
-- parameters.
-- Not modelled: the sockets and headers of the HTTP server, launchd, the migrations of an older
-- database, the reports of past requests, the statistics over floats, and the rest of the package:
-- measurement, the feature map, decision models and the command line.
pub mod Base
pub mod Cache
pub mod Evaluation
pub mod Gateway
pub mod Golden
pub mod Heavyslot
pub mod Presets
pub mod ProofQueue
pub mod Quiet
pub mod Stats
pub mod Tests
pub mod Watchdog

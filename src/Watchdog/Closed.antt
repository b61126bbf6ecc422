-- ===== src/Watchdog/Closed.antt =====
-- The watchdog of localbench/watchdog.py fails closed: what a sample must show.
use localbench.Base.{
  ℕ, String, Bool, true, false, not, ◌&&◌, Option, none, some, List, [], ◌∷◌, ◌++◌, ◌==◌, ◌≡◌, refl,
  arith, any, all, select, map, if◌then◌else◌, holds, get, Bool-cases, inl, inr,
}
use localbench.Watchdog.{
  Resident, GpuProc, GpuState, absent, malformed, rows, Sample, Violation, Target, is_among,
  foreign_models, server_violations, resident_violations, sha_violations, is_foreign_client,
  gpu_violations, violations, expected_model_not_resident, residency_unknown, has_unknown,
  foreign_violation, client_violation,
}

abbrev pub is_clean : List Violation → Bool
is_clean [] = true
is_clean (v ∷ vs) = false

clean-append : (us vs : List Violation) → is_clean (us ++ vs) ≡ (is_clean us && is_clean vs)
clean-append [] vs = refl
clean-append (u ∷ us) vs = refl

-- Every server answered with models of the target only.
abbrev pub is_only : List String → String × Option (List String) → Bool
is_only ours (server, none) = false
is_only ours (server, some names) = all (is_among ours) names

abbrev pub serves : List String → Option (Option (List String)) → Bool
serves models (some (some server_models)) = all (is_among server_models) models
serves models _ = false

expected-clean :
    (server_models models : List String)
    → is_clean
        (map expected_model_not_resident (select (λ m. not (is_among server_models m)) models))
      ≡ all (is_among server_models) models
expected-clean server_models [] = refl
expected-clean server_models (m ∷ ms) = elim (Bool-cases (is_among server_models m)) [
  | inl there ↦ rw there (expected-clean server_models ms)
  | inr missing ↦ rw missing refl
]

server-clean :
    (t : Target) (o : Option (Option (List String)))
    → is_clean (server_violations t o) ≡ serves t.models o
server-clean t none = refl
server-clean t (some none) = refl
server-clean t (some (some server_models)) = expected-clean server_models t.models

any-not : (p : String → Bool) (ns : List String) → any (λ n. not (p n)) ns ≡ not (all p ns)
any-not p [] = refl
any-not p (n ∷ ns) = ground (arith, any-not p ns)

-- The servers that answered name only models of the target.
abbrev is_known_only : List String → String × Option (List String) → Bool
is_known_only ours (server, none) = true
is_known_only ours (server, some names) = all (is_among ours) names

foreign-clean :
    (ours : List String) (r : Resident)
    → is_clean (foreign_violation (foreign_models ours r)) ≡ all (is_known_only ours) r
unfolding foreign_models
foreign-clean ours [] = refl
foreign-clean ours ((server, none) ∷ rest) = foreign-clean ours rest
foreign-clean ours ((server, some names) ∷ rest) = elim (Bool-cases (all (is_among ours) names)) [
  | inl only ↦ rw (any-not (is_among ours) names, only) (foreign-clean ours rest)
  | inr foreign ↦ rw (any-not (is_among ours) names, foreign) refl
]

known-only :
    (ours : List String) (r : Resident)
    → (not (has_unknown r) && all (is_known_only ours) r) ≡ all (is_only ours) r
known-only ours [] = refl
known-only ours ((server, none) ∷ rest) = refl
known-only ours ((server, some names) ∷ rest) = ground (arith, known-only ours rest)

unknown-clean :
    (r : Resident)
    → is_clean (if has_unknown r then residency_unknown ∷ [] else []) ≡ not (has_unknown r)
unknown-clean r = elim (Bool-cases (has_unknown r)) [
  | inl unknown ↦ rw unknown refl
  | inr known ↦ rw known refl
]

client-clean :
    (q : GpuProc → Bool) (procs : List GpuProc)
    → is_clean (client_violation (select q procs)) ≡ not (any q procs)
client-clean q [] = refl
client-clean q (r ∷ rs) = elim (Bool-cases (q r)) [
  | inl foreign ↦ rw foreign refl
  | inr ours ↦ rw ours (client-clean q rs)
]

sha-clean :
    (wanted : String) (o : Option String) → is_clean (sha_violations wanted o) ≡ holds o wanted
sha-clean wanted none = refl
sha-clean wanted (some current) = elim (Bool-cases (current == wanted)) [
  | inl same ↦ rw same refl
  | inr other ↦ rw other refl
]

module _ (is_ours is_inference : GpuProc → Bool) where
  -- The sample shows all that a valid run needs.
  abbrev pub is_valid_state : Target → ℕ → Option Resident → GpuState → Bool
  is_valid_state t max_pct (some resident) (rows procs) =
      all (is_only t.models) resident
      && serves t.models (get t.backend resident)
      && not (any (is_foreign_client is_ours is_inference max_pct) procs)
  is_valid_state t max_pct _ _ = false

  state-clean :
      (t : Target) (max_pct : ℕ) (o : Option Resident) (g : GpuState)
      → (is_clean (resident_violations t o)
          && is_clean (gpu_violations is_ours is_inference t max_pct o g))
        ≡ is_valid_state t max_pct o g
  state-clean t max_pct none g = refl
  state-clean t max_pct (some r) absent = ground arith
  state-clean t max_pct (some r) malformed = ground arith
  state-clean t max_pct (some r) (rows procs) =
      let server = server_violations t (get t.backend r) in
      let foreign = foreign_violation (foreign_models t.models r) in
      ground (
        arith,
        clean-append (if has_unknown r then residency_unknown ∷ [] else []) server,
        clean-append foreign
            (client_violation (select (is_foreign_client is_ours is_inference max_pct) procs)),
        unknown-clean r,
        server-clean t (get t.backend r),
        foreign-clean t.models r,
        known-only t.models r,
        client-clean (is_foreign_client is_ours is_inference max_pct) procs,
      )

  -- A sample has no violation exactly if every server answered with models of the target only, the target's
  -- server serves each of them, the GPU processes are known and none of another model server is above its
  -- limit, and the omp binary has the pinned hash. Whatever cannot be read is a violation.
  pub violations-closed :
      (t : Target) (expected_omp_sha : String) (max_pct : ℕ) (current_sha : Option String)
      (sample : Sample)
      → is_clean (violations is_ours is_inference t expected_omp_sha max_pct current_sha sample) ≡ (
          is_valid_state t max_pct sample.resident sample.gpu_procs
          && holds current_sha expected_omp_sha)
  unfolding violations
  violations-closed t expected_omp_sha max_pct current_sha sample =
      let resident = resident_violations t sample.resident in
      let gpu = gpu_violations is_ours is_inference t max_pct sample.resident sample.gpu_procs in
      let sha = sha_violations expected_omp_sha current_sha in
      ground (
        arith,
        clean-append (resident ++ gpu) sha,
        clean-append resident gpu,
        clean-append resident (gpu ++ sha),
        clean-append gpu sha,
        state-clean t max_pct sample.resident sample.gpu_procs,
        sha-clean expected_omp_sha current_sha,
      )

-- ===== src/Gateway/Probe/Closed.antt =====
-- The probe of localbench/gateway.py calls an unload safe only on full evidence.
use localbench.Base.{
  ℕ, String, Bool, false, not, Option, none, some, List, [], ◌∷◌, ◌≡◌, ◌&&◌, holds, all, arith,
  refl, Bool-cases, Option-cases, inl, inr,
}
use localbench.Gateway.Probe.{
  ClientConnection, GpuRow, Probe, Answer, is_active, after_share, check,
}

abbrev pub says_safe : Answer → Bool
says_safe (some safe, reason) = safe
says_safe (none, reason) = false

-- A row of another model, and of neither of the two programs of Ollama.
abbrev pub is_other_row : String → GpuRow → Bool
is_other_row model r =
    not (holds r.model model) && (not (holds r.name "ollama") && not (holds r.name "llama-server"))

abbrev pub is_idle : String → Option (List GpuRow) → Bool
is_idle model none = false
is_idle model (some rows) = all (is_other_row model) rows

all-other_row :
    (model : String) (rows : List GpuRow)
    → not (is_active model rows) ≡ all (is_other_row model) rows
all-other_row model [] = refl
all-other_row model (r ∷ rows) = ground (arith, all-other_row model rows)

module _ {G : Type 0} (share : G → G → ℕ → ℕ → Option (List GpuRow)) where
  -- The evidence: the clients are listed and there are none, two readings of the GPU are there, and the
  -- share between them shows neither the model nor Ollama.
  abbrev pub is_evident : String → Option (List ClientConnection) → Option G → ℕ → Probe G → Bool
  is_evident model (some []) (some after) now p = elim p.last_gpu [
    | none ↦ false
    | some last ↦ is_idle model (share last after p.last_at now)
  ]
  is_evident _ _ _ _ _ = false

  share-safe :
      (model : String) (o : Option (List GpuRow))
      → says_safe (after_share share model o) ≡ is_idle model o
  share-safe model none = refl
  share-safe model (some rows) = elim (Bool-cases (is_active model rows)) [
    | inl active ↦ ground (arith, active, all-other_row model rows)
    | inr idle ↦ ground (arith, idle, all-other_row model rows)
  ]

  -- The probe answers that an unload is safe exactly if the clients of Ollama were listed and there is none, the
  -- GPU time was read before and now, the share between the two readings was found, and every row of it is of
  -- another model than this one and is neither ollama nor llama-server. What cannot be read is never safe.
  pub check-safe :
      (model : String) (clients : Option (List ClientConnection)) (reading : Option G) (now : ℕ)
      (p : Probe G)
      → says_safe (check share model clients reading now p).0
        ≡ is_evident model clients reading now p
  unfolding check
  check-safe model none reading now p = refl
  check-safe model (some (c ∷ cs)) reading now p = refl
  check-safe model (some []) none now p = refl
  check-safe model (some []) (some after) now p = elim (Option-cases p.last_gpu) [
    | inl missing ↦ rw missing refl
    | inr (last, there) ↦ rw there (share-safe model (share last after p.last_at now))
  ]

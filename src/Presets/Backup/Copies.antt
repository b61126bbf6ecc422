-- ===== src/Presets/Backup/Copies.antt =====
-- What `_backup` saves: every entry holds the hash of its file, and the copy holds its bytes. The agent files stay.
use localbench.Base.{
  String, true, ◌||◌, Option, none, some, List, [], ◌∷◌, ◌++◌, ◌==◌, ◌≡◌, refl, sym, ap, ◌∙◌, arith,
  inl, inr, Bool-cases, eq_iff, eq_refl,
}
use localbench.Presets.Host.{
  Result, err, ok, Place, agent_file, backup_file, File, Files, is_file, bytes_of, Host, path,
}
use localbench.Presets.Backup.{
  Saved, hash_of, then_do, saved_of, copy_found, link_of, backup_one, backup_names, backup,
  file_names,
}

-- How a call ends: what holds after a value, and what holds after an exception.
abbrev pub Ends {ℓ} :
    {A : Type ℓ} → (A → Files → Type 0) → (Files → Type 0) → Result A × Files → Type 0
Ends P Q (ok a, files) = P a files
Ends P Q (err failed, files) = Q files

pub then_do-Ends {ℓ} :
    {A B : Type ℓ} (P : A → Files → Type 0) (P' : B → Files → Type 0) (Q : Files → Type 0)
    (m : Result A × Files) (k : A → Files → Result B × Files)
    → Ends P Q m
    → ((a : A) (fs : Files) → P a fs → Ends P' Q (k a fs))
    → Ends P' Q (then_do m k)
then_do-Ends P P' Q (ok a, fs) k h step = step a fs h
then_do-Ends P P' Q (err failed, fs) k h step = h

abbrev pub All {ℓ κ} : {A : Type ℓ} → (A → Type κ) → List A → Type κ
All P [] = Unit
All P (x ∷ xs) = P x × All P xs

pub All-append {ℓ κ} :
    {A : Type ℓ} (P : A → Type κ) (xs ys : List A) → All P xs → All P ys → All P (xs ++ ys)
All-append P [] ys h k = k
All-append P (x ∷ xs) ys h k = (h.0, All-append P xs ys h.1 k)

pub All-map {ℓ κ μ} :
    {A : Type ℓ} (P : A → Type κ) (Q : A → Type μ) (xs : List A)
    → ((x : A) → P x → Q x)
    → All P xs
    → All Q xs
All-map P Q [] f h = tt
All-map P Q (x ∷ xs) f h = (f x h.0, All-map P Q xs f h.1)

module _ (h : Host) (sha : String → String) (id : String) (start : Files) where
  -- The copy of a file holds its bytes.
  abbrev pub Backed : Files → String → String → Type 0
  Backed fs p n = bytes_of (fs (backup_file id p n)) ≡ bytes_of (start (agent_file p n))

  abbrev pub Unchanged : Files → Type 0
  Unchanged fs = (p n : String) → fs (agent_file p n) ≡ start (agent_file p n)

  pub record IsSaved (fs : Files) (r : Saved) : Type 0 where
    pub placed : path h r.profile r.name ≡ ok r.place
    pub named : (r.name == "config.yml" || r.name == "models.yml") ≡ true
    pub at_agent : r.place ≡ agent_file r.profile r.name
    pub hashed : r.sha256 ≡ hash_of sha (start r.place)
    pub found : r.existed ≡ is_file (start r.place)
    pub copied_to : r.backup ≡ backup_file id r.profile r.name
    pub copied : r.existed ≡ true → Backed fs r.profile r.name

  abbrev pub Grows : Files → Files → Type 0
  Grows fs gs = (p n : String) → Backed fs p n → Backed gs p n

  pub Grows-IsSaved : (fs gs : Files) (r : Saved) → Grows fs gs → IsSaved fs r → IsSaved gs r
  Grows-IsSaved fs gs r g s = record {
    placed = s.placed;
    named = s.named;
    at_agent = s.at_agent;
    hashed = s.hashed;
    found = s.found;
    copied_to = s.copied_to;
    copied = λ e. g r.profile r.name (s.copied e);
  }

  path-eq :
      (profile name : String) (place : Place)
      → path h profile name ≡ ok place
      → place ≡ agent_file profile name
  unfolding path
  path-eq profile name place e = ground arith

  -- What one copy does: the agent files stay, the copies that held stay, and the new one holds.
  abbrev Copied : Files → Place → String → String → Files → Type 0
  Copied fs place p n gs =
      Unchanged gs × Grows fs gs × (is_file (start (agent_file p n)) ≡ true → Backed gs p n)

  copy_found-Copied :
      (fs : Files) (p n : String)
      → Unchanged fs
      → (found : Option File) → found ≡ start (agent_file p n)
      → Ends
          (λ _ gs. Copied fs (agent_file p n) p n gs)
          Unchanged
          (copy_found h sha (backup_file id p n) found fs)
  copy_found-Copied fs p n u none e = (u, (λ q m b. b), λ t. cc (ap is_file e))
  copy_found-Copied fs p n u (some f) e = elim (Bool-cases (Host.writable h (backup_file id p n))) [
    | inl w ↦ rw w (
      u,
      (λ q m b. ground (arith, e, eq_iff p q, eq_iff n m, ap bytes_of e)),
      λ t. ground (arith, eq_refl p, eq_refl n, eq_refl id, ap bytes_of e),
    )
    | inr w ↦ rw w u
  ]

  saved_of-IsSaved :
      (fs gs : Files) (p n : String)
      → fs (agent_file p n) ≡ start (agent_file p n)
      → path h p n ≡ ok (agent_file p n)
      → (n == "config.yml" || n == "models.yml") ≡ true
      → (is_file (start (agent_file p n)) ≡ true → Backed gs p n)
      → IsSaved gs (saved_of h sha id p n (agent_file p n) (fs (agent_file p n)))
  saved_of-IsSaved fs gs p n u placed named copied = record {
    placed = placed;
    named = named;
    at_agent = refl;
    hashed = ap (hash_of sha) u;
    found = ap is_file u;
    copied_to = refl;
    copied = λ e. copied (sym (ap is_file u) ∙ e);
  }

  abbrev IsPlaced : Files → String → String → Place → Files → Type 0
  IsPlaced fs p n place gs =
      (place ≡ agent_file p n) × (path h p n ≡ ok (agent_file p n)) × (gs ≡ fs)

  path-Ends :
      (fs : Files) (p n : String)
      → Unchanged fs
      → (r : Result Place) → path h p n ≡ r
      → Ends (IsPlaced fs p n) Unchanged (r, fs)
  path-Ends fs p n u (ok place) e = (path-eq p n place e, e ∙ ap ok (path-eq p n place e), refl)
  path-Ends fs p n u (err failed) e = u

  abbrev SavesOne : Files → Saved → Files → Type 0
  SavesOne fs r gs = IsSaved gs r × Unchanged gs × Grows fs gs

  abbrev pub SavesAll : Files → List Saved → Files → Type 0
  SavesAll fs rs gs = All (IsSaved gs) rs × Unchanged gs × Grows fs gs

  backup_one-IsSaved :
      (fs : Files) (p n : String)
      → Unchanged fs
      → (n == "config.yml" || n == "models.yml") ≡ true
      → Ends (SavesOne fs) Unchanged (backup_one h sha id p n fs)
  unfolding backup_one
  backup_one-IsSaved fs p n u named =
      then_do-Ends (IsPlaced fs p n) (SavesOne fs) Unchanged (path h p n, fs) _
        (path-Ends fs p n u (path h p n) refl)
        λ place gs (e, placed, g). rw g (
          rw e (elim (Bool-cases (link_of (fs (agent_file p n)))) [
            | inl linked ↦ rw linked u
            | inr plain ↦ rw plain (
                then_do-Ends (λ _ gs. Copied fs (agent_file p n) p n gs) (SavesOne fs) Unchanged
                  (copy_found h sha (backup_file id p n) (fs (agent_file p n)) fs) _
                  (copy_found-Copied fs p n u (fs (agent_file p n)) (u p n))
                  λ _ gs c. (saved_of-IsSaved fs gs p n (u p n) placed named c.2, c.0, c.1))
          ]))

  -- A call after which the rest saves more.
  SavesAll-after :
      (fs gs hs : Files) (rs more : List Saved)
      → SavesAll fs rs gs
      → SavesAll gs more hs
      → SavesAll fs (rs ++ more) hs
  SavesAll-after fs gs hs rs more (saved, u, g) (rest, u', g') = (
    All-append (IsSaved hs) rs more
        (All-map (IsSaved gs) (IsSaved hs) rs (λ r. Grows-IsSaved gs hs r g') saved) rest,
    u',
    λ p n b. g' p n (g p n b),
  )

  backup_names-IsSaved :
      (fs : Files) (p : String) (names : List String)
      → Unchanged fs
      → All (λ n. (n == "config.yml" || n == "models.yml") ≡ true) names
      → Ends (SavesAll fs) Unchanged (backup_names h sha id p names fs)
  unfolding backup_names
  backup_names-IsSaved fs p [] u named = (tt, u, λ q n b. b)
  backup_names-IsSaved fs p (n ∷ names) u named =
      then_do-Ends (SavesOne fs) (SavesAll fs) Unchanged (backup_one h sha id p n fs) _
        (backup_one-IsSaved fs p n u named.0)
        λ r gs s.
          then_do-Ends (SavesAll gs) (SavesAll fs) Unchanged (backup_names h sha id p names gs) _
            (backup_names-IsSaved gs p names s.1 named.1)
            λ rs hs rest. SavesAll-after fs gs hs (r ∷ []) rs ((s.0, tt), s.1, s.2) rest

  pub backup-IsSaved :
      (fs : Files) (profiles : List String)
      → Unchanged fs
      → Ends (SavesAll fs) Unchanged (backup h sha id profiles fs)
  unfolding backup
  backup-IsSaved fs [] u = (tt, u, λ q n b. b)
  backup-IsSaved fs (p ∷ profiles) u =
      then_do-Ends (SavesAll fs) (SavesAll fs) Unchanged (backup_names h sha id p file_names fs) _
        (backup_names-IsSaved fs p file_names u (refl, (refl, tt)))
        λ rs gs s.
          then_do-Ends (SavesAll gs) (SavesAll fs) Unchanged (backup h sha id profiles gs) _
            (backup-IsSaved gs profiles s.1) λ more hs rest. SavesAll-after fs gs hs rs more s rest

-- ===== src/Presets/Backup/Restored.antt =====
-- What `_restore` puts back: from intact copies it returns, and every saved file has the bytes that it had.
use localbench.Base.{
  String, Bool, true, false, Option, none, some, List, [], ◌∷◌, ◌≡◌, refl, sym, ap, ◌∙◌, arith, inl,
  inr, Bool-cases, if◌then◌else◌, eq_iff, eq_refl, subst,
}
use localbench.Presets.Host.{ok, Place, same, same_iff, File, Files, store, is_file, bytes_of, Host}
use localbench.Presets.Backup.{
  Saved, hash_of, same_hash, write_backup, remove, put_back, restore_one, restore_each,
  check_entries, restore, restored_file,
}
use localbench.Presets.Backup.Copies.{
  Ends, then_do-Ends, All, All-map, IsSaved, Grows, Grows-IsSaved,
}

same_hash_iff : (a b : Option String) → same_hash a b ≡ true → a ≡ b
same_hash_iff none none h = refl
same_hash_iff (some a) (some b) h = ground (arith, eq_iff a b)
same_hash_iff none (some b) h = ground arith
same_hash_iff (some a) none h = ground arith

pub same_hash_refl : (a : Option String) → same_hash a a ≡ true
same_hash_refl none = refl
same_hash_refl (some a) = eq_refl a

module _ (h : Host) (sha : String → String) (id : String) (start : Files) where
  -- The place holds what it held, by its hash.
  abbrev pub IsBack : Files → Place → Type 0
  IsBack fs p = hash_of sha (fs p) ≡ hash_of sha (start p)

  -- Places that hold what they held keep it, and the copies stay.
  abbrev pub Restores : Files → Files → Type 0
  Restores fs gs = ((p : Place) → IsBack fs p → IsBack gs p) × Grows h sha id start fs gs

  store-IsBack :
      (fs : Files) (q : Place) (new : Option File)
      → hash_of sha new ≡ hash_of sha (start q)
      → (p : Place) → IsBack fs p
      → IsBack (store q new fs) p
  store-IsBack fs q new e p back = elim (Bool-cases (same q p)) [
    | inl here ↦ rw here (e ∙ ap (λ z. hash_of sha (start z)) ((same_iff q p).0 here))
    | inr other ↦ rw other back
  ]

  -- A saved file that gets what has the hash of the original.
  store-Restores :
      (r : Saved) (fs : Files) (new : Option File)
      → IsSaved h sha id start fs r
      → hash_of sha new ≡ hash_of sha (start r.place)
      → let gs = store r.place new fs in
        Restores fs gs × (same_hash (hash_of sha (gs r.place)) r.sha256 ≡ true)
  store-Restores r fs new s e = (
    (store-IsBack fs r.place new e, λ p n b. rw (s.at_agent) b),
    rw ((same_iff r.place r.place).1 refl) (
        subst (λ z. same_hash (hash_of sha new) z ≡ true) (e ∙ sym s.hashed)
          (same_hash_refl (hash_of sha new))),
  )

  hash_of-bytes : (a b : Option File) → bytes_of a ≡ bytes_of b → hash_of sha a ≡ hash_of sha b
  hash_of-bytes none none e = refl
  hash_of-bytes (some a) (some b) e = ground arith
  hash_of-bytes none (some b) e = ground arith
  hash_of-bytes (some a) none e = ground arith

  not_none : (x : Option File) → none ≡ bytes_of x → is_file x ≡ true → ⊥
  not_none none e there = cc
  not_none (some f) e there = cc

  hash_of-absent : (x : Option File) → is_file x ≡ false → none ≡ hash_of sha x
  hash_of-absent none e = refl
  hash_of-absent (some f) e = cc

  module _ (can_write : (p : Place) → Host.writable h p ≡ true) where
    -- The copy is found, it has the recorded hash, and it is written.
    write_backup-Restores :
        (r : Saved) (fs : Files)
        → IsSaved h sha id start fs r
        → (copy : Option File) → bytes_of copy ≡ bytes_of (start r.place)
        → is_file (start r.place) ≡ true
        → Ends
            (λ _ gs. Restores fs gs × (same_hash (hash_of sha (gs r.place)) r.sha256 ≡ true))
            (λ _. ⊥)
            (write_backup h sha r copy fs)
    write_backup-Restores r fs s none e there = not_none (start r.place) e there
    write_backup-Restores r fs s (some f) e there =
        let good : hash_of sha (some f) ≡ hash_of sha (start r.place) =
          hash_of-bytes (some f) (start r.place) e in
        rw (good ∙ sym s.hashed) (
          rw (same_hash_refl r.sha256) (
            rw (can_write r.place)
              (store-Restores r fs (some (restored_file r.mode f.bytes)) s good)))

    put_back-Restores :
        (r : Saved) (fs : Files)
        → IsSaved h sha id start fs r
        → (existed : Bool) → r.existed ≡ existed
        → Ends
            (λ _ gs. Restores fs gs × (same_hash (hash_of sha (gs r.place)) r.sha256 ≡ true))
            (λ _. ⊥)
            (if existed then write_backup h sha r (fs r.backup) fs else remove h sha r.place fs)
    put_back-Restores r fs s true there =
        write_backup-Restores r fs s (fs r.backup)
          (ap (λ p. bytes_of (fs p)) s.copied_to
            ∙ s.copied there
            ∙ ap (λ p. bytes_of (start p)) (sym s.at_agent))
          (sym s.found ∙ there)
    put_back-Restores r fs s false absent =
        rw (can_write r.place)
          (store-Restores r fs none s (hash_of-absent (start r.place) (sym s.found ∙ absent)))

    restore_one-Restores :
        (r : Saved) (fs : Files)
        → IsSaved h sha id start fs r
        → Ends (λ _ gs. Restores fs gs × IsBack gs r.place) (λ _. ⊥) (restore_one h sha r fs)
    unfolding restore_one
    restore_one-Restores r fs s =
        elim (Bool-cases (same_hash (hash_of sha (fs r.place)) r.sha256)) [
          | inl back ↦ rw back (((λ p b. b), λ p n b. b), same_hash_iff _ _ back ∙ s.hashed)
          | inr moved ↦ rw moved (
              then_do-Ends
                (λ _ gs. Restores fs gs × (same_hash (hash_of sha (gs r.place)) r.sha256 ≡ true))
                (λ _ gs. Restores fs gs × IsBack gs r.place) (λ _. ⊥) (put_back h sha r fs) _
                (put_back-Restores r fs s r.existed refl)
                λ _ gs (kept, good). rw good (kept, same_hash_iff _ _ good ∙ s.hashed))
        ]

    -- Every entry is put back, in one pass.
    restore_each-IsBack :
        (rs : List Saved) (fs : Files)
        → All (IsSaved h sha id start fs) rs
        → Ends
            (λ _ gs. Restores fs gs × All (λ r. IsBack gs r.place) rs)
            (λ _. ⊥)
            (restore_each h sha rs fs)
    unfolding restore_each
    restore_each-IsBack [] fs s = (((λ p b. b), λ p n b. b), tt)
    restore_each-IsBack (r ∷ rs) fs s =
        then_do-Ends (λ _ gs. Restores fs gs × IsBack gs r.place)
          (λ _ gs. Restores fs gs × All (λ q. IsBack gs q.place) (r ∷ rs)) (λ _. ⊥)
          (restore_one h sha r fs) _ (restore_one-Restores r fs s.0)
          λ done gs (kept, back).
            then_do-Ends (λ _ hs. Restores gs hs × All (λ q. IsBack hs q.place) rs)
              (λ _ hs. Restores fs hs × All (λ q. IsBack hs q.place) (r ∷ rs)) (λ _. ⊥)
              (restore_each h sha rs gs) _
              (restore_each-IsBack rs gs (
                All-map (IsSaved h sha id start fs) (IsSaved h sha id start gs) rs
                  (λ q. Grows-IsSaved h sha id start fs gs q kept.1) s.1))
              λ labels hs (kept', rest). (
                ((λ p b. kept'.0 p (kept.0 p b)), λ p n b. kept'.1 p n (kept.1 p n b)),
                (kept'.0 r.place back, rest),
              )

    check_entries-ok :
        (rs : List Saved) (fs : Files)
        → All (IsSaved h sha id start fs) rs
        → check_entries h sha rs ≡ ok tt
    unfolding check_entries
    check_entries-ok [] fs s = refl
    check_entries-ok (r ∷ rs) fs s =
        rw (s.0.named, s.0.placed, (same_iff r.place r.place).1 refl) (check_entries-ok rs fs s.1)

    -- From the copies of a backup every saved file comes back, whatever has happened to it.
    pub restore-IsBack :
        (rs : List Saved) (fs : Files)
        → All (IsSaved h sha id start fs) rs
        → Ends
            (λ _ gs. Restores fs gs × All (λ r. IsBack gs r.place) rs)
            (λ _. ⊥)
            (restore h sha rs fs)
    unfolding restore
    restore-IsBack rs fs s = rw (check_entries-ok rs fs s) (restore_each-IsBack rs fs s)

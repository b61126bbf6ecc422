-- ===== src/Gateway/Admission/Fences.antt =====
-- The park fences of localbench/gateway.py: what `acquire_park_fence` and `release_park_fence` do.
use localbench.Base.{
  ◌&&◌, ℕ, String, Bool, true, false, not, ◌||◌, none, some, List, [], ◌∷◌, ◌++◌, ◌==◌, ◌≡◌, ◌≢◌,
  refl, sym, any, all, sorted_set, arith, eq_iff, eq_refl, ◌∙◌, any-append, select-append,
  delete-none, delete-all, append-nil, any-sorted_set,
}
use localbench.Gateway.Store.{Store, ok, busy, has_fence}
use localbench.Gateway.Admission.{
  fence_refusal, acquire_names, new_fences, acquire_park_fence, release_park_fence,
}

abbrev pub names_model : String → List String → Bool
names_model m models = any (λ n. n == m) models

any-new_fences :
    (m id : String) (now : ℕ) (names : List String)
    → any (λ f. f.model == m) (new_fences id now names) ≡ names_model m names
any-new_fences m id now [] = refl
any-new_fences m id now (n ∷ ns) = ground (arith, any-new_fences m id now ns)

any-new_fence_id :
    (m i id : String) (now : ℕ) (names : List String)
    → any (λ f. f.model == m && f.fence_id == i) (new_fences id now names)
      ≡ (names_model m names && id == i)
any-new_fence_id m i id now [] = refl
any-new_fence_id m i id now (n ∷ ns) = ground (arith, any-new_fence_id m i id now ns)

all-new_fences :
    (id : String) (now : ℕ) (names : List String)
    → all (λ f. f.fence_id == id) (new_fences id now names) ≡ true
all-new_fences id now [] = refl
all-new_fences id now (n ∷ ns) = ground (arith, eq_refl id, all-new_fences id now ns)

-- Without a refusal every named model is idle and has no fence yet.
clear_of-refusal :
    (s : Store) (m : String) (names : List String)
    → fence_refusal s names ≡ none
    → names_model m names ≡ true
    → (busy s m ≡ false) × (has_fence s m ≡ false)
unfolding fence_refusal
clear_of-refusal s m [] e h = cc
clear_of-refusal s m (n ∷ ns) e h = ground (arith, eq_iff n m, clear_of-refusal s m ns)

-- A refusal names a model that is busy or fenced.
refusal-cause :
    (s : Store) (names : List String) (why : String)
    → fence_refusal s names ≡ some why
    → any (λ n. busy s n || has_fence s n) names ≡ true
unfolding fence_refusal
refusal-cause s [] why e = cc
refusal-cause s (n ∷ ns) why e = ground (arith, refusal-cause s ns why)

-- What a call that fences the names has done.
record IsFenced (names : List String) (fence_id : String) (now : ℕ) (s t : Store) : Type 0 where
  after : t ≡ record s { fences = s.fences ++ new_fences fence_id now names }
  clear : fence_refusal s names ≡ none

acquired-names :
    (names : List String) (fence_id : String) (now : ℕ) (s : Store) {t : Store}
    → acquire_names names fence_id now s ≡ ok (none, t)
    → IsFenced names fence_id now s t
unfolding fence_refusal
acquired-names [] fence_id now s e = record {
  after = ground (arith, append-nil s.fences);
  clear = refl;
}
acquired-names (n ∷ ns) fence_id now s e = record { after = ground arith; clear = ground arith }

refused-names :
    (names : List String) (fence_id : String) (now : ℕ) (s : Store) {t : Store} {why : String}
    → acquire_names names fence_id now s ≡ ok (some why, t)
    → (t ≡ s) × (fence_refusal s names ≡ some why)
unfolding fence_refusal
refused-names [] fence_id now s e = cc
refused-names (n ∷ ns) fence_id now s e = ground arith

neither : (n b c : Bool) → (n ≡ true → (b ≡ false) × (c ≡ false)) → (n && (b || c)) ≡ false
neither true b c h = let (x, y) = h refl in rw (x, y) refl
neither false b c h = refl

module _ (models : List String) (fence_id : String) (now : ℕ) (s : Store) where
  -- A call that returns no refusal gives each named model a fence with the given id, adds no other fence, with
  -- whatever model or id, and leaves those that stood; the admitted requests are as before, and none of the
  -- named models had one, or a fence, before.
  pub acquire-fences_all :
      (t : Store)
      → acquire_park_fence models fence_id now s ≡ ok (none, t)
      → (m : String)
      → ((i : String)
          → any (λ f. f.model == m && f.fence_id == i) t.fences ≡ (
              any (λ f. f.model == m && f.fence_id == i) s.fences
              || names_model m models && fence_id == i))
        × (has_fence t m ≡ (has_fence s m || names_model m models))
        × (busy t m ≡ busy s m)
        × ((names_model m models && (busy s m || has_fence s m)) ≡ false)
  unfolding acquire_park_fence
  acquire-fences_all t e m =
      let names = sorted_set models in
      let f = acquired-names names fence_id now s e in
      let same = any-sorted_set (λ n. n == m) models in
      (
        λ i. ground (
          arith,
          f.after,
          any-append (λ f. f.model == m && f.fence_id == i) s.fences
              (new_fences fence_id now names),
          any-new_fence_id m i fence_id now names,
          same,
        ),
        ground (
          arith,
          f.after,
          any-append (λ f. f.model == m) s.fences (new_fences fence_id now names),
          any-new_fences m fence_id now names,
          same,
        ),
        ground (arith, f.after),
        neither (names_model m models) _ _ (λ h. clear_of-refusal s m names f.clear (same ∙ h)),
      )

  -- A call that refuses changes nothing, and some named model is busy or fenced.
  pub acquire-refused :
      (t : Store) (why : String)
      → acquire_park_fence models fence_id now s ≡ ok (some why, t)
      → (t ≡ s) × (any (λ n. busy s n || has_fence s n) models ≡ true)
  unfolding acquire_park_fence
  acquire-refused t why e =
      let names = sorted_set models in
      let (same, cause) = refused-names names fence_id now s e in
      (
        same,
        sym (any-sorted_set (λ n. busy s n || has_fence s n) models)
            ∙ refusal-cause s names why cause,
      )

  -- Releasing an id that was not in use takes back exactly what the acquisition put in.
  pub release-acquire :
      (t : Store)
      → acquire_park_fence models fence_id now s ≡ ok (none, t)
      → any (λ f. f.fence_id == fence_id) s.fences ≡ false
      → fence_id ≢ ""
      → release_park_fence fence_id t ≡ s
  unfolding acquire_park_fence release_park_fence
  release-acquire t e unused named =
      let names = sorted_set models in
      let f = acquired-names names fence_id now s e in
      ground (
        arith,
        f.after,
        eq_iff fence_id "",
        select-append (λ f. not (f.fence_id == fence_id)) s.fences (new_fences fence_id now names),
        delete-none (λ f. f.fence_id == fence_id) s.fences unused,
        delete-all (λ f. f.fence_id == fence_id) (new_fences fence_id now names)
            (all-new_fences fence_id now names),
        append-nil s.fences,
      )

-- ===== src/Store/Keys.antt =====
-- Tables whose rows have distinct keys: what `save` does to the rows that a query keeps.
use commandment.Base.{
  ℕ, suc, ◌<◌, ◌≡◌, ◌≢◌, refl, sym, ap, ◌∙◌, Bool, true, false, List, [], ◌∷◌, ◌++◌, All,
  All-append, IsIn, inl, inr, keep, length, map, arith, Bool-cases, subst,
}
use commandment.Store.Session.{save}

abbrev pub Distinct : List ℕ → Type 0
Distinct [] = Unit
Distinct (k ∷ ks) = All (λ j. j ≢ k) ks × Distinct ks

IsIn-middle : {A : Type 0} (x : A) (pre post : List A) → IsIn x (pre ++ x ∷ post)
IsIn-middle x [] post = inl refl
IsIn-middle x (y ∷ pre) post = inr (IsIn-middle x pre post)

module _ {A : Type 0} (key : A → ℕ) where
  -- A save changes no key.
  pub map-save : (r : A) (xs : List A) → map key (save key r xs) ≡ map key xs
  unfolding save
  map-save r [] = refl
  map-save r (x ∷ xs) = ground (arith, map-save r xs)

  pub Distinct-save :
      (r : A) (xs : List A) → Distinct (map key xs) → Distinct (map key (save key r xs))
  Distinct-save r xs h = rw map-save h

  pub save_absent : (r : A) (xs : List A) → All (λ j. j ≢ key r) (map key xs) → save key r xs ≡ xs
  unfolding save
  save_absent r [] h = refl
  save_absent r (x ∷ xs) h = ground (arith, save_absent r xs h.1)

  key-ne : (k : ℕ) (q : A) (xs : List A) → All (λ j. j ≢ k) (map key xs) → IsIn q xs → key q ≢ k
  key-ne k q [] h m = elim m [ ]
  key-ne k q (x ∷ xs) h (inl e) = rw e h.0
  key-ne k q (x ∷ xs) h (inr m) = key-ne k q xs h.1 m

  module _ (p : A → Bool) where
    -- What a query keeps is in the table.
    pub keep-IsIn : (q : A) (rest xs : List A) → keep p xs ≡ q ∷ rest → IsIn q xs
    keep-IsIn q rest [] e = cc
    keep-IsIn q rest (x ∷ xs) e = elim (Bool-cases (p x)) [
      | inl kept ↦ inl (ground arith)
      | inr dropped ↦ inr (keep-IsIn q rest xs (ground arith))
    ]

    pub keep-passes : (q : A) (rest xs : List A) → keep p xs ≡ q ∷ rest → p q ≡ true
    keep-passes q rest [] e = cc
    keep-passes q rest (x ∷ xs) e = elim (Bool-cases (p x)) [
      | inl kept ↦ ground arith
      | inr dropped ↦ keep-passes q rest xs (ground arith)
    ]

    -- The row that a save takes out of a query's rows leaves one row less.
    pub length-keep-save :
        (q r : A) (xs : List A)
        → key r ≡ key q
        → Distinct (map key xs)
        → IsIn q xs
        → p q ≡ true
        → p r ≡ false
        → suc (length (keep p (save key r xs))) ≡ length (keep p xs)
    unfolding save
    length-keep-save q r [] k d m pq pr = elim m [ ]
    length-keep-save q r (x ∷ xs) k d (inl e) pq pr = ground (
      arith,
      ap p e,
      ap key e,
      save_absent r xs (subst (λ k. All (λ j. j ≢ k) (map key xs)) (sym (k ∙ ap key e)) d.0),
    )
    length-keep-save q r (x ∷ xs) k d (inr m) pq pr =
        ground (arith, key-ne (key x) q xs d.0 m, length-keep-save q r xs k d.1 m pq pr)

    -- A row that stays in the rows of a query takes the place of the one it replaces.
    pub keep-save :
        (q r : A) (xs : List A)
        → key r ≡ key q
        → Distinct (map key xs)
        → keep p xs ≡ q ∷ []
        → p r ≡ true
        → keep p (save key r xs) ≡ r ∷ []
    unfolding save
    keep-save q r [] k d e pr = cc
    keep-save q r (x ∷ xs) k d e pr = elim (Bool-cases (p x)) [
      | inl kept ↦
          let found : x ≡ q = ground arith in
          let absent = subst (λ k. All (λ j. j ≢ k) (map key xs)) (ap key found ∙ sym k) d.0 in
          ground (arith, ap key found, save_absent r xs absent)
      | inr dropped ↦
          let rest : keep p xs ≡ q ∷ [] = ground arith in
          ground (
            arith,
            key-ne (key x) q xs d.0 (keep-IsIn q [] xs rest),
            keep-save q r xs k d.1 rest pr,
          )
    ]

    -- Nor does a save that the query cannot tell from the row it replaces change their number.
    pub length-keep-save_same :
        (q r : A) (xs : List A)
        → key r ≡ key q
        → Distinct (map key xs)
        → IsIn q xs
        → p r ≡ p q
        → length (keep p (save key r xs)) ≡ length (keep p xs)
    unfolding save
    length-keep-save_same q r [] k d m pr = elim m [ ]
    length-keep-save_same q r (x ∷ xs) k d (inl e) pr = ground (
      arith,
      ap p e,
      ap key e,
      save_absent r xs (subst (λ k. All (λ j. j ≢ k) (map key xs)) (sym (k ∙ ap key e)) d.0),
    )
    length-keep-save_same q r (x ∷ xs) k d (inr m) pr =
        ground (arith, key-ne (key x) q xs d.0 m, length-keep-save_same q r xs k d.1 m pr)

  -- A save in the middle of a table.
  pub save-middle :
      (r x : A) (pre post : List A)
      → key r ≡ key x
      → Distinct (map key (pre ++ x ∷ post))
      → save key r (pre ++ x ∷ post) ≡ pre ++ r ∷ post
  unfolding save
  save-middle r x [] post k d =
      let absent = subst (λ j. All (λ i. i ≢ j) (map key post)) (sym k) d.0 in
      ground (arith, save_absent r post absent)
  save-middle r x (y ∷ pre) post k d = ground (
    arith,
    key-ne (key y) x (pre ++ x ∷ post) d.0 (IsIn-middle x pre post),
    save-middle r x pre post k d.1,
  )

  -- A saved row is in the table.
  pub IsIn-save : (q r : A) (xs : List A) → key r ≡ key q → IsIn q xs → IsIn r (save key r xs)
  unfolding save
  IsIn-save q r [] k m = elim m [ ]
  IsIn-save q r (x ∷ xs) k (inl e) = inl (ground (arith, ap key e))
  IsIn-save q r (x ∷ xs) k (inr m) = inr (IsIn-save q r xs k m)

-- A key above all others can be added.
pub Distinct-append :
    (n : ℕ) (ks : List ℕ) → Distinct ks → All (λ k. k < n) ks → Distinct (ks ++ n ∷ [])
Distinct-append n [] d h = (tt, tt)
Distinct-append n (k ∷ ks) d h =
    (All-append (λ j. j ≢ k) ks (n ∷ []) d.0 (omega arith, tt), Distinct-append n ks d.1 h.1)

pub below_suc : (n : ℕ) (ks : List ℕ) → All (λ k. k < n) ks → All (λ k. k < suc n) (ks ++ n ∷ [])
below_suc n [] h = (omega arith, tt)
below_suc n (k ∷ ks) h = (omega arith, below_suc n ks h.1)

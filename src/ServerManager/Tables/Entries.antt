-- ===== src/ServerManager/Tables/Entries.antt =====
-- The entries of the tables of src/ServerManager.cpp.
use lazy_team.Base.{
  ℕ, zero, suc, ◌+◌, ◌<◌, List, [], ◌∷◌, Option, none, some, ◌≡◌, ◌≢◌, ◌⊎◌, inl, inr, refl, ap, ◌∙◌,
  arith,
}
use lazy_team.ServerManager.Tables.{grow, set_at, get, placed}

module _ {A : Type 0} where
  pub get-set_at :
      (i : ℕ) (a x : A) (xs : List A) → get xs i ≡ some x → get (set_at i a xs) i ≡ some a
  unfolding get set_at
  get-set_at i a x [] e = cc
  get-set_at zero a x (y ∷ xs) e = refl
  get-set_at (suc i) a x (y ∷ xs) e = get-set_at i a x xs e

  pub get-set_at_other : (i j : ℕ) (a : A) (xs : List A) → i ≢ j → get (set_at i a xs) j ≡ get xs j
  unfolding get set_at
  get-set_at_other i j a [] h = refl
  get-set_at_other zero zero a (y ∷ xs) h = absurd (h refl)
  get-set_at_other zero (suc j) a (y ∷ xs) h = refl
  get-set_at_other (suc i) zero a (y ∷ xs) h = refl
  get-set_at_other (suc i) (suc j) a (y ∷ xs) h =
      get-set_at_other i j a xs (λ e. h (ap (λ (n : ℕ). suc n) e))

  get-grow_within :
      (n i : ℕ) (d : A) (xs : List A) → i < n → (x : A) × (get (grow n d xs) i ≡ some x)
  unfolding get grow
  get-grow_within zero i d xs h = absurd (omega arith)
  get-grow_within (suc n) zero d [] h = (d, refl)
  get-grow_within (suc n) zero d (x ∷ xs) h = (x, refl)
  get-grow_within (suc n) (suc i) d [] h = get-grow_within n i d [] (omega arith)
  get-grow_within (suc n) (suc i) d (x ∷ xs) h = get-grow_within n i d xs (omega arith)

  -- An entry stays as it was, or a new one has the value for new ones.
  abbrev pub Kept : A → Option A → Option A → Type 0
  Kept d old new = (new ≡ old) ⊎ ((old ≡ none) × (new ≡ some d))

  get-grow-Kept : (n i : ℕ) (d : A) (xs : List A) → Kept d (get xs i) (get (grow n d xs) i)
  unfolding get grow
  get-grow-Kept zero i d xs = inl refl
  get-grow-Kept (suc n) zero d [] = inr (refl, refl)
  get-grow-Kept (suc n) zero d (x ∷ xs) = inl refl
  get-grow-Kept (suc n) (suc i) d [] = get-grow-Kept n i d []
  get-grow-Kept (suc n) (suc i) d (x ∷ xs) = get-grow-Kept n i d xs

  pub get-placed : (fd : ℕ) (a d : A) (xs : List A) → get (placed fd a d xs) fd ≡ some a
  unfolding placed
  get-placed fd a d xs =
      let g = get-grow_within (fd + 1) fd d xs (omega arith) in
      get-set_at fd a g.0 (grow (fd + 1) d xs) g.1

  pub get-placed-Kept :
      (fd i : ℕ) (a d : A) (xs : List A) → fd ≢ i → Kept d (get xs i) (get (placed fd a d xs) i)
  unfolding placed
  get-placed-Kept fd i a d xs h = elim (get-grow-Kept (fd + 1) i d xs) [
    | inl e ↦ inl (get-set_at_other fd i a (grow (fd + 1) d xs) h ∙ e)
    | inr (o, e) ↦ inr (o, get-set_at_other fd i a (grow (fd + 1) d xs) h ∙ e)
  ]

-- ===== src/StringMap.antt =====
-- `std::map<std::string, …>`: an association list in the order of the keys, which is the order of
-- iteration.
use lazy_team.Base.{
  Bool, true, false, List, [], ◌∷◌, Option, none, some, ◌≡◌, refl, arith, ltb, ◌==◌, if◌then◌else◌,
  All, Option-cases, inl, inr,
}
use lazy_team.Text.{Bytes, text_eq, text_eq_iff}

-- `a < b` on strings
unfoldable pub text_lt : Bytes → Bytes → Bool
text_lt [] [] = false
text_lt [] (y ∷ b) = true
text_lt (x ∷ a) [] = false
text_lt (x ∷ a) (y ∷ b) = if x == y then text_lt a b else ltb x y

abbrev pub StringMap {ℓ} : Type ℓ → Type ℓ
StringMap V = List (Bytes × V)

module _ {ℓ} {V : Type ℓ} where
  -- `m.find(k)`
  unfoldable pub lookup : Bytes → List (Bytes × V) → Option V
  lookup k [] = none
  lookup k ((j, v) ∷ m) = if text_eq j k then some v else lookup k m

  -- `m[k] = v`
  unfoldable pub assign : Bytes → V → List (Bytes × V) → List (Bytes × V)
  unfolding text_lt
  assign k v [] = (k, v) ∷ []
  assign k v ((j, w) ∷ m) =
      if text_eq j k
      then (k, v) ∷ m
      else if text_lt k j
      then (k, v) ∷ (j, w) ∷ m
      else (j, w) ∷ assign k v m

  -- `m.insert(std::make_pair(k, v))`: a key that is there keeps its value.
  unfoldable pub insert : Bytes → V → List (Bytes × V) → List (Bytes × V)
  unfolding lookup assign
  insert k v m = elim (lookup k m) [ none ↦ assign k v m | some w ↦ m ]

  pub lookup-assign :
      (k j : Bytes) (v : V) (m : List (Bytes × V))
      → lookup j (assign k v m) ≡ (if text_eq k j then some v else lookup j m)
  unfolding lookup assign
  lookup-assign k j v [] = refl
  lookup-assign k j v ((i, w) ∷ m) =
      ground (arith, text_eq_iff k j, text_eq_iff i k, text_eq_iff i j, lookup-assign k j v m)

  -- A key that is there keeps its value; a new one gets its own.
  pub lookup-insert :
      (k j : Bytes) (v : V) (m : List (Bytes × V))
      → lookup j (insert k v m) ≡ elim (lookup k m) [
        | some w ↦ lookup j m
        | none ↦ if text_eq k j then some v else lookup j m
      ]
  unfolding insert
  lookup-insert k j v m = elim (Option-cases (lookup k m)) [
    | inl e ↦ rw (e, insert) (lookup-assign k j v m)
    | inr (w, e) ↦ rw (e, insert)
  ]

-- What holds of every value, and of none, holds of what is looked up.
pub lookup-All :
    {V : Type 0} (P : Option V → Type 0) (k : Bytes) (m : StringMap V)
    → P none
    → All (λ (e : Bytes × V). P (some e.1)) m
    → P (lookup k m)
unfolding lookup
lookup-All P k [] h a = h
lookup-All P k ((j, v) ∷ m) h (p, a) =
    elim (text_eq j k) as (λ b. P (if b then some v else lookup k m)) [
      | true ↦ p
      | false ↦ lookup-All P k m h a
    ]

-- ===== src/ConfigParser/Reader/Trim.antt =====
-- `trimWhitespace` of src/ConfigParser.cpp.
use lazy_team.Base.{
  ℕ, suc, ◌+◌, true, false, [], ◌∷◌, ◌++◌, none, some, ◌≡◌, ◌⊎◌, inl, inr, refl, ap, subst, sym,
  ◌∙◌, arith, take, drop, Bool-cases, All, append-nil,
}
use lazy_team.Text.{Bytes, find_class}
use lazy_team.ConfigParser.Reader.{is_white, not_white, find_last_class, trim_whitespace}

abbrev pub IsWhite : ℕ → Type 0
IsWhite c = is_white c ≡ true

-- No white byte at the start, and none at the end.
abbrev pub FirstStays : Bytes → Type 0
FirstStays [] = Unit
FirstStays (c ∷ s) = is_white c ≡ false

abbrev pub LastStays : Bytes → Type 0
LastStays [] = Unit
LastStays (c ∷ []) = is_white c ≡ false
LastStays (c ∷ d ∷ s) = LastStays (d ∷ s)

-- `t` is `s` without the white bytes at its ends.
pub record IsTrimmed (s t : Bytes) : Type 0 where
  pub front : Bytes
  pub back : Bytes
  pub parts : s ≡ front ++ (t ++ back)
  pub front_white : All IsWhite front
  pub back_white : All IsWhite back
  pub first_stays : FirstStays t
  pub last_stays : LastStays t

FirstFound : Bytes → Type 0
FirstFound s =
    (i : ℕ) × (front : Bytes) × (c : ℕ) × (r : Bytes) × (find_class not_white s ≡ some i)
    × (drop i s ≡ c ∷ r)
    × (s ≡ front ++ (c ∷ r))
    × All IsWhite front
    × (is_white c ≡ false)

LastFound : Bytes → Type 0
LastFound s =
    (i : ℕ) × (d : ℕ) × (t : Bytes) × (back : Bytes) × (find_last_class not_white s ≡ some i)
    × (take (suc i) s ≡ d ∷ t)
    × (s ≡ d ∷ (t ++ back))
    × All IsWhite back
    × LastStays (d ∷ t)

find_class-cases : (s : Bytes) → ((find_class not_white s ≡ none) × All IsWhite s) ⊎ FirstFound s
unfolding find_class not_white FirstFound
find_class-cases [] = inl (refl, tt)
find_class-cases (c ∷ s) = elim (Bool-cases (is_white c)) [
  | inr e ↦ inr (0, [], c, s, rw e refl, refl, refl, tt, e)
  | inl e ↦ elim (find_class-cases s) [
    | inl (n, a) ↦ inl (rw (e, n) refl, (e, a))
    | inr (i, front, d, r, f, p, q, a, w) ↦
        inr (suc i, c ∷ front, d, r, rw (e, f) refl, p, ap (◌∷◌ c) q, (e, a), w)
  ]
]

find_last-cases : (s : Bytes) → ((find_last_class not_white s ≡ none) × All IsWhite s) ⊎ LastFound s
unfolding find_last_class not_white LastFound
find_last-cases [] = inl (refl, tt)
find_last-cases (c ∷ s) = elim (find_last-cases s) [
  | inr (i, d, t, back, f, p, q, a, w) ↦
      inr (suc i, c, d ∷ t, back, rw f refl, ap (◌∷◌ c) p, ap (◌∷◌ c) q, a, w)
  | inl (n, a) ↦ elim (Bool-cases (is_white c)) [
    | inl e ↦ inl (rw (n, e) refl, (e, a))
    | inr e ↦ inr (0, c, [], s, rw (n, e) refl, refl, refl, a, e)
  ]
]

suc-plus : (j : ℕ) → suc j ≡ j + 1
suc-plus j = omega arith

trim_some :
    (s : Bytes) (i j c d : ℕ) (r t : Bytes)
    → find_class not_white s ≡ some i
    → drop i s ≡ c ∷ r
    → find_last_class not_white (c ∷ r) ≡ some j
    → take (suc j) (c ∷ r) ≡ d ∷ t
    → trim_whitespace s ≡ d ∷ t
unfolding trim_whitespace
trim_some s i j c d r t f p g k =
    rw (trim_whitespace, f, p, g) (subst (λ (n : ℕ). take n (c ∷ r) ≡ d ∷ t) (suc-plus j) k)

-- The function removes the white bytes (blank, \v, \n, \r, \t) at both ends and no other byte.
pub trim_whitespace-IsTrimmed : (s : Bytes) → IsTrimmed s (trim_whitespace s)
unfolding trim_whitespace FirstFound LastFound
trim_whitespace-IsTrimmed s = elim (find_class-cases s) [
  | inl (n, a) ↦
      rw (trim_whitespace, n)
        (record {
          front = s;
          back = [];
          parts = sym (append-nil s);
          front_white = a;
          back_white = tt;
          first_stays = tt;
          last_stays = tt;
        })
  | inr (i, front, c, r, f, p, q, a, w) ↦ elim (find_last-cases (c ∷ r)) [
    | inl (n, (e, z)) ↦ absurd (cc)
    | inr (j, d, t, back, g, k, l, b, z) ↦
        subst (IsTrimmed s) (sym (trim_some s i j c d r t f p g k)) (record {
          front = front;
          back = back;
          parts = q ∙ ap (◌++◌ front) l;
          front_white = a;
          back_white = b;
          first_stays = subst FirstStays k w;
          last_stays = z;
        })
  ]
]

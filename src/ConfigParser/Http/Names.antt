-- ===== src/ConfigParser/Http/Names.antt =====
-- The names of the servers of src/ConfigParser.cpp: a name that was there before makes the set shorter
-- than the vector.
use lazy_team.Base.{
  ◌+◌, ◌<◌, Bool, true, false, ◌||◌, List, [], ◌∷◌, ◌++◌, ◌≡◌, ◌⊎◌, inl, inr, refl, ap, subst, sym,
  ◌∙◌, arith, if◌then◌else◌, length, length-append, Bool-cases,
}
use lazy_team.Text.{Bytes, text_eq, text_eq_iff}
use lazy_team.ConfigParser.Http.{member, insert_name}

-- No two are the same.
abbrev pub Distinct : List Bytes → Type 0
Distinct [] = Unit
Distinct (x ∷ xs) = (member x xs ≡ false) × Distinct xs

text_eq_sym : (a b : Bytes) → text_eq a b ≡ false → text_eq b a ≡ false
text_eq_sym a b e = ground (arith, text_eq_iff a b, text_eq_iff b a)

member-snoc :
    (x y : Bytes) (xs : List Bytes) → member x (xs ++ y ∷ []) ≡ (member x xs || text_eq y x)
unfolding member
member-snoc x y [] = ground arith
member-snoc x y (z ∷ xs) = ground (arith, member-snoc x y xs)

neither : (b c : Bool) → (if b then true else c) ≡ false → (b ≡ false) × (c ≡ false)
neither true c e = cc
neither false c e = (refl, e)

or_cons : (b c : Bool) → (if b then true else c) ≡ (c || b)
or_cons true true = refl
or_cons true false = refl
or_cons false true = refl
or_cons false false = refl

either : (b c : Bool) → b ≡ false → c ≡ false → (b || c) ≡ false
either b c e f = cc

Distinct-snoc :
    (xs : List Bytes) (y : Bytes) → Distinct xs → member y xs ≡ false → Distinct (xs ++ y ∷ [])
unfolding member
Distinct-snoc [] y h e = (refl, tt)
Distinct-snoc (x ∷ xs) y (n, h) e =
    let m = neither (text_eq x y) (member y xs) e in
    (
      member-snoc x y xs ∙ either (member x xs) (text_eq y x) n (text_eq_sym x y m.0),
      Distinct-snoc xs y h m.1,
    )

-- The set and the vector of `httpBlock`: the set is shorter, or both hold the same names, each once.
abbrev pub InStep : List Bytes → List Bytes → Type 0
InStep names vec =
    (length names < length vec)
    ⊎ ((length names ≡ length vec) × Distinct vec × ((x : Bytes) → member x names ≡ member x vec))

length-snoc : (y : Bytes) (xs : List Bytes) → length (xs ++ y ∷ []) ≡ length xs + 1
length-snoc y xs = length-append xs (y ∷ [])

insert_name-member :
    (name : Bytes) (names : List Bytes) → member name names ≡ true → insert_name name names ≡ names
unfolding insert_name
insert_name-member name names e = rw e refl

insert_name-new :
    (name : Bytes) (names : List Bytes)
    → member name names ≡ false
    → insert_name name names ≡ name ∷ names
unfolding insert_name
insert_name-new name names e = rw e refl

new-InStep :
    (name : Bytes) (names vec : List Bytes)
    → member name names ≡ false
    → InStep names vec
    → InStep (name ∷ names) (vec ++ name ∷ [])
unfolding member
new-InStep name names vec e (inl l) = inl (omega (arith, length-snoc name vec))
new-InStep name names vec e (inr (l, d, k)) = inr (
  omega (arith, length-snoc name vec),
  Distinct-snoc vec name d (sym (k name) ∙ e),
  λ x.
      or_cons (text_eq name x) (member x names)
      ∙ ap (λ b. b || text_eq name x) (k x)
      ∙ sym (member-snoc x name vec),
)

there-InStep :
    (name : Bytes) (names vec : List Bytes) → InStep names vec → InStep names (vec ++ name ∷ [])
there-InStep name names vec (inl l) = inl (omega (arith, length-snoc name vec))
there-InStep name names vec (inr (l, d, k)) = inl (omega (arith, length-snoc name vec))

pub insert_name-InStep :
    (name : Bytes) (names vec : List Bytes)
    → InStep names vec
    → InStep (insert_name name names) (vec ++ name ∷ [])
insert_name-InStep name names vec h = elim (Bool-cases (member name names)) [
  | inl e ↦
      subst (λ l. InStep l (vec ++ name ∷ [])) (sym (insert_name-member name names e))
        (there-InStep name names vec h)
  | inr e ↦
      subst (λ l. InStep l (vec ++ name ∷ [])) (sym (insert_name-new name names e))
        (new-InStep name names vec e h)
]

-- As long a set as the vector: the names are distinct.
pub InStep-Distinct :
    (names vec : List Bytes) → InStep names vec → length names ≡ length vec → Distinct vec
InStep-Distinct names vec (inl l) e = absurd (omega arith)
InStep-Distinct names vec (inr (l, d, k)) e = d

-- ===== src/ConfigParser/Reader/Chunks.antt =====
-- A line that src/ConfigParser.cpp reads through its buffer.
use lazy_team.Base.{
  ℕ, zero, suc, ◌+◌, ◌≤◌, ◌<◌, Bool, true, false, [], ◌∷◌, ◌++◌, ◌≡◌, inl, inr, refl, ap, subst,
  sym, arith, ◌==◌, if◌then◌else◌, length, Bool-cases, All,
}
use lazy_team.Text.{Bytes, Lacks}
use lazy_team.ConfigParser.Reader.{ChunkEnd, line_end, full, file_end, read_chunk, until_nul}

-- The text up to its first line end, and behind it.
unfoldable pub first_line : Bytes → Bytes
first_line [] = []
first_line (c ∷ s) = if c == b'\n' then [] else c ∷ first_line s

unfoldable pub behind_line : Bytes → Bytes
behind_line [] = []
behind_line (c ∷ s) = if c == b'\n' then s else behind_line s

unfoldable pub is_last : Bytes → Bool
is_last [] = true
is_last (c ∷ s) = if c == b'\n' then false else is_last s

pub until_nul_lem : (s : Bytes) → Lacks 0 s → until_nul s ≡ s
unfolding until_nul
until_nul_lem [] h = refl
until_nul_lem (c ∷ s) h = ground (arith, until_nul_lem s h.1)

pub behind_line-le : (s : Bytes) → length (behind_line s) ≤ length s
unfolding behind_line
behind_line-le [] = omega arith
behind_line-le (c ∷ s) = ground (arith, behind_line-le s)

-- What a read of a chunk has to do with the line.
abbrev pub IsChunk : ℕ → Bytes → ChunkEnd → Bytes → Bytes → Type 0
IsChunk room s line_end stored behind =
    (stored ≡ first_line s)
    × (behind ≡ behind_line s)
    × (is_last s ≡ false)
    × (length behind < length s)
IsChunk room s full stored behind =
    (first_line s ≡ stored ++ first_line behind)
    × (behind_line s ≡ behind_line behind)
    × (is_last s ≡ is_last behind)
    × (length s ≡ room + length behind)
    × (1 ≤ length behind)
    × (s ≡ stored ++ behind)
IsChunk room s file_end stored behind =
    (stored ≡ s) × (behind ≡ []) × (first_line s ≡ s) × (behind_line s ≡ []) × (is_last s ≡ true)

-- A byte that is no line end, in front of a chunk.
put_front-IsChunk :
    (c room : ℕ) (s : Bytes) (how : ChunkEnd) (stored behind : Bytes)
    → (c == b'\n') ≡ false
    → IsChunk room s how stored behind
    → IsChunk (suc room) (c ∷ s) how (c ∷ stored) behind
unfolding first_line behind_line is_last
put_front-IsChunk c room s line_end stored behind e (h, i, l, b) =
    rw e (ap (◌∷◌ c) h, i, l, omega arith)
put_front-IsChunk c room s full stored behind e (h, i, l, n, b, a) =
    rw e (ap (◌∷◌ c) h, i, l, omega arith, b, ap (◌∷◌ c) a)
put_front-IsChunk c room s file_end stored behind e (h, i, l, b, a) =
    rw e (ap (◌∷◌ c) h, i, ap (◌∷◌ c) l, b, a)

pub read_chunk-IsChunk :
    (room : ℕ) (s : Bytes)
    → IsChunk room s (read_chunk room s).how (read_chunk room s).stored (read_chunk room s).behind
unfolding read_chunk first_line behind_line is_last
read_chunk-IsChunk room [] = ground arith
read_chunk-IsChunk zero (c ∷ s) = elim (Bool-cases (c == b'\n')) [
  | inl e ↦ rw e (ground arith)
  | inr e ↦ rw e (ground arith)
]
read_chunk-IsChunk (suc room) (c ∷ s) = elim (Bool-cases (c == b'\n')) [
  | inl e ↦ rw e (ground arith)
  | inr e ↦ rw e (put_front-IsChunk c room s _ _ _ e (read_chunk-IsChunk room s))
]

-- What holds of all bytes of a text holds of its parts.
module _ (P : ℕ → Type 0) where
  pub All_front : (xs ys : Bytes) → All P (xs ++ ys) → All P xs
  All_front [] ys h = tt
  All_front (x ∷ xs) ys (p, h) = (p, All_front xs ys h)

  pub All_back : (xs ys : Bytes) → All P (xs ++ ys) → All P ys
  All_back [] ys h = h
  All_back (x ∷ xs) ys (p, h) = All_back xs ys h

  pub All-first_line : (s : Bytes) → All P s → All P (first_line s)
  unfolding first_line
  All-first_line [] h = tt
  All-first_line (c ∷ s) (p, h) = elim (Bool-cases (c == b'\n')) [
    | inl e ↦ rw e tt
    | inr e ↦ rw e (p, All-first_line s h)
  ]

  pub All-behind_line : (s : Bytes) → All P s → All P (behind_line s)
  unfolding behind_line
  All-behind_line [] h = tt
  All-behind_line (c ∷ s) (p, h) = elim (Bool-cases (c == b'\n')) [
    | inl e ↦ rw e h
    | inr e ↦ rw e (All-behind_line s h)
  ]

  pub All-until_nul : (s : Bytes) → All P s → All P (until_nul s)
  unfolding until_nul
  All-until_nul [] h = tt
  All-until_nul (c ∷ s) (p, h) = elim (Bool-cases (c == 0)) [
    | inl e ↦ rw e tt
    | inr e ↦ rw e (p, All-until_nul s h)
  ]

  pub IsChunk-All :
      (room : ℕ) (s : Bytes) (how : ChunkEnd) (stored behind : Bytes)
      → IsChunk room s how stored behind
      → All P s
      → All P stored × All P behind
  IsChunk-All room s line_end stored behind (e, f, l, b) h =
      (subst (All P) (sym e) (All-first_line s h), subst (All P) (sym f) (All-behind_line s h))
  IsChunk-All room s full stored behind (e, f, l, n, b, a) h =
      (All_front stored behind (subst (All P) a h), All_back stored behind (subst (All P) a h))
  IsChunk-All room s file_end stored behind (e, f, l, b, a) h =
      (subst (All P) (sym e) h, subst (All P) (sym f) tt)

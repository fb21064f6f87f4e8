-- ===== src/Text/Stream.antt =====
-- Formatted reads from a `std::istringstream`: `>>` into a string and into an unsigned integer.
use lazy_team.Base.{
  ℕ, ◌+◌, ◌-◌, ◌*◌, ◌%◌, Bool, true, false, ◌&&◌, ◌||◌, [], ◌∷◌, Option, none, some, ltb, leb, ◌==◌,
  if◌then◌else◌, ◌≡◌, ◌<◌, arith, ◌⊎◌, inl, inr,
}
use lazy_team.Text.Search.{Bytes}

-- `isspace` in the C locale: a blank, or one of \t \n \v \f \r.
unfoldable pub is_space : ℕ → Bool
is_space c = c == b' ' || (leb 9 c && leb c 13)

unfoldable pub skip_space : Bytes → Bytes
unfolding is_space
skip_space [] = []
skip_space (c ∷ s) = if is_space c then skip_space s else c ∷ s

unfoldable pub word : Bytes → Bytes
unfolding is_space
word [] = []
word (c ∷ s) = if is_space c then [] else c ∷ word s

unfoldable pub after_word : Bytes → Bytes
unfolding is_space
after_word [] = []
after_word (c ∷ s) = if is_space c then c ∷ s else after_word s

-- What is left to read, and whether no read has met the end of the text.
pub record IStream : Type 0 where
  pub rest : Bytes
  pub good : Bool

abbrev pub open_stream : Bytes → IStream
open_stream s = record { rest = s; good = true }

is_nil : Bytes → Bool
is_nil [] = true
is_nil (c ∷ s) = false

-- The read of a word from text with no leading space: with none left it leaves the string as it was.
read_nonblank : Bytes → Bytes → IStream × Bytes
unfolding word after_word is_nil
read_nonblank [] old = (record { rest = []; good = false }, old)
read_nonblank (c ∷ s) old =
    let rest = after_word (c ∷ s) in
    (record { rest = rest; good = if is_nil rest then false else true }, word (c ∷ s))

-- `iss >> str`, where `str` holds `old` before: a stream that has met its end reads nothing.
unfoldable pub read_word : IStream → Bytes → IStream × Bytes
unfolding skip_space read_nonblank
read_word s old = if s.good then read_nonblank (skip_space s.rest) old else (s, old)

-- What `iss >> n` does with an unsigned `n`: it stays as it was (there is nothing but blanks), it is
-- set, or it is set and the stream is in the failed state.
pub data Number : Type 0 where
  untouched : Number
  read failed : ℕ → Number

-- The digit that a byte stands for, if it is one in the base.
digit : ℕ → ℕ → Option ℕ
digit base c =
    let d =
      if leb b'0' c && leb c b'9'
      then c - b'0'
      else if leb b'a' c && leb c b'f'
      then c - 87
      else if leb b'A' c && leb c b'F'
      then c - 55
      else base in
    if ltb d base then some d else none

-- The value of the longest run of digits, behind `acc`, without a bound.
digits : ℕ → Bytes → ℕ → ℕ
unfolding digit
digits base [] acc = acc
digits base (c ∷ s) acc = elim (digit base c) [
  | none ↦ acc
  | some d ↦ digits base s (acc * base + d)
]

-- Behind the sign: with no digit the number is 0 and the read fails; past the bound it is the
-- greatest number and the read fails; a minus sign negates modulo `bound`.
magnitude : ℕ → ℕ → Bool → Bytes → Number
unfolding digit digits
magnitude base bound minus [] = failed 0
magnitude base bound minus (c ∷ s) = elim (digit base c) [
  | none ↦ failed 0
  | some d ↦
      let n = digits base s d in
      if ltb n bound then read (if minus then (bound - n) % bound else n) else failed (bound - 1)
]

signed : ℕ → ℕ → Bytes → Number
unfolding magnitude
signed base bound [] = untouched
signed base bound (c ∷ s) =
    if c == b'-'
    then magnitude base bound true s
    else magnitude base bound false (if c == b'+' then s else c ∷ s)

-- `iss >> n` on a fresh stream, for an unsigned `n` below `bound`; with `std::hex` the base is 16 (a
-- prefix 0x is not read as one).
unfoldable pub read_unsigned : ℕ → ℕ → Bytes → Number
unfolding skip_space signed
read_unsigned base bound s = signed base bound (skip_space s)

-- The variable behind the read, which held `old`.
abbrev pub into : Number → ℕ → ℕ
into untouched old = old
into (read n) old = n
into (failed n) old = n

-- A number that is read is below its type's bound.
magnitude-lt :
    (base bound : ℕ) (minus : Bool) (s : Bytes) (n : ℕ)
    → magnitude base bound minus s ≡ read n
    → n < bound
unfolding magnitude
magnitude-lt base bound minus [] n e = cc
magnitude-lt base bound minus (c ∷ s) n e = ground arith

either :
    (b : Bool) (x y : Number) (n : ℕ) → (if b then x else y) ≡ read n → (x ≡ read n) ⊎ (y ≡ read n)
either true x y n e = inl e
either false x y n e = inr e

signed-lt : (base bound : ℕ) (s : Bytes) (n : ℕ) → signed base bound s ≡ read n → n < bound
unfolding signed
signed-lt base bound [] n e = cc
signed-lt base bound (c ∷ s) n e = elim (either (c == b'-') _ _ n e) [
  | inl b ↦ magnitude-lt base bound true s n b
  | inr b ↦ magnitude-lt base bound false (if c == b'+' then s else c ∷ s) n b
]

pub read_unsigned-lt :
    (base bound : ℕ) (s : Bytes) (n : ℕ) → read_unsigned base bound s ≡ read n → n < bound
unfolding read_unsigned
read_unsigned-lt base bound s n e = signed-lt base bound (skip_space s) n e

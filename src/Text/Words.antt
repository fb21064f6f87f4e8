-- ===== src/Text/Words.antt =====
-- Reading words from a stream.
use lazy_team.Base.{true, false, [], ◌∷◌, ◌++◌, ◌≡◌, refl, ◌≢◌, arith, All}
use lazy_team.Text.Search.{Bytes}
use lazy_team.Text.Stream.{is_space, skip_space, word, after_word, read_word}

abbrev pub NoSpace : Bytes → Type 0
NoSpace = All (λ c. is_space c ≡ false)

abbrev pub IsWord : Bytes → Type 0
IsWord w = (w ≢ []) × NoSpace w

pub word_blank : (w rest : Bytes) → NoSpace w → word (w ++ (b' ' ∷ rest)) ≡ w
unfolding word
word_blank [] rest h = refl
word_blank (c ∷ w) rest h = ground (arith, word_blank w rest h.1)

pub after_word_blank : (w rest : Bytes) → NoSpace w → after_word (w ++ (b' ' ∷ rest)) ≡ b' ' ∷ rest
unfolding after_word
after_word_blank [] rest h = refl
after_word_blank (c ∷ w) rest h = ground (arith, after_word_blank w rest h.1)

pub word_all : (w : Bytes) → NoSpace w → word w ≡ w
unfolding word
word_all [] h = refl
word_all (c ∷ w) h = ground (arith, word_all w h.1)

pub after_word_all : (w : Bytes) → NoSpace w → after_word w ≡ []
unfolding after_word
after_word_all [] h = refl
after_word_all (c ∷ w) h = ground (arith, after_word_all w h.1)

-- A word with a blank behind it, a word at the end, and a word behind a blank.
pub read_word_lem :
    (w rest old : Bytes)
    → IsWord w
    → read_word (record { rest = w ++ (b' ' ∷ rest); good = true }) old
      ≡ (record { rest = b' ' ∷ rest; good = true }, w)
unfolding read_word skip_space
read_word_lem [] rest old (n, h) = absurd (n refl)
read_word_lem (c ∷ w) rest old (n, h) =
    ground (arith, word_blank (c ∷ w) rest h, after_word_blank (c ∷ w) rest h)

pub read_word_last :
    (w old : Bytes)
    → IsWord w
    → read_word (record { rest = w; good = true }) old ≡ (record { rest = []; good = false }, w)
unfolding read_word skip_space
read_word_last [] old (n, h) = absurd (n refl)
read_word_last (c ∷ w) old (n, h) = ground (arith, word_all (c ∷ w) h, after_word_all (c ∷ w) h)

pub read_word_blank :
    (s old : Bytes)
    → read_word (record { rest = b' ' ∷ s; good = true }) old
      ≡ read_word (record { rest = s; good = true }) old
unfolding read_word skip_space
read_word_blank s old = refl

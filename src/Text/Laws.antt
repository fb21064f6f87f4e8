-- ===== src/Text/Laws.antt =====
-- Laws of the text operations.
use lazy_team.Base.{
  Ends, ℕ, zero, suc, ◌+◌, ◌≤◌, ◌<◌, true, false, Bool-cases, inl, inr, ◌≢◌, [], ◌∷◌, ◌++◌, Option,
  none, some, ◌≡◌, refl, ◌↔◌, arith, length, drop, length-append, ok, fault, out_of_range,
  take-length-append, drop_behind,
}
use lazy_team.Text.Search.{Bytes, crlf, Lacks, text_eq, starts_with, find, substr}

pub text_eq_iff : (a b : Bytes) → (text_eq a b ≡ true) ↔ (a ≡ b)
unfolding text_eq
text_eq_iff (x ∷ a) (y ∷ b) = ground (arith, text_eq_iff a b)
text_eq_iff _ _ = ground arith

pub text_eq-false : (a b : Bytes) → a ≢ b → text_eq a b ≡ false
text_eq-false a b n = elim (Bool-cases (text_eq a b)) [
  | inl e ↦ absurd (n ((text_eq_iff a b).0 e))
  | inr e ↦ e
]

pub text_eq_refl : (a : Bytes) → text_eq a a ≡ true
text_eq_refl a = (text_eq_iff a a).1 refl

-- The first "\r\n" behind a line with no "\r" stands at the line's end.
pub find-crlf :
    (line rest : Bytes) → Lacks b'\r' line → find crlf (line ++ (crlf ++ rest)) ≡ some (length line)
unfolding find
find-crlf [] rest h = refl
find-crlf (c ∷ line) rest h = ground (arith, find-crlf line rest h.1)

pub find-crlf-none : (line : Bytes) → Lacks b'\r' line → find crlf line ≡ none
unfolding find
find-crlf-none [] h = refl
find-crlf-none (c ∷ line) h = ground (arith, find-crlf-none line h.1)

-- A single byte is found behind text that lacks it.
pub find_byte :
    (b : ℕ) (key rest : Bytes) → Lacks b key → find (b ∷ []) (key ++ b ∷ rest) ≡ some (length key)
unfolding find
find_byte b [] rest h = ground arith
find_byte b (c ∷ key) rest h = ground (arith, find_byte b key rest h.1)

pub starts_with-le : (p s : Bytes) → starts_with p s ≡ true → length p ≤ length s
unfolding starts_with
starts_with-le [] s h = omega arith
starts_with-le (x ∷ p) [] h = cc
starts_with-le (x ∷ p) (c ∷ s) h = ground (arith, starts_with-le p s)

-- What is found lies inside the text.
pub find-le : (p s : Bytes) (i : ℕ) → find p s ≡ some i → i + length p ≤ length s
unfolding find
find-le p [] i h = ground (arith, starts_with-le p [])
find-le p (c ∷ s) zero h = ground (arith, starts_with-le p (c ∷ s))
find-le p (c ∷ s) (suc i) h = ground (arith, find-le p s i)

-- `substr` up to the end of the first piece, behind it, and behind the end of the text.
pub substr_front : (a b : Bytes) → substr (a ++ b) 0 (some (length a)) ≡ ok a
unfolding substr
substr_front a b = rw (take-length-append a b) (ground arith)

pub substr_behind :
    (a : Bytes) (k : ℕ) (b : Bytes)
    → k ≤ length b
    → substr (a ++ b) (length a + k) none ≡ ok (drop k b)
unfolding substr
substr_behind a k b h = rw (drop_behind a k b) (ground (arith, length-append a b))

pub substr_out : (s : Bytes) (pos : ℕ) → length s < pos → substr s pos none ≡ fault out_of_range
unfolding substr
substr_out s pos h = ground arith

pub substr-Ends : (s : Bytes) (pos : ℕ) (n : Option ℕ) → Ends (substr s pos n)
unfolding substr
substr-Ends s pos none = ground arith
substr-Ends s pos (some n) = ground arith

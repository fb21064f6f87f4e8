-- ===== src/Client/Parse/Shrink.antt =====
-- The parsers of src/Client.cpp come to an end, and leave no more in the buffer than was there.
use lazy_team.Base.{
  IsReal, Ends, Ends-bind, ℕ, zero, suc, ◌+◌, ◌-◌, ◌≤◌, ◌<◌, Bool, true, Option, none, some, ◌≡◌,
  refl, length, take, drop, Outcome, ok, fault, arith, length-drop, ◌>>=◌, inl, inr, Option-cases,
}
use lazy_team.Text.{substr-Ends, Bytes, crlf, codes, find, find_class, find_from, find-le}
use lazy_team.Webserv.{ok_code}
use lazy_team.Message.{Request}
use lazy_team.Client.Parse.Chunked.{round_error, round_wait, round_wait_content, round_next}
use lazy_team.Client.Parse.Headers.{header_none, header_end, header_round}
use lazy_team.Client.Parse.RequestLine.{parser_round, strip_found, strip_authority-origin}
use lazy_team.Client.Parse.{
  Parsed, is_hex_digit, chunked_loop, chunked_parser, header_loop, header_line, header_parser,
  req_line, req_line_parser, length_parser, take_body, strip_authority, from_slash,
}

abbrev pub Shrinks : ℕ → Outcome Parsed → Type 0
Shrinks n (ok p) = length p.read_buff ≤ n
Shrinks n (fault e) = IsReal e

pub Shrinks-bind :
    {A : Type 0} (n : ℕ) (m : Outcome A) (f : A → Outcome Parsed)
    → Ends m
    → ((a : A) → Shrinks n (f a))
    → Shrinks n (m >>= f)
Shrinks-bind n (ok a) f h k = k a
Shrinks-bind n (fault e) f h k = h

header_line-Ends : (line : Bytes) (r : Request) → Ends (header_line line r)
unfolding header_line
header_line-Ends line r =
    Ends-bind _ _ (substr-Ends line 0 _)
      (λ key. Ends-bind _ _ (substr-Ends line _ none) (λ value. tt))

from_slash-Ends : (s : Bytes) (o : Option ℕ) → Ends (from_slash s o)
unfolding from_slash
from_slash-Ends s none = tt
from_slash-Ends s (some q) = substr-Ends s q none

strip_authority-Ends : (uri : Bytes) → Ends (strip_authority uri)
strip_authority-Ends uri = elim (Option-cases (find (codes "://") uri)) [
  | inl e ↦ rw (strip_authority-origin uri e) tt
  | inr (p, e) ↦
      rw (strip_found uri p e)
        (Ends-bind _ _ (substr-Ends uri (p + 3) none) (λ s. from_slash-Ends s _))
]

req_line-Ends : (line : Bytes) (r : Request) → Ends (req_line line r)
unfolding req_line
req_line-Ends line r = Ends-bind _ _ (strip_authority-Ends _) (λ s. tt)

pub Shrinks-mono : (m n : ℕ) (o : Outcome Parsed) → m ≤ n → Shrinks m o → Shrinks n o
Shrinks-mono m n (ok p) h k = omega arith
Shrinks-mono m n (fault e) h k = k

-- A round of the header loop, if the rounds behind it shrink the buffer.
header_step :
    (fuel : ℕ) (buff : Bytes) (r : Request) (o : Option ℕ)
    → find crlf buff ≡ o
    → length buff < suc fuel
    → ((b : Bytes) (q : Request) → length b < fuel → Shrinks (length b) (header_loop fuel b q))
    → Shrinks (length buff) (header_loop (suc fuel) buff r)
header_step fuel buff r none e h next = rw (header_none fuel buff r e) (omega arith)
header_step fuel buff r (some zero) e h next =
    rw (header_end fuel buff r e) (omega (arith, length-drop 2 buff))
header_step fuel buff r (some (suc p)) e h next =
    let inside : suc p + 2 ≤ length buff = find-le crlf buff (suc p) e in
    let gone : length (drop (suc p + 2) buff) ≡ length buff - (suc p + 2) =
      length-drop (suc p + 2) buff in
    rw (header_round fuel buff r p e) (
      Shrinks-bind _ _ _ (header_line-Ends _ r) (λ r'.
        Shrinks-mono (length (drop (suc p + 2) buff)) _ _ (omega arith)
          (next (drop (suc p + 2) buff) r' (omega arith))))

header_loop-Shrinks :
    (fuel : ℕ) (buff : Bytes) (r : Request)
    → length buff < fuel
    → Shrinks (length buff) (header_loop fuel buff r)
header_loop-Shrinks zero buff r h = elim h [ ]
header_loop-Shrinks (suc fuel) buff r h =
    header_step fuel buff r _ refl h (λ b q k. header_loop-Shrinks fuel b q k)

pub header_parser-Shrinks :
    (buff : Bytes) (r : Request) → Shrinks (length buff) (header_parser buff r)
unfolding header_parser
header_parser-Shrinks buff r = header_loop-Shrinks (length buff + 1) buff r (omega arith)

-- A request line takes at least its line end from the buffer, or the parser reports an error.
abbrev pub Takes : ℕ → Outcome Parsed → Type 0
Takes n (ok p) = (length p.read_buff ≤ n) × (p.code ≡ ok_code → length p.read_buff < n)
Takes n (fault e) = IsReal e

line-Takes :
    (o : Outcome Request) (n : ℕ) (rest : Bytes)
    → Ends o
    → length rest < n
    → Takes n (o >>= λ r'. ok (record { code = ok_code; read_buff = rest; request = r' }))
line-Takes (ok r') n rest h k = (omega arith, λ e. k)
line-Takes (fault e) n rest h k = h

line_step :
    (buff : Bytes) (r : Request) (o : Option ℕ)
    → find crlf buff ≡ o
    → Takes (length buff) (req_line_parser buff r)
unfolding req_line_parser
line_step buff r none e = rw (e, req_line_parser) (omega arith, λ x. cc)
line_step buff r (some zero) e = rw (e, req_line_parser) (omega arith, λ x. cc)
line_step buff r (some (suc p)) e =
    let inside : suc p + 2 ≤ length buff = find-le crlf buff (suc p) e in
    let gone : length (drop (suc p + 2) buff) ≡ length buff - (suc p + 2) =
      length-drop (suc p + 2) buff in
    rw (parser_round buff r p e)
      (line-Takes _ (length buff) (drop (suc p + 2) buff) (req_line-Ends _ r) (omega arith))

pub req_line_parser-Takes :
    (buff : Bytes) (r : Request) → Takes (length buff) (req_line_parser buff r)
req_line_parser-Takes buff r = line_step buff r _ refl

pub take_body-le :
    (len : ℕ) (buff : Bytes) (r : Request) → length (take_body len buff r).read_buff ≤ length buff
unfolding take_body
take_body-le len buff r = ground (arith, length-drop len buff)

pub length_parser-le :
    (undef : ℕ) (buff : Bytes) (r : Request)
    → length (length_parser undef buff r).read_buff ≤ length buff
unfolding length_parser
length_parser-le undef buff r = take_body-le _ buff r

find_from-le :
    (p s : Bytes) (pos i : ℕ) → find_from p s pos ≡ some i → (pos ≤ i) × (i + length p ≤ length s)
unfolding find_from
find_from-le p s pos i e = ground (arith, find-le p (drop pos s) (i - pos), length-drop pos s)

-- One round of the chunk loop.
module _ (fuel l : ℕ) (good : Bool) (buff : Bytes) (r : Request) (h : length buff < suc fuel)
    (next : (l' : ℕ) (g : Bool) (b : Bytes) (q : Request)
      → length b < fuel
      → Shrinks (length b) (chunked_loop fuel l' g b q)) where
  chunk_class :
      (n m : ℕ) (o : Option ℕ)
      → find crlf buff ≡ some n
      → find_from crlf buff (n + 2) ≡ some m
      → find_class is_hex_digit (take n buff) ≡ o
      → Shrinks (length buff) (chunked_loop (suc fuel) (suc l) good buff r)
  chunk_class n m (some i) a b c = rw (round_error fuel l good buff r n m i a b c) (omega arith)
  chunk_class n m none a b c =
      let gone : length (drop (m + 2) buff) ≡ length buff - (m + 2) = length-drop (m + 2) buff in
      rw (round_next fuel l good buff r n m a b c) (
        Shrinks-bind _ _ _ (substr-Ends _ _ _) (λ content.
          Shrinks-mono (length (drop (m + 2) buff)) _ _ (omega arith)
            (next _ _ (drop (m + 2) buff) _ (omega (arith, find_from-le crlf buff (n + 2) m b)))))

  chunk_content :
      (n : ℕ) (o : Option ℕ)
      → find crlf buff ≡ some n
      → find_from crlf buff (n + 2) ≡ o
      → Shrinks (length buff) (chunked_loop (suc fuel) (suc l) good buff r)
  chunk_content n none a b = rw (round_wait_content fuel l good buff r n a b) (omega arith)
  chunk_content n (some m) a b = chunk_class n m _ a b refl

  chunk_size :
      (o : Option ℕ)
      → find crlf buff ≡ o
      → Shrinks (length buff) (chunked_loop (suc fuel) (suc l) good buff r)
  chunk_size none a = rw (round_wait fuel l good buff r a) (omega arith)
  chunk_size (some n) a = chunk_content n _ a refl

chunked_loop-Shrinks :
    (fuel l : ℕ) (good : Bool) (buff : Bytes) (r : Request)
    → length buff < fuel
    → Shrinks (length buff) (chunked_loop fuel l good buff r)
chunked_loop-Shrinks zero l good buff r h = elim h [ ]
chunked_loop-Shrinks (suc fuel) zero good buff r h = unfold chunked_loop in omega arith
chunked_loop-Shrinks (suc fuel) (suc l) good buff r h =
    chunk_size fuel l good buff r h (λ l' g b q k. chunked_loop-Shrinks fuel l' g b q k) _ refl

-- Whatever is in the buffer, `chunkedParser` comes to an end and leaves no more bytes in it than were there.
pub chunked_parser-Shrinks :
    (buff : Bytes) (r : Request) → Shrinks (length buff) (chunked_parser buff r)
unfolding chunked_parser
chunked_parser-Shrinks buff r = chunked_loop-Shrinks (length buff + 2) 1 true buff r (omega arith)

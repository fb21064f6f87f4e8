-- ===== src/Client/Parse/Chunked.antt =====
-- `chunkedParser` of src/Client.cpp on a chunk whose size is a hexadecimal number.
use lazy_team.Base.{
  ℕ, suc, ◌+◌, Bool, true, false, [], ◌∷◌, ◌++◌, ◌≤◌, ◌⊎◌, inl, inr, refl, Option, if◌then◌else◌,
  none, some, ◌≡◌, ap, ◌∙◌, length, take, drop, ok, arith, length-append, take-length-append,
  drop_behind, ◌>>=◌,
}
use mathlib.Core.Option
use lazy_team.Text.{
  Bytes, crlf, find, find_class, find_from, substr, into, Lacks, find-crlf, starts_with,
}
use lazy_team.Webserv.{ok_code, error_code, read_fail}
use lazy_team.Message.{Request, append_body}
use lazy_team.Client.Parse.{read_len, is_read, is_hex_digit, chunked_loop, chunked_parser}

-- The second line end is looked for behind the first.
find_from-crlf :
    (size tail : Bytes) (j : ℕ)
    → find crlf tail ≡ some j
    → find_from crlf (size ++ (crlf ++ tail)) (length size + 2) ≡ some (j + (length size + 2))
unfolding find_from
find_from-crlf size tail j e =
    rw (drop_behind size 2 (crlf ++ tail), e) (ground (arith, length-append size (crlf ++ tail)))

pub round_error :
    (fuel l : ℕ) (good : Bool) (buff : Bytes) (r : Request) (n m i : ℕ)
    → find crlf buff ≡ some n
    → find_from crlf buff (n + 2) ≡ some m
    → find_class is_hex_digit (take n buff) ≡ some i
    → chunked_loop (suc fuel) (suc l) good buff r
      ≡ ok (record { code = error_code; read_buff = []; request = record r { status = read_fail } })
unfolding chunked_loop
round_error fuel l good buff r n m i a b c = ground arith

module _ (fuel l : ℕ) (good : Bool) (buff : Bytes) (r : Request) where
  pub round_wait :
      find crlf buff ≡ none
      → chunked_loop (suc fuel) (suc l) good buff r
        ≡ ok (record { code = ok_code; read_buff = buff; request = r })
  unfolding chunked_loop
  round_wait e = ground arith

  pub round_wait_content :
      (n : ℕ)
      → find crlf buff ≡ some n
      → find_from crlf buff (n + 2) ≡ none
      → chunked_loop (suc fuel) (suc l) good buff r
        ≡ ok (record { code = ok_code; read_buff = buff; request = r })
  unfolding chunked_loop
  round_wait_content n a b = ground arith

  pub round_next :
      (n m : ℕ)
      → find crlf buff ≡ some n
      → find_from crlf buff (n + 2) ≡ some m
      → find_class is_hex_digit (take n buff) ≡ none
      → chunked_loop (suc fuel) (suc l) good buff r ≡ (
          let got = read_len good (take n buff) in
          substr buff (n + 2) (some (into got (suc l))) >>= λ content.
          chunked_loop fuel
            (into got (suc l))
            (is_read got)
            (drop (m + 2) buff)
            (append_body r content))
  unfolding chunked_loop
  round_next n m a b c = rw (a, chunked_loop) (rw b (rw c))

refused_lem :
    (size tail : Bytes) (i j : ℕ) (r : Request)
    → Lacks b'\r' size
    → find_class is_hex_digit size ≡ some i
    → find crlf tail ≡ some j
    → chunked_parser (size ++ (crlf ++ tail)) r
      ≡ ok (record { code = error_code; read_buff = []; request = record r { status = read_fail } })
unfolding chunked_parser
refused_lem size tail i j r h d e =
    let buff = size ++ (crlf ++ tail) in
    let rounds : length buff + 2 ≡ suc (length buff + 1) = omega arith in
    ap (λ (n : ℕ). chunked_loop n 1 true buff r) rounds
    ∙ round_error (length buff + 1) 0 true buff r (length size) _ i (find-crlf size tail h)
        (find_from-crlf size tail j e)
        (ap (find_class is_hex_digit) (take-length-append size (crlf ++ tail)) ∙ d)

-- A digit of a hexadecimal number: 0 to 9, A to F, or a to f, in ASCII.
abbrev pub IsHexDigit : ℕ → Type 0
IsHexDigit c = ((48 ≤ c) × (c ≤ 57)) ⊎ (((65 ≤ c) × (c ≤ 70)) ⊎ ((97 ≤ c) × (c ≤ 102)))

is_hex_digit-true : (c : ℕ) → IsHexDigit c → is_hex_digit c ≡ true
unfolding is_hex_digit
is_hex_digit-true c (inl (a, b)) = ground arith
is_hex_digit-true c (inr (inl (a, b))) = ground arith
is_hex_digit-true c (inr (inr (a, b))) = ground arith

found_or :
    (b : Bool) (o : Option ℕ) (i : ℕ)
    → o ≡ some i
    → (j : ℕ) × ((if b then some 0 else Option.map suc o) ≡ some j)
found_or true o i e = (0, refl)
found_or false o i e = (suc i, ap (λ (x : Option ℕ). Option.map suc x) e)

find_class-there :
    (front : Bytes) (c : ℕ) (back : Bytes)
    → IsHexDigit c
    → (i : ℕ) × (find_class is_hex_digit (front ++ c ∷ back) ≡ some i)
unfolding find_class
find_class-there [] c back h = (0, rw (is_hex_digit-true c h) refl)
find_class-there (d ∷ front) c back h =
    let rest = find_class-there front c back h in found_or (is_hex_digit d) _ rest.0 rest.1

find-crlf-there :
    (content rest : Bytes) → (j : ℕ) × (find crlf (content ++ (crlf ++ rest)) ≡ some j)
unfolding find
find-crlf-there [] rest = (0, refl)
find-crlf-there (d ∷ content) rest =
    let behind = find-crlf-there content rest in
    found_or (starts_with crlf (d ∷ (content ++ (crlf ++ rest)))) _ behind.0 behind.1

-- A first chunk whose size line holds no carriage return and holds a hexadecimal digit anywhere, as every chunk
-- of a chunked body does, is refused as soon as a line end stands behind it, whatever its content is: the
-- request fails and the whole buffer is lost.
pub chunked_parser_refuses :
    (front : Bytes) (c : ℕ) (back content rest : Bytes) (r : Request)
    → Lacks b'\r' (front ++ c ∷ back)
    → IsHexDigit c
    → chunked_parser ((front ++ c ∷ back) ++ (crlf ++ (content ++ (crlf ++ rest)))) r
      ≡ ok (record { code = error_code; read_buff = []; request = record r { status = read_fail } })
chunked_parser_refuses front c back content rest r h d =
    let digit = find_class-there front c back d in
    let end = find-crlf-there content rest in
    refused_lem (front ++ c ∷ back) (content ++ (crlf ++ rest)) digit.0 end.0 r h digit.1 end.1

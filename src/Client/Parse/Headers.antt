-- ===== src/Client/Parse/Headers.antt =====
-- `headerParser` of src/Client.cpp reads back the header lines that `Response::makeHead` writes.
use lazy_team.Base.{
  ℕ, zero, suc, ◌+◌, ◌≤◌, ◌<◌, [], ◌∷◌, ◌++◌, none, some, ◌≡◌, refl, sym, ap, ◌∙◌, ◌≢◌, length,
  take, drop, All, All-append, Outcome, ok, fault, out_of_range, ◌>>=◌, map, arith, length-append,
  take-length-append, drop_behind, append_assoc,
}
use lazy_team.Text.{
  Bytes, crlf, codes, find, to_lower, Lacks, find-crlf, substr_front, substr_behind, substr_out,
  find_byte,
}
use lazy_team.StringMap.{StringMap}
use lazy_team.Webserv.{ok_code, body}
use lazy_team.Message.{Request, insert_header, header_lines}
use lazy_team.Client.Parse.{header_line, header_loop, header_parser}

-- A header that can be written on a line: its key holds no colon, and neither part a line end.
abbrev pub IsLine : Bytes × Bytes → Type 0
IsLine (k, v) = Lacks b':' k × Lacks b'\r' k × Lacks b'\r' v

-- The request with the headers inserted one by one, their keys in lower case.
abbrev pub insert_all : Request → StringMap Bytes → Request
insert_all r [] = r
insert_all r ((k, v) ∷ m) = insert_all (insert_header r (map to_lower k) v) m

abbrev field_of : Bytes → Bytes → Bytes
field_of k v = k ++ (codes ": " ++ v)

header_line-field :
    (k v : Bytes) (r : Request)
    → Lacks b':' k
    → header_line (field_of k v) r ≡ ok (insert_header r (map to_lower k) v)
unfolding header_line
header_line-field k v r h = rw (
  find_byte b':' k (b' ' ∷ v) h,
  substr_front k _,
  substr_behind k 2 (b':' ∷ b' ' ∷ v) (omega arith),
)

-- A line whose only colon is its last byte makes `substr` throw.
pub header_line_crash :
    (k : Bytes) (r : Request) → Lacks b':' k → header_line (k ++ (b':' ∷ [])) r ≡ fault out_of_range
unfolding header_line
header_line_crash k r h = rw (
  find_byte b':' k [] h,
  substr_front k _,
  substr_out (k ++ (b':' ∷ [])) (length k + 2) (omega (arith, length-append {0} k (b':' ∷ []))),
)

-- A round of the loop, and its end.
pub header_none :
    (fuel : ℕ) (buff : Bytes) (r : Request)
    → find crlf buff ≡ none
    → header_loop (suc fuel) buff r ≡ ok (record { code = ok_code; read_buff = buff; request = r })
unfolding header_loop
header_none fuel buff r e = rw (e, header_loop)

pub header_round :
    (fuel : ℕ) (buff : Bytes) (r : Request) (p : ℕ)
    → find crlf buff ≡ some (suc p)
    → header_loop (suc fuel) buff r
      ≡ (header_line (take (suc p) buff) r >>= λ r'. header_loop fuel (drop (suc p + 2) buff) r')
unfolding header_loop
header_round fuel buff r p e = rw (e, header_loop)

pub header_end :
    (fuel : ℕ) (buff : Bytes) (r : Request)
    → find crlf buff ≡ some 0
    → header_loop (suc fuel) buff r
      ≡ ok
          (record { code = ok_code; read_buff = drop 2 buff; request = record r { status = body } })
unfolding header_loop
header_end fuel buff r e = rw (e, header_loop)

header_loop-line :
    (fuel : ℕ) (line rest : Bytes) (r : Request)
    → Lacks b'\r' line
    → line ≢ []
    → header_loop (suc fuel) (line ++ (crlf ++ rest)) r
      ≡ (header_line line r >>= λ r'. header_loop fuel rest r')
header_loop-line fuel [] rest r h n = absurd (n refl)
header_loop-line fuel (c ∷ line) rest r h n =
    let buff = (c ∷ line) ++ (crlf ++ rest) in
    header_round fuel buff r (length line) (find-crlf (c ∷ line) rest h)
    ∙ ap
        (λ (s : Bytes).
          header_line s r >>= λ r'. header_loop fuel (drop (suc (length line) + 2) buff) r')
        (take-length-append (c ∷ line) (crlf ++ rest))
    ∙ ap (λ (s : Bytes). header_line (c ∷ line) r >>= λ r'. header_loop fuel s r')
        (drop_behind (c ∷ line) 2 (crlf ++ rest))

lines_regroup :
    (k v : Bytes) (m : StringMap Bytes) (rest : Bytes)
    → header_lines ((k, v) ∷ m) ++ rest ≡ field_of k v ++ (crlf ++ (header_lines m ++ rest))
unfolding header_lines
lines_regroup k v m rest = simp append_assoc

field-ne-nil : (k v : Bytes) → field_of k v ≢ []
field-ne-nil [] v = λ e. cc
field-ne-nil (c ∷ k) v = λ e. cc

field-Lacks : (k v : Bytes) → Lacks b'\r' k → Lacks b'\r' v → Lacks b'\r' (field_of k v)
field-Lacks k v hk hv =
    All-append (λ c. c ≢ b'\r') k (codes ": " ++ v) hk (omega arith, (omega arith, hv))

-- Reading the header of a written request gives the request with all its lines inserted.
header_loop-lines :
    (m : StringMap Bytes) (fuel : ℕ) (rest : Bytes) (r : Request)
    → All IsLine m
    → length m < fuel
    → header_loop fuel (header_lines m ++ (crlf ++ rest)) r
      ≡ ok (record {
        code = ok_code;
        read_buff = rest;
        request = record (insert_all r m) { status = body };
      })
header_loop-lines m zero rest r h lt = elim lt [ ]
header_loop-lines [] (suc fuel) rest r h lt =
    unfold header_lines in header_end fuel (crlf ++ rest) r (find-crlf [] rest tt)
header_loop-lines ((k, v) ∷ m) (suc fuel) rest r ((colon, hk, hv), h) lt =
    ap (λ (s : Bytes). header_loop (suc fuel) s r) (lines_regroup k v m (crlf ++ rest))
    ∙ header_loop-line fuel (field_of k v) _ r (field-Lacks k v hk hv) (field-ne-nil k v)
    ∙ ap
        (λ (o : Outcome Request).
          o >>= λ r'. header_loop fuel (header_lines m ++ (crlf ++ rest)) r')
        (header_line-field k v r colon)
    ∙ header_loop-lines m fuel rest (insert_header r (map to_lower k) v) h (omega arith)

length-header_lines : (m : StringMap Bytes) → length m ≤ length (header_lines m)
unfolding header_lines
length-header_lines [] = omega arith
length-header_lines ((k, v) ∷ m) = omega (
  arith,
  length-append {0} k (codes ": " ++ (v ++ (crlf ++ header_lines m))),
  length-append {0} v (crlf ++ header_lines m),
  length-header_lines m,
)

-- For headers whose keys hold no colon and whose keys and values hold no carriage return, the header
-- parser reads what `Response::makeHead` writes for them and the empty line behind it: each header is
-- inserted, in order, under its key in lower case, the request waits for its body, and the buffer
-- keeps exactly the bytes behind the empty line.
pub header_parser-header_lines :
    (m : StringMap Bytes) (rest : Bytes) (r : Request)
    → All IsLine m
    → header_parser (header_lines m ++ (crlf ++ rest)) r
      ≡ ok (record {
        code = ok_code;
        read_buff = rest;
        request = record (insert_all r m) { status = body };
      })
unfolding header_parser
header_parser-header_lines m rest r h =
    header_loop-lines m _ rest r h
      (omega (arith, length-header_lines m, length-append {0} (header_lines m) (crlf ++ rest)))

-- A header line that ends in its only colon and holds no carriage return makes the parser throw, whatever stands behind the line.
pub header_parser-colon :
    (k rest : Bytes) (r : Request)
    → Lacks b':' k
    → Lacks b'\r' k
    → header_parser (k ++ ((b':' ∷ []) ++ (crlf ++ rest))) r ≡ fault out_of_range
unfolding header_parser
header_parser-colon k rest r h l =
    let buff = k ++ ((b':' ∷ []) ++ (crlf ++ rest)) in
    ap (λ (s : Bytes). header_loop (length buff + 1) s r)
      (sym (append_assoc k (b':' ∷ []) (crlf ++ rest)))
    ∙ ap (λ (n : ℕ). header_loop n ((k ++ (b':' ∷ [])) ++ (crlf ++ rest)) r)
        (let e : length buff + 1 ≡ suc (length buff) = omega arith in e)
    ∙ header_loop-line (length buff) (k ++ (b':' ∷ [])) rest r
        (All-append _ k (b':' ∷ []) l ((λ e. omega arith), tt)) (concat-ne-nil k)
    ∙ ap (λ (o : Outcome Request). o >>= λ r'. header_loop (length buff) rest r')
        (header_line_crash k r h)
  where
    concat-ne-nil : (k : Bytes) → k ++ (b':' ∷ []) ≢ []
    concat-ne-nil [] e = cc
    concat-ne-nil (c ∷ k) e = cc

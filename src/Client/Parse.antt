-- ===== src/Client/Parse.antt =====
-- The request parsers of src/Client.cpp: each reads from the front of `read_buff` and fills in the
-- request. `undef` is the value of a local variable that was never set.
pub mod Headers
pub mod RequestLine
pub mod Asked
pub mod Chunked
pub mod Shrink
use lazy_team.Base.{
  ℕ, zero, suc, ◌+◌, ◌-◌, ◌^◌, Bool, true, false, ◌&&◌, ◌||◌, List, [], ◌∷◌, ◌++◌, Option, none,
  some, ◌≡◌, refl, leb, ltb, ◌==◌, if◌then◌else◌, length, take, drop, Outcome, ok, fault,
  out_of_fuel, out_of_range, ◌>>=◌, map,
}
use lazy_team.Text.{
  Bytes, crlf, codes, plus, find, find_class, find_from, substr, text_eq, to_lower, IStream,
  open_stream, read_word, read_unsigned, Number, untouched, read, failed, into,
}
use lazy_team.Webserv.{
  size_max, Code, ok_code, error_code, Status, nothing, header, body, finished, read_fail,
  length_req, is_status, get_method, post_method, delete_method, other_method,
}
use lazy_team.Message.{Request, insert_header, append_body, get_header_value}

-- What a parser leaves behind: its result, the buffer and the request.
pub record Parsed : Type 0 where
  pub code : Code
  pub read_buff : Bytes
  pub request : Request

unfoldable pub is_hex_digit : ℕ → Bool
is_hex_digit c =
    (leb b'0' c && leb c b'9') || (leb b'A' c && leb c b'F') || (leb b'a' c && leb c b'f')

-- `iss.str(tmp); iss >> std::hex >> len`: a stream that has failed reads nothing, and stays failed.
unfoldable pub read_len : Bool → Bytes → Number
read_len false tmp = untouched
read_len true tmp = read_unsigned 16 size_max tmp

-- Whether the stream can be read again. A size that is read has no hexadecimal digit, so no number is
-- ever found in it.
unfoldable pub is_read : Number → Bool
is_read (read n) = true
is_read _ = false

-- The loop of `chunkedParser`; `good` is the state of `iss`. Each round removes at least four bytes
-- from the buffer.
unfoldable pub chunked_loop : ℕ → ℕ → Bool → Bytes → Request → Outcome Parsed
unfolding is_hex_digit read_len is_read
chunked_loop zero len good buff r = fault out_of_fuel
chunked_loop (suc fuel) zero good buff r =
    ok (record { code = ok_code; read_buff = buff; request = record r { status = finished } })
chunked_loop (suc fuel) (suc l) good buff r = elim (find crlf buff) [
  | none ↦ ok (record { code = ok_code; read_buff = buff; request = r })
  | some len_end ↦ elim (find_from crlf buff (len_end + 2)) [
    | none ↦ ok (record { code = ok_code; read_buff = buff; request = r })
    | some contents_end ↦
        let tmp = take len_end buff in
        elim (find_class is_hex_digit tmp) [
          | some i ↦ ok (record {
            code = error_code;
            read_buff = [];
            request = record r { status = read_fail };
          })
          | none ↦ do
            let got = read_len good tmp
            content ← substr buff (len_end + 2) (some (into got (suc l)))
            chunked_loop fuel (into got (suc l)) (is_read got) (drop (contents_end + 2) buff)
                (append_body r content)
        ]
  ]
]

unfoldable pub chunked_parser : Bytes → Request → Outcome Parsed
unfolding chunked_loop
chunked_parser buff r = chunked_loop (length buff + 2) 1 true buff r

-- The part of `lengthParser` behind the read of the length.
unfoldable pub take_body : ℕ → Bytes → Request → Parsed
take_body len buff r =
    if leb len (length buff)
    then record {
      code = ok_code;
      read_buff = drop len buff;
      request = record (append_body r (take len buff)) { status = finished };
    }
    else record { code = ok_code; read_buff = buff; request = r }

unfoldable pub length_parser : ℕ → Bytes → Request → Parsed
unfolding take_body
length_parser undef buff r =
    take_body (into (read_unsigned 10 size_max (get_header_value r (codes "content-length"))) undef)
      buff r

-- One header line: the key up to the first colon, in lower case, and the value two bytes behind it.
unfoldable pub header_line : Bytes → Request → Outcome Request
header_line tmp r = do
  let pos = find (b':' ∷ []) tmp
  key ← substr tmp 0 pos
  value ← substr tmp (plus pos 2) none
  ok (insert_header r (map to_lower key) value)

-- `while (pos != npos && pos != 0)`, and what follows the loop: an empty line ends the header. Each
-- round removes at least three bytes from the buffer.
unfoldable pub header_loop : ℕ → Bytes → Request → Outcome Parsed
unfolding header_line
header_loop zero buff r = fault out_of_fuel
header_loop (suc fuel) buff r = elim (find crlf buff) [
  | none ↦ ok (record { code = ok_code; read_buff = buff; request = r })
  | some zero ↦
      ok (record { code = ok_code; read_buff = drop 2 buff; request = record r { status = body } })
  | some (suc p) ↦ do
    r' ← header_line (take (suc p) buff) r
    header_loop fuel (drop (suc p + 2) buff) r'
]

unfoldable pub header_parser : Bytes → Request → Outcome Parsed
unfolding header_loop
header_parser buff r = header_loop (length buff + 1) buff r

unfoldable pub method_of : Bytes → ℕ
method_of tmp =
    if text_eq tmp (codes "GET")
    then get_method
    else if text_eq tmp (codes "POST")
    then post_method
    else if text_eq tmp (codes "DELETE")
    then delete_method
    else other_method

unfoldable pub from_slash : Bytes → Option ℕ → Outcome Bytes
from_slash behind none = fault out_of_range
from_slash behind (some q) = substr behind q none

-- An absolute URI loses its scheme and its authority; with no slash behind them `substr` throws.
unfoldable pub strip_authority : Bytes → Outcome Bytes
unfolding from_slash
strip_authority uri = elim (find (codes "://") uri) [
  | none ↦ ok uri
  | some p ↦ do behind ← substr uri (p + 3) none; from_slash behind (find (codes "/") behind)
]

-- The target before and behind the first question mark.
unfoldable pub split_query : Bytes → Bytes × Bytes
split_query tmp = elim (find (codes "?") tmp) [
  | none ↦ (tmp, [])
  | some idx ↦ (take idx tmp, drop (idx + 1) tmp)
]

-- The request line with no line end. Each `ss >> tmp` with nothing left keeps what `tmp` holds.
unfoldable pub req_line : Bytes → Request → Outcome Request
unfolding method_of strip_authority split_query
req_line line r = do
  let (s1, verb) = read_word (open_stream line) line
  let (s2, target) = read_word s1 verb
  full ← strip_authority target
  let (path, query) = split_query full
  let (s3, version) = read_word s2 path
  ok (record r {
    method = method_of verb;
    uri = path;
    query_string = query;
    version = version;
    status = header;
  })

unfoldable pub req_line_parser : Bytes → Request → Outcome Parsed
unfolding req_line
req_line_parser buff r = elim (find crlf buff) [
  | none ↦ ok (record { code = error_code; read_buff = buff; request = r })
  | some zero ↦ ok (record { code = error_code; read_buff = buff; request = r })
  | some (suc p) ↦ do
    r' ← req_line (take (suc p) buff) r
    ok (record { code = ok_code; read_buff = drop (suc p + 2) buff; request = r' })
]

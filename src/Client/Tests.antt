-- ===== src/Client/Tests.antt =====
-- Runs of src/Client.cpp, and instances of the theorems.
use lazy_team.Client.State.{Client, new_client}
use lazy_team.Client.Parse.{
  method_of, strip_authority, from_slash, chunked_parser, header_parser, req_line_parser,
}
use lazy_team.Client.Receive.{recv_request, init_parser}
use lazy_team.Client.Receive.Written.{
  Written, written, parsed, IsLegible, IsFramed, init_parser-written,
}
use lazy_team.Client.Receive.Dropped.{both_answered, recv_request-refused}
use lazy_team.Client.Receive.Pipeline.{
  all_written, all_answered, asked, pass, recv_request-all_written,
}
use lazy_team.Client.Parse.Asked.{is_post, absolute, req_line_parser-with_query}
use lazy_team.Client.Parse.Headers.{
  IsLine, insert_all, header_parser-header_lines, header_parser-colon,
}
use lazy_team.Client.Parse.RequestLine.{request_line, strip_authority-absolute}
use lazy_team.Client.Parse.Chunked.{chunked_parser_refuses}
use lazy_team.Client.Send.{pass_response}
use lazy_team.Client.Send.Stream.{pass_response-wire}
use lazy_team.Client.Send.Wire.{wire}
use lazy_team.Re3.{Re3, new_re3}
use lazy_team.Message.{
  Response, new_response, header_lines, new_request, insert_header, get_header_value, Request,
}
use lazy_team.Base.{
  All, ◌+◌, true, Bool, not, ◌&&◌, ◌==◌, inl, inr, take, drop, ℕ, [], ◌∷◌, ◌++◌, none, some, ◌≡◌,
  refl, ok, fault, out_of_range, arith,
}
use lazy_team.Text.{
  Bytes, codes, find, find_class, substr, text_eq, to_lower, read_word, read_unsigned, Lacks,
  NoSpace, IsWord, is_space, crlf,
}
use lazy_team.StringMap.{insert}
use lazy_team.Webserv.{
  ServerStatus, response_making_done, network_buff, ok_code, error_code, header, body, finished,
  read_fail,
}

abbrev get_text : Bytes
get_text = codes "GET /a?x=1 HTTP/1.1\r\nHost: h\r\nA: \r\n\r\nrest"

abbrev get_parsed : Request
get_parsed = record {
  status = finished;
  method = 1;
  uri = codes "/a";
  query_string = codes "x=1";
  version = codes "HTTP/1.1";
  headers = (codes "a", []) ∷ (codes "host", codes "h") ∷ [];
  body = [];
}

init_parser_get :
    init_parser 0 get_text new_request
    ≡ ok (record { code = ok_code; read_buff = codes "rest"; request = get_parsed })
unfolding init_parser req_line_parser header_parser read_word read_unsigned find find_class substr
    text_eq to_lower insert insert_header get_header_value
init_parser_get = refl

init_parser_crash :
    init_parser 0 (codes "GET / HTTP/1.1\r\nHost:\r\n\r\n") new_request ≡ fault out_of_range
unfolding init_parser req_line_parser header_parser read_word read_unsigned find find_class substr
    text_eq to_lower insert insert_header get_header_value
init_parser_crash = refl

-- Tests that decide the hypotheses on a concrete text.
all : (ℕ → Bool) → Bytes → Bool
all test [] = true
all test (c ∷ s) = test c && all test s

differs : ℕ → ℕ → Bool
differs b c = not (c == b)

lacks : (b : ℕ) (s : Bytes) → all (differs b) s ≡ true → Lacks b s
unfolding all differs
lacks b [] e = tt
lacks b (c ∷ s) e = ((λ x. ground arith), lacks b s (ground arith))

no_space : ℕ → Bool
no_space c = not (is_space c)

spaceless : (s : Bytes) → all no_space s ≡ true → NoSpace s
unfolding all no_space
spaceless [] e = tt
spaceless (c ∷ s) e = (ground arith, spaceless s (ground arith))

IsWord-test : (c : ℕ) (s : Bytes) → all no_space (c ∷ s) ≡ true → IsWord (c ∷ s)
IsWord-test c s e = ((λ x. cc), spaceless (c ∷ s) e)

abbrev get_request : Written
get_request = record {
  verb = codes "GET";
  target = codes "/a?x=1";
  version = codes "HTTP/1.1";
  headers = (codes "Host", codes "h") ∷ [];
  content = [];
}

abbrev post_request : Written
post_request = record {
  verb = codes "POST";
  target = codes "/b";
  version = codes "HTTP/1.1";
  headers = (codes "Content-Length", codes "2") ∷ [];
  content = codes "hi";
}

verb_words : IsWord (codes "GET") × IsWord (codes "POST") × IsWord (codes "HTTP/1.1")
unfolding all no_space is_space
verb_words = (IsWord-test _ _ refl, IsWord-test _ _ refl, IsWord-test _ _ refl)

target_words : IsWord (codes "/a?x=1") × IsWord (codes "/b")
unfolding all no_space is_space
target_words = (IsWord-test _ _ refl, IsWord-test _ _ refl)

host_lines : All IsLine get_request.headers
unfolding all differs
host_lines = (
  (lacks b':' (codes "Host") refl, lacks b'\r' (codes "Host") refl, lacks b'\r' (codes "h") refl),
  tt,
)

length_lines : All IsLine post_request.headers
unfolding all differs
length_lines = (
  (
    lacks b':' (codes "Content-Length") refl,
    lacks b'\r' (codes "Content-Length") refl,
    lacks b'\r' (codes "2") refl,
  ),
  tt,
)

get_request-IsLegible : IsLegible get_request
unfolding all differs find
get_request-IsLegible = record {
  verb_word = verb_words.0;
  target_word = target_words.0;
  version_word = verb_words.2;
  origin = refl;
  lines = host_lines;
}

post_request-IsLegible : IsLegible post_request
unfolding all differs find
post_request-IsLegible = record {
  verb_word = verb_words.1;
  target_word = target_words.1;
  version_word = verb_words.2;
  origin = refl;
  lines = length_lines;
}

get_request-IsFramed : IsFramed get_request
unfolding get_header_value insert insert_header to_lower method_of text_eq find
get_request-IsFramed = record { unchunked = refl; sized = inr (refl, refl, λ e. omega arith) }

post_request-IsFramed : IsFramed post_request
unfolding get_header_value insert insert_header to_lower method_of text_eq find read_unsigned
post_request-IsFramed = record { unchunked = refl; sized = inl ((λ e. omega arith), refl) }

init_parser-written_example :
    init_parser 0 (written post_request ++ codes "GET") new_request
    ≡ ok (record { code = ok_code; read_buff = codes "GET"; request = parsed post_request })
init_parser-written_example =
    init_parser-written 0 post_request (codes "GET") post_request-IsLegible post_request-IsFramed

-- A port manager that answers every request with its target, and counts the requests.
abbrev answer_of : Re3 → Response
answer_of t = elim t.req_ptr [
  | none ↦ new_response finished (codes "404 Not Found") [] [] (codes "HTTP/1.1")
  | some r ↦ new_response finished (codes "200 OK") [] r.uri (codes "HTTP/1.1")
]

abbrev counting : Re3 → ℕ → Re3 × ServerStatus × ℕ
counting t n = (record t { rsp_ptr = some (answer_of t) }, response_making_done, n + 1)

recv_request-all_written_example :
    recv_request (pass counting) 0 (new_client 4) (all_written (get_request ∷ post_request ∷ [])) 0
    ≡ ok (all_answered counting (new_client 4) [] (get_request ∷ post_request ∷ []) 0)
recv_request-all_written_example =
    recv_request-all_written counting 0 (new_client 4) [] (get_request ∷ post_request ∷ []) 0
      (record { no_bytes = refl; waits = inl (refl, refl) })
      (
        (get_request-IsLegible, get_request-IsFramed),
        ((post_request-IsLegible, post_request-IsFramed), tt),
      )

header_parser-header_lines_example :
    header_parser (header_lines get_request.headers ++ (crlf ++ codes "x")) new_request
    ≡ ok (record {
      code = ok_code;
      read_buff = codes "x";
      request = record (insert_all new_request get_request.headers) { status = body };
    })
header_parser-header_lines_example =
    header_parser-header_lines get_request.headers (codes "x") new_request host_lines

header_parser-colon_example :
    header_parser (codes "Host" ++ ((b':' ∷ []) ++ (crlf ++ crlf))) new_request ≡ fault out_of_range
unfolding all differs
header_parser-colon_example =
    header_parser-colon (codes "Host") crlf new_request (lacks b':' (codes "Host") refl)
      (lacks b'\r' (codes "Host") refl)

stripped : strip_authority (codes "http://h/a") ≡ ok (codes "/a")
unfolding strip_authority find substr from_slash
stripped = refl

asked_line : IsWord (codes "http://h/a?x=?1")
unfolding all no_space is_space
asked_line = IsWord-test _ _ refl

req_line_parser-with_query_example :
    req_line_parser
      (request_line (codes "POST") (codes "http://h/a?x=?1") (codes "HTTP/1.1")
        ++ (crlf ++ codes "x"))
      new_request
    ≡ ok (record {
      code = ok_code;
      read_buff = codes "x";
      request = record new_request {
        method = 2;
        uri = codes "/a";
        query_string = codes "x=?1";
        version = codes "HTTP/1.1";
        status = header;
      };
    })
unfolding all no_space is_space differs
req_line_parser-with_query_example =
    req_line_parser-with_query (codes "POST") (codes "http://h/a?x=?1") (codes "/a")
      (codes "HTTP/1.1") (codes "x") (some (codes "x=?1")) 2 new_request (IsWord-test _ _ refl)
      asked_line verb_words.2 is_post
      (absolute (codes "http") (codes "h") (codes "a?x=?1") (lacks b':' (codes "http") refl)
        (lacks b'/' (codes "h") refl))
      (lacks b'?' (codes "/a") refl)

strip_authority-absolute_example :
    (strip_authority (codes "http" ++ (codes "://" ++ (codes "h" ++ (b'/' ∷ codes "a"))))
      ≡ ok (b'/' ∷ codes "a"))
    × (strip_authority (codes "http" ++ (codes "://" ++ codes "h")) ≡ fault out_of_range)
unfolding all differs
strip_authority-absolute_example =
    strip_authority-absolute (codes "http") (codes "h") (codes "a") (lacks b':' (codes "http") refl)
      (lacks b'/' (codes "h") refl)

chunked_parser_refuses_example :
    chunked_parser
      (([] ++ b'a' ∷ []) ++ (crlf ++ (codes "0123456789" ++ (crlf ++ codes "0\r\n\r\n"))))
      new_request
    ≡ ok (record {
      code = error_code;
      read_buff = [];
      request = record new_request { status = read_fail };
    })
unfolding all differs
chunked_parser_refuses_example =
    chunked_parser_refuses [] b'a' [] (codes "0123456789") (codes "0\r\n\r\n") new_request
      (lacks b'\r' (codes "a") refl) (inr (inr (omega arith, omega arith)))

abbrev answered_client : Client
answered_client = record (new_client 4) {
  re3_deque =
      record (new_re3 4) { rsp_ptr = some (answer_of (asked 4 get_request)) } ∷ new_re3 4 ∷ [];
}

pass_response-wire_example :
    (c' : Client) × (pass_response answered_client
      ≡ ok (c', take network_buff (wire answered_client.re3_deque)))
    × (wire c'.re3_deque ≡ drop network_buff (wire answered_client.re3_deque))
pass_response-wire_example =
    pass_response-wire answered_client
      (record (new_re3 4) { rsp_ptr = some (answer_of (asked 4 get_request)) })
      (answer_of (asked 4 get_request)) (new_re3 4 ∷ []) refl refl

recv_request-refused_example :
    recv_request (pass counting) 0 (new_client 4) (written get_request ++ crlf) 0
    ≡ ok (both_answered counting (new_client 4) [] get_request crlf new_request 0)
unfolding init_parser req_line_parser find
recv_request-refused_example =
    recv_request-refused counting 0 (new_client 4) [] get_request crlf crlf new_request 0
      (record { no_bytes = refl; waits = inl (refl, refl) })
      (get_request-IsLegible, get_request-IsFramed) refl

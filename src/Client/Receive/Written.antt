-- ===== src/Client/Receive/Written.antt =====
-- A request as a client writes it, and what `initParser` of src/Client.cpp reads of it.
use lazy_team.Base.{
  ℕ, ◌<◌, [], ◌∷◌, ◌++◌, none, ◌≡◌, refl, sym, ap, ◌∙◌, ◌≢◌, ◌⊎◌, inl, inr, length, All, Outcome,
  ok, arith, length-append, ◌>>=◌, append_assoc, take-length-append, drop-length-append, map,
}
use lazy_team.Text.{Bytes, crlf, codes, find, read_unsigned, to_lower, Number, read, into, IsWord}
use lazy_team.StringMap.{StringMap}
use lazy_team.Webserv.{size_max, ok_code, body, finished, post_method}
use lazy_team.Message.{
  Request, get_header_value, new_request, header_lines, insert_header, append_body,
}
use lazy_team.Client.Parse.{Parsed, length_parser, take_body}
use lazy_team.Client.Parse.Headers.{IsLine, insert_all, header_parser-header_lines}
use lazy_team.Client.Parse.RequestLine.{
  request_line, with_line, req_line_parser-request_line, strip_authority-origin,
}
use lazy_team.Client.Receive.{
  body_parser, line_stage, header_stage, body_stage, after_req_line, init_parser,
}

pub record Written : Type 0 where
  pub verb : Bytes
  pub target : Bytes
  pub version : Bytes
  pub headers : StringMap Bytes
  pub content : Bytes

-- The lines, the empty line and the body.
abbrev pub written : Written → Bytes
written q =
    request_line q.verb q.target q.version
    ++ (crlf ++ (header_lines q.headers ++ (crlf ++ q.content)))

-- The request behind its header.
abbrev pub headed : Written → Request
headed q = record (insert_all (with_line new_request q.verb q.target q.version) q.headers) {
  status = body;
}

-- The request with its body.
abbrev pub parsed : Written → Request
parsed q = record (headed q) { body = q.content; status = finished }

-- The words of the line hold no space, the target is a path, and no header breaks its line.
pub record IsLegible (q : Written) : Type 0 where
  pub verb_word : IsWord q.verb
  pub target_word : IsWord q.target
  pub version_word : IsWord q.version
  pub origin : find (codes "://") q.target ≡ none
  pub lines : All IsLine q.headers

abbrev pub header_of : Written → Bytes → Bytes
header_of q = get_header_value (headed q)

-- The body is as long as the header says, and is not sent in chunks: it has the length that the header
-- names, or there is no such header and no body, and the method is not POST.
pub record IsFramed (q : Written) : Type 0 where
  pub unchunked : find (codes "chunked") (header_of q (codes "transfer-encoding")) ≡ none
  pub sized :
      ((length (header_of q (codes "content-length")) ≢ 0)
        × (read_unsigned 10 size_max (header_of q (codes "content-length"))
            ≡ read (length q.content)))
      ⊎ ((length (header_of q (codes "content-length")) ≡ 0)
          × (q.content ≡ [])
          × ((headed q).method ≢ post_method))

insert_all-body : (r : Request) (m : StringMap Bytes) → (insert_all r m).body ≡ r.body
unfolding insert_header
insert_all-body r [] = refl
insert_all-body r ((k, v) ∷ m) = insert_all-body (insert_header r (map to_lower k) v) m

headed-body : (q : Written) → (headed q).body ≡ []
headed-body q = insert_all-body (with_line new_request q.verb q.target q.version) q.headers

take_body-length :
    (r : Request) (content rest : Bytes)
    → take_body (length content) (content ++ rest) r ≡ record {
      code = ok_code;
      read_buff = rest;
      request = record r { body = r.body ++ content; status = finished };
    }
unfolding take_body append_body
take_body-length r content rest =
    rw (take-length-append content rest, drop-length-append content rest)
      (ground (arith, length-append content rest))

body_parser-length_parser :
    (undef : ℕ) (buff : Bytes) (r : Request)
    → find (codes "chunked") (get_header_value r (codes "transfer-encoding")) ≡ none
    → length (get_header_value r (codes "content-length")) ≢ 0
    → body_parser undef buff r ≡ ok (length_parser undef buff r)
unfolding body_parser
body_parser-length_parser undef buff r a b = ground arith

length_parser-take_body :
    (undef n : ℕ) (buff : Bytes) (r : Request)
    → read_unsigned 10 size_max (get_header_value r (codes "content-length")) ≡ read n
    → length_parser undef buff r ≡ take_body n buff r
unfolding length_parser
length_parser-take_body undef n buff r c = ap (λ (k : Number). take_body (into k undef) buff r) c

body_parser-empty :
    (undef : ℕ) (r : Request) (rest : Bytes)
    → find (codes "chunked") (get_header_value r (codes "transfer-encoding")) ≡ none
    → length (get_header_value r (codes "content-length")) ≡ 0
    → r.method ≢ post_method
    → body_parser undef rest r
      ≡ ok (record { code = ok_code; read_buff = rest; request = record r { status = finished } })
unfolding body_parser
body_parser-empty undef r rest a b c = ground arith

body_parser-framed :
    (undef : ℕ) (q : Written) (rest : Bytes)
    → IsFramed q
    → body_parser undef (q.content ++ rest) (headed q)
      ≡ ok (record { code = ok_code; read_buff = rest; request = parsed q })
body_parser-framed undef q rest f = go f.sized
  where
    done : Bytes → Parsed
    done b = record {
      code = ok_code;
      read_buff = rest;
      request = record (headed q) { body = b; status = finished };
    }

    go :
        ((length (header_of q (codes "content-length")) ≢ 0)
            × (read_unsigned 10 size_max (header_of q (codes "content-length"))
                ≡ read (length q.content)))
          ⊎ ((length (header_of q (codes "content-length")) ≡ 0)
              × (q.content ≡ [])
              × ((headed q).method ≢ post_method))
        → body_parser undef (q.content ++ rest) (headed q)
          ≡ ok (record { code = ok_code; read_buff = rest; request = parsed q })
    go (inl (some_length, number)) =
        body_parser-length_parser undef (q.content ++ rest) (headed q) f.unchunked some_length
        ∙ ap ok (length_parser-take_body undef (length q.content) _ (headed q) number)
        ∙ ap ok (take_body-length (headed q) q.content rest)
        ∙ ap (λ (b : Bytes). ok (done (b ++ q.content))) (headed-body q)
    go (inr (no_length, empty, not_post)) =
        ap (λ (b : Bytes). body_parser undef (b ++ rest) (headed q)) empty
        ∙ body_parser-empty undef (headed q) rest f.unchunked no_length not_post
        ∙ ap (λ (b : Bytes). ok (done b)) (headed-body q ∙ sym empty)

body_stage-headed :
    (undef : ℕ) (q : Written) (rest : Bytes)
    → IsFramed q
    → body_stage undef
        (record { code = ok_code; read_buff = q.content ++ rest; request = headed q })
      ≡ ok (record { code = ok_code; read_buff = rest; request = parsed q })
unfolding body_stage
body_stage-headed undef q rest f = body_parser-framed undef q rest f

header_stage-lines :
    (q : Written) (rest : Bytes)
    → All IsLine q.headers
    → header_stage
        (header_lines q.headers ++ (crlf ++ rest))
        (with_line new_request q.verb q.target q.version)
      ≡ ok (record { code = ok_code; read_buff = rest; request = headed q })
unfolding header_stage
header_stage-lines q rest h = header_parser-header_lines q.headers rest _ h

line_stage-line :
    (q : Written) (rest : Bytes)
    → IsLegible q
    → line_stage (request_line q.verb q.target q.version ++ (crlf ++ rest)) new_request
      ≡ ok (record {
        code = ok_code;
        read_buff = rest;
        request = with_line new_request q.verb q.target q.version;
      })
unfolding line_stage
line_stage-line q rest h =
    req_line_parser-request_line q.verb q.target q.target q.version rest new_request h.verb_word
      h.target_word h.version_word (strip_authority-origin q.target h.origin)

after_req_line-stages :
    (undef : ℕ) (buff : Bytes) (r : Request)
    → after_req_line undef (record { code = ok_code; read_buff = buff; request = r })
      ≡ (header_stage buff r >>= body_stage undef)
unfolding after_req_line
after_req_line-stages undef buff r = refl

init_parser-stages :
    (undef : ℕ) (buff : Bytes) (r : Request)
    → buff ≢ []
    → init_parser undef buff r ≡ (line_stage buff r >>= after_req_line undef)
unfolding init_parser
init_parser-stages undef [] r n = absurd (n refl)
init_parser-stages undef (c ∷ buff) r n = refl

append-ne-nil : (a b : Bytes) → a ≢ [] → a ++ b ≢ []
append-ne-nil [] b n = absurd (n refl)
append-ne-nil (c ∷ a) b n = λ e. cc

written-ne-nil : (q : Written) (rest : Bytes) → IsLegible q → written q ++ rest ≢ []
written-ne-nil q rest h = append-ne-nil _ rest (
    append-ne-nil (request_line q.verb q.target q.version) _ (append-ne-nil q.verb _ h.verb_word.0))

written_regroup :
    (q : Written) (rest : Bytes)
    → written q ++ rest
      ≡ request_line q.verb q.target q.version
        ++ (crlf ++ (header_lines q.headers ++ (crlf ++ (q.content ++ rest))))
written_regroup q rest = simp append_assoc

-- A legible and framed request, with any bytes behind it, is read whole in one call: the request is
-- finished, with the method, path, query, version, headers and body that were written, and the
-- buffer keeps exactly the bytes behind it.
pub init_parser-written :
    (undef : ℕ) (q : Written) (rest : Bytes)
    → IsLegible q
    → IsFramed q
    → init_parser undef (written q ++ rest) new_request
      ≡ ok (record { code = ok_code; read_buff = rest; request = parsed q })
init_parser-written undef q rest h f =
    init_parser-stages undef _ new_request (written-ne-nil q rest h)
    ∙ ap (λ (b : Bytes). line_stage b new_request >>= after_req_line undef) (written_regroup q rest)
    ∙ ap (λ (o : Outcome Parsed). o >>= after_req_line undef) (line_stage-line q _ h)
    ∙ after_req_line-stages undef _ _
    ∙ ap (λ (o : Outcome Parsed). o >>= body_stage undef)
        (header_stage-lines q (q.content ++ rest) h.lines)
    ∙ body_stage-headed undef q rest f

pub length-written : (q : Written) → 0 < length (written q)
length-written q = omega (
  arith,
  length-append {0} (request_line q.verb q.target q.version)
      (crlf ++ (header_lines q.headers ++ (crlf ++ q.content))),
)

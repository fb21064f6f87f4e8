-- ===== src/Client/Parse/RequestLine.antt =====
-- `reqLineParser` of src/Client.cpp: the request line, its target and its query.
use lazy_team.Base.{
  ℕ, suc, ◌+◌, false, [], ◌∷◌, ◌++◌, none, some, ◌≡◌, refl, ap, ◌∙◌, ◌≢◌, length, take, drop,
  All-append, Outcome, ok, fault, out_of_range, ◌>>=◌, arith, take-length-append, drop_behind,
}
use lazy_team.Text.{
  Bytes, crlf, codes, find, substr, Lacks, find-crlf, find_byte, IsWord, NoSpace, read_word_lem,
  read_word_last, read_word_blank, substr_behind, is_space,
}
use lazy_team.Webserv.{ok_code, header}
use lazy_team.Message.{Request}
use lazy_team.Client.Parse.{
  method_of, from_slash, strip_authority, split_query, req_line, req_line_parser,
}

-- A request line: three words with a blank between them.
abbrev pub request_line : Bytes → Bytes → Bytes → Bytes
request_line verb target version = verb ++ (b' ' ∷ (target ++ (b' ' ∷ version)))

-- The request after its line was read, with the target that is left of an absolute URI.
abbrev pub with_line : Request → Bytes → Bytes → Bytes → Request
with_line r verb target version = record r {
  method = method_of verb;
  uri = (split_query target).0;
  query_string = (split_query target).1;
  version = version;
  status = header;
}

req_line-request_line :
    (verb target path version : Bytes) (r : Request)
    → IsWord verb
    → IsWord target
    → IsWord version
    → strip_authority target ≡ ok path
    → req_line (request_line verb target version) r ≡ ok (with_line r verb path version)
unfolding req_line
req_line-request_line verb target path version r hv ht hs e =
    rw (read_word_lem verb (target ++ (b' ' ∷ version)) (request_line verb target version) hv) (
      rw (read_word_blank (target ++ (b' ' ∷ version)) verb) (
        rw (read_word_lem target version verb ht) (
          rw e (
            rw (read_word_blank version (split_query path).0)
              (rw (read_word_last version (split_query path).0 hs))))))

no_return : (c : ℕ) → is_space c ≡ false → c ≢ b'\r'
unfolding is_space
no_return c h = ground arith

NoSpace-Lacks : (w : Bytes) → NoSpace w → Lacks b'\r' w
NoSpace-Lacks [] h = tt
NoSpace-Lacks (c ∷ w) (e, h) = (no_return c e, NoSpace-Lacks w h)

request_line-Lacks :
    (verb target version : Bytes)
    → NoSpace verb
    → NoSpace target
    → NoSpace version
    → Lacks b'\r' (request_line verb target version)
request_line-Lacks verb target version hv ht hs =
    All-append (λ c. c ≢ b'\r') verb _ (NoSpace-Lacks verb hv)
      (
        omega arith,
        All-append (λ c. c ≢ b'\r') target _ (NoSpace-Lacks target ht)
            (omega arith, NoSpace-Lacks version hs),
      )

pub parser_round :
    (buff : Bytes) (r : Request) (p : ℕ)
    → find crlf buff ≡ some (suc p)
    → req_line_parser buff r ≡ (
        req_line (take (suc p) buff) r >>= λ r'.
        ok (record { code = ok_code; read_buff = drop (suc p + 2) buff; request = r' }))
unfolding req_line_parser
parser_round buff r p e = rw (e, req_line_parser)

req_line_parser-line :
    (line rest : Bytes) (r : Request)
    → Lacks b'\r' line
    → line ≢ []
    → req_line_parser (line ++ (crlf ++ rest)) r
      ≡ (req_line line r >>= λ r'. ok (record { code = ok_code; read_buff = rest; request = r' }))
req_line_parser-line [] rest r h n = absurd (n refl)
req_line_parser-line (c ∷ line) rest r h n =
    let buff = (c ∷ line) ++ (crlf ++ rest) in
    parser_round buff r (length line) (find-crlf (c ∷ line) rest h)
    ∙ ap
        (λ (s : Bytes). req_line s r >>= λ r'.
          ok (record {
            code = ok_code;
            read_buff = drop (suc (length line) + 2) buff;
            request = r';
          }))
        (take-length-append (c ∷ line) (crlf ++ rest))
    ∙ ap
        (λ (s : Bytes). req_line (c ∷ line) r >>= λ r'.
          ok (record { code = ok_code; read_buff = s; request = r' }))
        (drop_behind (c ∷ line) 2 (crlf ++ rest))

request_line-ne-nil :
    (verb target version : Bytes) → verb ≢ [] → request_line verb target version ≢ []
request_line-ne-nil [] target version n = absurd (n refl)
request_line-ne-nil (c ∷ verb) target version n = λ e. cc

-- A request line of three words is read word by word: the parser sets the method, the path, the query
-- and the version from them, waits for the header, and leaves in the buffer exactly the bytes behind
-- the line. `path` is what `strip_authority` leaves of the target.
pub req_line_parser-request_line :
    (verb target path version rest : Bytes) (r : Request)
    → IsWord verb
    → IsWord target
    → IsWord version
    → strip_authority target ≡ ok path
    → req_line_parser (request_line verb target version ++ (crlf ++ rest)) r
      ≡ ok (record { code = ok_code; read_buff = rest; request = with_line r verb path version })
req_line_parser-request_line verb target path version rest r hv ht hs e =
    req_line_parser-line (request_line verb target version) rest r
      (request_line-Lacks verb target version hv.1 ht.1 hs.1)
      (request_line-ne-nil verb target version hv.0)
    ∙ ap
        (λ (o : Outcome Request).
          o >>= λ r'. ok (record { code = ok_code; read_buff = rest; request = r' }))
        (req_line-request_line verb target path version r hv ht hs e)

-- A target with no "://" stays as it is.
pub strip_authority-origin :
    (target : Bytes) → find (codes "://") target ≡ none → strip_authority target ≡ ok target
unfolding strip_authority
strip_authority-origin target e = rw (e, strip_authority)

find_scheme :
    (scheme rest : Bytes)
    → Lacks b':' scheme
    → find (codes "://") (scheme ++ (codes "://" ++ rest)) ≡ some (length scheme)
unfolding find
find_scheme [] rest h = refl
find_scheme (c ∷ scheme) rest h = ground (arith, find_scheme scheme rest h.1)

pub find_byte-none : (b : ℕ) (host : Bytes) → Lacks b host → find (b ∷ []) host ≡ none
unfolding find
find_byte-none b [] h = refl
find_byte-none b (c ∷ host) h = ground (arith, find_byte-none b host h.1)

pub strip_found :
    (uri : Bytes) (p : ℕ)
    → find (codes "://") uri ≡ some p
    → strip_authority uri
      ≡ (substr uri (p + 3) none >>= λ behind. from_slash behind (find (codes "/") behind))
unfolding strip_authority
strip_found uri p e = rw (e, strip_authority)

-- The part of an absolute URI behind its authority.
strip_absolute :
    (scheme behind : Bytes)
    → Lacks b':' scheme
    → strip_authority (scheme ++ (codes "://" ++ behind))
      ≡ from_slash behind (find (codes "/") behind)
strip_absolute scheme behind h =
    strip_found _ _ (find_scheme scheme behind h)
    ∙ ap (λ (o : Outcome Bytes). o >>= λ s. from_slash s (find (codes "/") s))
        (substr_behind scheme 3 (codes "://" ++ behind) (omega arith))

-- An absolute URI whose scheme holds no colon and whose authority holds no slash: with a path behind
-- the authority the path is left, and with nothing behind it `substr` throws.
pub strip_authority-absolute :
    (scheme host path : Bytes)
    → Lacks b':' scheme
    → Lacks b'/' host
    → (strip_authority (scheme ++ (codes "://" ++ (host ++ (b'/' ∷ path)))) ≡ ok (b'/' ∷ path))
      × (strip_authority (scheme ++ (codes "://" ++ host)) ≡ fault out_of_range)
unfolding from_slash
strip_authority-absolute scheme host path hs hh = (
  strip_absolute scheme (host ++ (b'/' ∷ path)) hs
      ∙ ap (from_slash (host ++ (b'/' ∷ path))) (find_byte b'/' host path hh)
      ∙ ap (λ (n : ℕ). substr (host ++ (b'/' ∷ path)) n none) (omega arith)
      ∙ substr_behind host 0 (b'/' ∷ path) (omega arith),
  strip_absolute scheme host hs ∙ ap (from_slash host) (find_byte-none b'/' host hh),
)

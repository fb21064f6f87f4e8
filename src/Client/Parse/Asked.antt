-- ===== src/Client/Parse/Asked.antt =====
-- What `reqLineParser` of src/Client.cpp reads from a request line: the bit of the method, the path and the
-- query of the target.
use lazy_team.Base.{
  ℕ, [], ◌∷◌, ◌++◌, Option, none, some, ◌≡◌, ◌≢◌, refl, ap, ◌∙◌, ok, take-length-append,
  drop_behind,
}
use lazy_team.Text.{Bytes, crlf, codes, find, text_eq, text_eq-false, Lacks, find_byte, IsWord}
use lazy_team.Webserv.{ok_code, header}
use lazy_team.Message.{Request}
use lazy_team.Client.Parse.{method_of, strip_authority, split_query, req_line_parser}
use lazy_team.Client.Parse.RequestLine.{
  request_line, with_line, req_line_parser-request_line, strip_authority-origin,
  strip_authority-absolute, find_byte-none,
}

-- The bit of a method in the code: 1, 2, 4, and 8 for every other word.
pub data IsMethod : Bytes → ℕ → Type 0 where
  is_get : IsMethod (codes "GET") 1
  is_post : IsMethod (codes "POST") 2
  is_delete : IsMethod (codes "DELETE") 4
  is_other :
      (verb : Bytes)
      → verb ≢ codes "GET"
      → verb ≢ codes "POST"
      → verb ≢ codes "DELETE"
      → IsMethod verb 8

-- A target, and what it asks of the server: itself, if it holds no "://", or the part of an absolute URI from the
-- first slash behind its authority on.
pub data IsTarget : Bytes → Bytes → Type 0 where
  origin : (target : Bytes) → find (codes "://") target ≡ none → IsTarget target target
  absolute :
      (scheme host path : Bytes)
      → Lacks b':' scheme
      → Lacks b'/' host
      → IsTarget (scheme ++ (codes "://" ++ (host ++ (b'/' ∷ path)))) (b'/' ∷ path)

-- A path with its query, if it has one.
abbrev pub with_query : Bytes → Option Bytes → Bytes
with_query path none = path
with_query path (some query) = path ++ (b'?' ∷ query)

abbrev pub query_of : Option Bytes → Bytes
query_of none = []
query_of (some query) = query

method_of-IsMethod : (verb : Bytes) (bit : ℕ) → IsMethod verb bit → method_of verb ≡ bit
unfolding method_of text_eq
method_of-IsMethod _ _ is_get = refl
method_of-IsMethod _ _ is_post = refl
method_of-IsMethod _ _ is_delete = refl
method_of-IsMethod _ _ (is_other verb a b c) =
    rw (text_eq-false verb (codes "GET") a)
      (rw (text_eq-false verb (codes "POST") b) (rw (text_eq-false verb (codes "DELETE") c) refl))

strip_authority-IsTarget :
    (target full : Bytes) → IsTarget target full → strip_authority target ≡ ok full
strip_authority-IsTarget _ _ (origin target e) = strip_authority-origin target e
strip_authority-IsTarget _ _ (absolute scheme host path a b) =
    (strip_authority-absolute scheme host path a b).0

split_query-with_query :
    (path : Bytes) (query : Option Bytes)
    → Lacks b'?' path
    → split_query (with_query path query) ≡ (path, query_of query)
unfolding split_query
split_query-with_query path none h = rw (find_byte-none b'?' path h, split_query) refl
split_query-with_query path (some query) h =
    rw (find_byte b'?' path query h, split_query)
      (rw (take-length-append path (b'?' ∷ query))
        (ap (λ (s : Bytes). (path, s)) (drop_behind path 1 (b'?' ∷ query))))

-- A request line of three words with a blank between them and a line end behind, whose target holds no "://" or
-- is an absolute URI with no colon in its scheme and a slash behind its authority, is read as it is written: the method's bit is 1, 2 or
-- 4 for GET, POST and DELETE and 8 for any other word, the path is what stands in front of the first
-- question mark of the target (of an absolute URI, of its part from that slash on), the query what stands
-- behind it or nothing, the version the third word, the request then waits for its header, and the buffer
-- holds exactly the bytes behind the line.
pub req_line_parser-with_query :
    (verb target path version rest : Bytes) (query : Option Bytes) (bit : ℕ) (r : Request)
    → IsWord verb
    → IsWord target
    → IsWord version
    → IsMethod verb bit
    → IsTarget target (with_query path query)
    → Lacks b'?' path
    → req_line_parser (request_line verb target version ++ (crlf ++ rest)) r
      ≡ ok (record {
        code = ok_code;
        read_buff = rest;
        request = record r {
          method = bit;
          uri = path;
          query_string = query_of query;
          version = version;
          status = header;
        };
      })
req_line_parser-with_query verb target path version rest query bit r hv ht hs m t h =
    req_line_parser-request_line verb target (with_query path query) version rest r hv ht hs
      (strip_authority-IsTarget target (with_query path query) t)
    ∙ ap
        (λ (n : ℕ). ok (record {
          code = ok_code;
          read_buff = rest;
          request = record (with_line r verb (with_query path query) version) { method = n };
        }))
        (method_of-IsMethod verb bit m)
    ∙ ap
        (λ (q : Bytes × Bytes). ok (record {
          code = ok_code;
          read_buff = rest;
          request = record r {
            method = bit;
            uri = q.0;
            query_string = q.1;
            version = version;
            status = header;
          };
        }))
        (split_query-with_query path query h)

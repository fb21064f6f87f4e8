-- ===== src/Message.antt =====
-- include/Request.hpp, src/Request.cpp, include/Response.hpp, src/Response.cpp, include/Resource.hpp
-- and src/Resource.cpp: the three parts of a transaction. A getter is the field's projection.
use lazy_team.Base.{ℕ, [], ◌∷◌, ◌++◌, none, some, ◌≡◌, refl, take, drop}
use lazy_team.Text.{Bytes, codes, crlf}
use lazy_team.StringMap.{StringMap, lookup, insert}
use lazy_team.Webserv.{Status, nothing}

pub record Request : Type 0 where
  pub status : Status
  pub method : ℕ
  pub uri : Bytes
  pub query_string : Bytes
  pub version : Bytes
  pub headers : StringMap Bytes
  pub body : Bytes

abbrev pub new_request : Request
new_request = record {
  status = nothing;
  method = 0;
  uri = [];
  query_string = [];
  version = [];
  headers = [];
  body = [];
}

unfoldable pub insert_header : Request → Bytes → Bytes → Request
insert_header r key value = record r { headers = insert key value r.headers }

unfoldable pub append_body : Request → Bytes → Request
append_body r buffer = record r { body = r.body ++ buffer }

-- The empty text for a header that is not there.
unfoldable pub get_header_value : Request → Bytes → Bytes
get_header_value r key = elim (lookup key r.headers) [ some v ↦ v | none ↦ [] ]

pub record Response : Type 0 where
  pub status : Status
  pub http_status_code : Bytes
  pub headers : StringMap Bytes
  pub body : Bytes
  pub version : Bytes
  pub head : Bytes

-- The lines of the map in the order of its iterator.
unfoldable pub header_lines : StringMap Bytes → Bytes
header_lines [] = []
header_lines ((k, v) ∷ m) = k ++ (codes ": " ++ (v ++ (crlf ++ header_lines m)))

made_head : Bytes → Bytes → StringMap Bytes → Bytes
unfolding header_lines
made_head version code headers =
    version ++ (codes " " ++ (code ++ (crlf ++ (header_lines headers ++ crlf))))

-- A head that is there is kept.
unfoldable pub make_head : Response → Bytes → Response
unfolding made_head
make_head r [] = record r { head = made_head r.version r.http_status_code r.headers }
make_head r (c ∷ head) = r

-- The constructor with five arguments.
unfoldable pub new_response : Status → Bytes → StringMap Bytes → Bytes → Bytes → Response
unfolding make_head
new_response status code headers body version =
    make_head
      (record {
        status = status;
        http_status_code = code;
        headers = headers;
        body = body;
        version = version;
        head = [];
      })
      []

pub record Resource : Type 0 where
  pub status : Status
  pub resource_fd : ℕ
  pub content : Bytes
  pub uri : Bytes
  pub is_created : Bytes
  pub read_fd : ℕ
  pub write_fd : ℕ
  pub pid : ℕ

-- `Resource(status)`: the other numbers and the `stat_type` are not initialised; the model starts
-- them at values that no code reads before it has set them.
abbrev pub new_resource : Status → Resource
new_resource s = record {
  status = s;
  resource_fd = 0;
  content = [];
  uri = [];
  is_created = [];
  read_fd = 0;
  write_fd = 0;
  pid = 0;
}

unfoldable pub add_content : Resource → Bytes → Resource
add_content r str = record r { content = r.content ++ str }

-- `getContent(size)` hands out the first bytes and removes them.
unfoldable pub take_content : Resource → ℕ → Resource × Bytes
take_content r size = (record r { content = drop size r.content }, take size r.content)

pub make_head-status : (r : Response) (head : Bytes) → (make_head r head).status ≡ r.status
unfolding make_head
make_head-status r [] = refl
make_head-status r (c ∷ head) = refl

pub new_response-status :
    (status : Status) (code : Bytes) (headers : StringMap Bytes) (body version : Bytes)
    → (new_response status code headers body version).status ≡ status
unfolding new_response
new_response-status status code headers body version =
    make_head-status
      (record {
        status = status;
        http_status_code = code;
        headers = headers;
        body = body;
        version = version;
        head = [];
      })
      []

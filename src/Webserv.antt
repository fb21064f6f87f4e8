-- ===== src/Webserv.antt =====
-- include/Webserv.hpp and the table of status codes of src/main.cpp: the constants and enumerations
-- that the classes share. A `stat_type` is a pointer to a literal; the model reads it as the literal's
-- text, as if equal literals of the program were one object.
use lazy_team.Base.{
  ℕ, ◌%◌, ◌/◌, ◌^◌, Bool, List, [], ◌∷◌, Option, none, some, ◌==◌, if◌then◌else◌, take, map,
}
use lazy_team.Text.{Bytes, codes, text_eq}

-- The two results of a method that reports by OK and ERROR.
pub data Code : Type 0 where
  ok_code error_code : Code

abbrev pub network_buff : ℕ
network_buff = 16384

-- The number of values of `size_t` and of `unsigned long`.
abbrev pub size_max : ℕ
size_max = 2 ^ 64

pub data FdType : Type 0 where
  blank port_fd client_fd resource_fd std_out_err_fd cgi_input : FdType

-- `Status` of a request, a response or a resource.
pub data Status : Type 0 where
  nothing header body reading writing read_done write_done : Status
  finished disconnect read_fail write_fail length_req cgi_fail : Status

pub data ServerStatus : Type 0 where
  resource_write_init resource_read_init : ServerStatus
  resource_write_waiting resource_read_waiting : ServerStatus
  response_making_done response_error process_waiting : ServerStatus

pub data FileType : Type 0 where
  file directory not_found : FileType

-- The position of a constructor in `enum Status`, by which two of them are compared.
abbrev status_index : Status → ℕ
status_index nothing = 0
status_index header = 1
status_index body = 2
status_index reading = 3
status_index writing = 4
status_index read_done = 5
status_index write_done = 6
status_index finished = 7
status_index disconnect = 8
status_index read_fail = 9
status_index write_fail = 10
status_index length_req = 11
status_index cgi_fail = 12

abbrev pub is_status : Status → Status → Bool
is_status s t = status_index s == status_index t

-- `Method` is a set of bits: NOT, GET, POST, DELETE and OTHER.
abbrev pub get_method : ℕ
get_method = 1

abbrev pub post_method : ℕ
post_method = 2

abbrev pub delete_method : ℕ
delete_method = 4

abbrev pub other_method : ℕ
other_method = 8

-- `methods & bit`, for one of these bits
abbrev pub has_bit : ℕ → ℕ → Bool
has_bit methods bit = (methods / bit) % 2 == 1

-- `stat_code_arr`
abbrev pub stat_code_arr : List Bytes
stat_code_arr = map codes (
    "100 Continue" ∷ "101 Switching Protocols" ∷ "200 OK" ∷ "201 Created" ∷ "202 Accepted"
    ∷ "203 Non-Authoritative Information" ∷ "204 No Content" ∷ "205 Reset Content"
    ∷ "206 Partial Content" ∷ "300 Multiple Choices" ∷ "301 Moved Permanently" ∷ "302 Found"
    ∷ "303 See Other" ∷ "304 Not Modified" ∷ "305 Use Proxy" ∷ "307 Temporary Redirect"
    ∷ "400 Bad Request" ∷ "401 Unauthorized" ∷ "402 Payment Required" ∷ "403 Forbidden"
    ∷ "404 Not Found" ∷ "405 Method Not Allowed" ∷ "406 Not Accceptable"
    ∷ "407 Proxy Authentication Required" ∷ "408 Request Time-out" ∷ "409 Conflict" ∷ "410 Gone"
    ∷ "411 Length Required" ∷ "412 Precondition Failed" ∷ "413 Request Entity Too Large"
    ∷ "414 Request-URI Too Large" ∷ "415 Unsupported Media Type"
    ∷ "416 Requested range not satisfiable" ∷ "417 Exception Failed" ∷ "500 Internal Server Error"
    ∷ "501 Not Implemented" ∷ "502 Bad Gateway" ∷ "503 Service Unavailable" ∷ "504 Gateway Time-out"
    ∷ "505 HTTP Version not supported" ∷ [])

-- `stat_code_map`, filled by `initStatCodeMap`: the first three bytes of a line lead to the line; a
-- later line of the same code would replace an earlier one.
pub find_code : Bytes → List Bytes → Option Bytes
find_code key [] = none
find_code key (line ∷ lines) = elim (find_code key lines) [
  | some later ↦ some later
  | none ↦ if text_eq (take 3 line) key then some line else none
]

unfoldable pub stat_code_map : Bytes → Option Bytes
unfolding find_code
stat_code_map key = find_code key stat_code_arr

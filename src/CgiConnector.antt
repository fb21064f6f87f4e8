-- ===== src/CgiConnector.antt =====
-- include/CgiConnector.hpp and src/CgiConnector.cpp: a child process makes the response. What the child
-- does between `fork` and `execve` shows in the arguments that it is started with.
pub mod Strip
use lazy_team.Base.{
  ℕ, zero, suc, ◌+◌, ◌-◌, ◌%◌, ◌^◌, Bool, true, false, List, [], ◌∷◌, ◌++◌, Option, none, some,
  ◌==◌, if◌then◌else◌, ltb, length, take, drop, map, Outcome, ok, fault, out_of_range, out_of_fuel,
  deref, ◌>>=◌,
}
use lazy_team.Text.{Bytes, codes, crlf, find, substr, plus, decimal}
use lazy_team.StringMap.{StringMap, assign}
use lazy_team.Webserv.{
  Status, nothing, writing, write_done, read_done, finished, is_status, ServerStatus,
  resource_write_init, response_making_done, response_error, process_waiting, get_method,
  post_method, delete_method, has_bit, size_max,
}
use lazy_team.Message.{Request, Resource, get_header_value, new_response}
use lazy_team.Re3.{Re3, set_rsp_ptr}
use lazy_team.Location.{Location, get_cgi_binary}
use lazy_team.System.{System, Child}

-- The assignments `tmp[…] = …` one after the other.
assign_all : List (Bytes × Bytes) → StringMap Bytes → StringMap Bytes
assign_all [] m = m
assign_all ((k, v) ∷ l) m = assign_all l (assign k v m)

method_variable : Request → List (Bytes × Bytes)
method_variable r =
    (if has_bit r.method get_method then (codes "REQUEST_METHOD", codes "GET") ∷ [] else [])
    ++ ((if has_bit r.method post_method then (codes "REQUEST_METHOD", codes "POST") ∷ [] else [])
        ++ (if has_bit r.method delete_method
            then (codes "REQUEST_METHOD", codes "DELETE") ∷ []
            else []))

-- The assignments of `setEnvVariable`; `translated` is the root with the path behind its slash.
variables : Request → Bytes → Bytes → Bytes → ℕ → Bytes → List (Bytes × Bytes)
unfolding method_variable
variables r translated path query port ip =
    let h = λ (k : Bytes). get_header_value r k in
    (codes "AUTH_TYPE", [])
    ∷ (codes "CONTENT_TYPE", h (codes "content_type"))
    ∷ (codes "CONTENT_LENGTH", h (codes "content_length"))
    ∷ (codes "PATH_TRANSLATED", translated)
    ∷ (codes "PATH_INFO", path)
    ∷ (codes "SCRIPT_NAME", path)
    ∷ (codes "SCRIPT_FILENAME", translated)
    ∷ (codes "SERVER_PROTOCOL", codes "HTTP/1.1")
    ∷ (codes "SERVER_NAME", h (codes "host"))
    ∷ (codes "SERVER_SOFTWARE", codes "passive_server/1.1")
    ∷ (codes "SERVER_PORT", decimal port)
    ∷ (codes "GATEWAY_INTERFACE", codes "CGI/1.1")
    ∷ (codes "HTTP_ACCEPT", h (codes "accept"))
    ∷ (codes "HTTP_ACCEPT_CHARSET", h (codes "accept_charset"))
    ∷ (codes "HTTP_ACCEPT_ENCODING", h (codes "accept_encoding"))
    ∷ (codes "HTTP_ACCEPT_LANGUAGE", h (codes "accept_language"))
    ∷ (codes "HTTP_CONNECTION", h (codes "connection"))
    ∷ (codes "HTTP_COOKIE", h (codes "cookie"))
    ∷ (codes "HTTP_FORWARDED", h (codes "forwarded"))
    ∷ (codes "HTTP_HOST", h (codes "host"))
    ∷ (codes "HTTP_PROXY_AUTHORIZATION", h (codes "proxy_authorization"))
    ∷ (codes "HTTP_REFERER", h (codes "referer"))
    ∷ (codes "HTTP_USER_AGENT", h (codes "user_agent"))
    ∷ (codes "REMOTE_ADDR", ip)
    ∷ (codes "REMOTE_HOST", h (codes "host"))
    ∷ (codes "REQUEST_URI", r.uri)
    ∷ (method_variable r
        ++ ((codes "REMOTE_USER", [])
            ∷ (codes "REMOTE_IDENT", [])
            ∷ (codes "QUERY_STRING", query)
            ∷ []))

-- `setEnvVariable`: the lines of the map in the order of its keys.
set_env_variable : Request → Location → ℕ → Bytes → Outcome (List Bytes)
unfolding assign_all variables
set_env_variable r l port ip = do
  behind ← substr r.uri 1 none
  ok (
      map (λ (k, v). k ++ (codes "=" ++ v))
        (assign_all (variables r (l.root ++ behind) r.uri r.query_string port ip) []))

-- What the child runs: the binary for the part of the target behind its first dot.
child_of : Request → Location → ℕ → Bytes → Bytes → Outcome Child
unfolding set_env_variable
child_of r l port root ip = do
  extension ← substr r.uri (plus (find (codes ".") r.uri) 1) none
  behind ← substr r.uri 1 none
  envp ← set_env_variable r l port ip
  ok (record { bin = get_cgi_binary l extension; script = root ++ behind; envp = envp })

-- The numbers of the ends of the two pipes.
pub record Pipes : Type 0 where
  from_child : ℕ
  child_out : ℕ
  child_in : ℕ
  to_child : ℕ

-- `pipe(read_fd)` and `pipe(write_fd)`: both are called, and both must succeed.
unfoldable pub both : Option (ℕ × ℕ) → Option (ℕ × ℕ) → Option Pipes
both (some (r0, r1)) (some (w0, w1)) =
    some (record { from_child = r0; child_out = r1; child_in = w0; to_child = w1 })
both _ _ = none

module _ {S : Type 0} (sys : System S) where
  -- The parent's part behind `fork`.
  unfoldable pub parent : Re3 → Request → Resource → Pipes → ℕ → S → Re3 × ServerStatus × S
  parent t req rsc p pid s =
      let s1 = sys.close (sys.close s p.child_in) p.child_out in
      let r = record rsc { pid = pid; read_fd = p.from_child; write_fd = p.to_child } in
      if req.method == post_method
      then (
        record t { rsc_ptr = some (record r { resource_fd = p.to_child; status = writing }) },
        resource_write_init,
        s1,
      )
      else (record t { rsc_ptr = some r }, process_waiting, sys.close s1 p.to_child)

  -- A failed `fork` is reported; the pipes stay open. The pid of -1 that the resource then has is left out.
  unfoldable pub forked : Re3 → Request → Resource → Pipes → Option ℕ → S → Re3 × ServerStatus × S
  unfolding parent
  forked t req rsc p none s = (t, response_error, s)
  forked t req rsc p (some pid) s = parent t req rsc p pid s

  unfoldable pub piped :
      Re3 → Request → Resource → Location → ℕ → Bytes → Option Pipes → S → Re3 × ServerStatus × S
  unfolding forked child_of
  piped t req rsc l port root none s = (t, response_error, s)
  piped t req rsc l port root (some p) s =
      let f = sys.fork s (child_of req l port root (sys.address s t.client_id)) in
      forked t req rsc p f.0 f.1

  unfoldable pub prepare_resource :
      Re3 → Location → ℕ → Bytes → S → Outcome (Re3 × ServerStatus × S)
  unfolding piped both
  prepare_resource t l port root s = do
    req ← deref t.req_ptr
    rsc ← deref t.rsc_ptr
    let r = sys.pipe s
    let w = sys.pipe r.1
    ok (piped t req rsc l port root (both r.0 w.0) w.1)

-- A position as a `size_t`.
abbrev size_of : Option ℕ → ℕ
size_of none = size_max - 1
size_of (some p) = p

-- A header line of the child's output: the text behind the label at `idx1`, up to the output's first
-- line end at `idx2`, and the output with `idx2 + 2` bytes removed at `idx1`. The count wraps around
-- where the line end stands before the label.
unfoldable pub cut_field : Bytes → ℕ → Bytes → Bytes × Bytes
cut_field label idx1 buff =
    let idx2 = find crlf buff in
    let begin = idx1 + length label in
    (
      take ((size_of idx2 + size_max - begin) % size_max) (drop begin buff),
      take idx1 buff ++ drop (idx1 + plus idx2 2) buff,
    )

-- The value of the field, if the label is there, and what is left of the output.
unfoldable pub field_stage : Bytes → Bytes → Option Bytes × Bytes
unfolding cut_field
field_stage label buff = elim (find label buff) [
  | none ↦ (none, buff)
  | some idx1 ↦ let c = cut_field label idx1 buff in (some c.0, c.1)
]

-- `while ((idx1 = buff.find("\r\n")) != npos) buff.erase(0, idx1 + 2);`
unfoldable pub strip_lines : ℕ → Bytes → Outcome Bytes
strip_lines zero buff = fault out_of_fuel
strip_lines (suc fuel) buff = elim (find crlf buff) [
  | none ↦ ok buff
  | some p ↦ strip_lines fuel (drop (p + 2) buff)
]

unfoldable pub assign_some : Bytes → Option Bytes → StringMap Bytes → StringMap Bytes
assign_some k none m = m
assign_some k (some v) m = assign k v m

unfoldable pub or_ok : Option Bytes → Bytes
or_ok none = codes "200 OK"
or_ok (some status) = status

module _ {S : Type 0} (sys : System S) where
  unfoldable pub prepare_response : Re3 → S → Outcome (Re3 × ServerStatus × S)
  unfolding field_stage strip_lines assign_some or_ok
  prepare_response t s = do
    req ← deref t.req_ptr
    rsc ← deref t.rsc_ptr
    let status = field_stage (codes "Status: ") rsc.content
    let content_type = field_stage (codes "Content-Type: ") status.1
    let location = field_stage (codes "Location: ") content_type.1
    buff ← strip_lines (length location.1 + 1) location.1
    let typed = assign_some (codes "Content-Type") content_type.0 []
    let moved = assign_some (codes "Content-Type") location.0 typed
    let headers =
        assign (codes "Content-Length") (decimal (length buff))
          (assign (codes "Content-Language") (codes "ko-KR") moved)
    let response = new_response finished (or_ok status.0) headers buff req.version
    let t' = record t { rsc_ptr = some (record rsc { content = buff }) }
    ok ((set_rsp_ptr t' response).0, response_making_done, sys.close s rsc.resource_fd)

  unfoldable pub make_cgi_response :
      Re3 → Location → ℕ → Bytes → S → Outcome (Re3 × ServerStatus × S)
  unfolding prepare_resource prepare_response
  make_cgi_response t l port root s = do
    rsc ← deref t.rsc_ptr
    if is_status rsc.status nothing
        then prepare_resource sys t l port root s
        else if is_status rsc.status write_done
        then ok (t, process_waiting, s)
        else if is_status rsc.status read_done
        then prepare_response t s
        else ok (t, process_waiting, s)

-- ===== src/Client/Receive.antt =====
-- `initParser` and `recvRequest` of src/Client.cpp. The port manager, which answers a request, is a
-- parameter: it changes the transaction and the world `W` behind the server.
pub mod Total
pub mod Written
pub mod Pipeline
pub mod Dropped
use lazy_team.Base.{
  ℕ, zero, suc, ◌+◌, Bool, true, false, List, [], ◌∷◌, ◌++◌, Option, none, some, ◌≡◌, refl, ◌==◌,
  if◌then◌else◌, length, Outcome, ok, fault, out_of_fuel, deref, ◌>>=◌,
}
use lazy_team.Text.{Bytes, codes, find}
use lazy_team.Webserv.{
  Code, ok_code, error_code, Status, nothing, header, body, finished, length_req, is_status,
  post_method, ServerStatus,
}
use lazy_team.Message.{Request, get_header_value, new_request}
use lazy_team.Re3.{Re3, new_re3, set_req_ptr}
use lazy_team.Client.State.{Client}
use lazy_team.Client.Parse.{Parsed, chunked_parser, length_parser, header_parser, req_line_parser}

-- The part of `initParser` behind the header.
unfoldable pub body_parser : ℕ → Bytes → Request → Outcome Parsed
body_parser undef buff r =
    elim (find (codes "chunked") (get_header_value r (codes "transfer-encoding"))) [
      | some i ↦ chunked_parser buff r
      | none ↦
          if length (get_header_value r (codes "content-length")) == 0
          then (if r.method == post_method
              then ok (record {
                code = error_code;
                read_buff = buff;
                request = record r { status = length_req };
              })
              else ok (record {
                code = ok_code;
                read_buff = buff;
                request = record r { status = finished };
              }))
          else ok (length_parser undef buff r)
    ]

-- A stage that is skipped leaves all as it is.
abbrev pub skip : Bytes → Request → Outcome Parsed
skip buff r = ok (record { code = ok_code; read_buff = buff; request = r })

-- `if (request->getStatus() == …)` for each of the three stages.
unfoldable pub line_stage : Bytes → Request → Outcome Parsed
line_stage buff r = if is_status r.status nothing then req_line_parser buff r else skip buff r

unfoldable pub header_stage : Bytes → Request → Outcome Parsed
header_stage buff r = if is_status r.status header then header_parser buff r else skip buff r

unfoldable pub body_stage : ℕ → Parsed → Outcome Parsed
unfolding body_parser
body_stage undef p =
    if is_status p.request.status body then body_parser undef p.read_buff p.request else ok p

-- The stages behind the request line.
unfoldable pub after_req_line : ℕ → Parsed → Outcome Parsed
unfolding header_stage body_stage
after_req_line undef p = elim p.code [
  | error_code ↦ ok p
  | ok_code ↦ header_stage p.read_buff p.request >>= body_stage undef
]

unfoldable pub init_parser : ℕ → Bytes → Request → Outcome Parsed
unfolding line_stage after_req_line
init_parser undef [] r = skip [] r
init_parser undef (c ∷ buff) r = line_stage (c ∷ buff) r >>= after_req_line undef

-- `Re3(client_fd)` with a fresh request.
unfoldable pub with_request : ℕ → Re3
unfolding set_req_ptr
with_request fd = (set_req_ptr (new_re3 fd) new_request).0

-- The places of `re3_deque` with what the server said of them: `std::pair<Re3*, ServerStatus>`.
abbrev pub Claims : Type 0
Claims = List (ℕ × ServerStatus)

-- The variables of the loop in `recvRequest`: the deque is `earlier` with `last` behind it.
pub record Receiving (W : Type 0) : Type 0 where
  pub earlier : List Re3
  pub last : Re3
  pub read_buff : Bytes
  pub rsc_claim : Claims
  pub world : W

-- The transactions before the last one, and the last one.
begin_loop : List Re3 → List Re3 → Re3 → List Re3 × Re3
begin_loop earlier [] last = (earlier, last)
begin_loop earlier (t ∷ ts) last = begin_loop (earlier ++ last ∷ []) ts t

unfoldable pub deque_parts : ℕ → List Re3 → List Re3 × Re3
unfolding begin_loop
deque_parts fd [] = ([], with_request fd)
deque_parts fd (t ∷ ts) = begin_loop [] ts t

abbrev pub fuel_for : Bytes → ℕ
fuel_for buff = length buff + 2

-- The state with what the parser left of the last request and of the buffer.
abbrev pub stored : {W : Type 0} → Receiving W → Parsed → Receiving W
stored s p = record s {
  last = record (s.last) { req_ptr = some p.request };
  read_buff = p.read_buff;
}

-- The variables where the loop begins: an empty deque gets a first transaction, and what was received
-- goes behind what is in the buffer.
unfoldable pub start : {W : Type 0} → Client → Bytes → W → Receiving W
unfolding deque_parts
start c raw w = record {
  earlier = (deque_parts c.client_fd c.re3_deque).0;
  last = (deque_parts c.client_fd c.re3_deque).1;
  read_buff = c.read_buff ++ raw;
  rsc_claim = [];
  world = w;
}

-- `initParser(this->re3_deque.back().getReqPtr())`
unfoldable pub parse_last : {W : Type 0} → ℕ → Receiving W → Outcome (Receiving W × Parsed)
parse_last undef s = do
  r ← deref s.last.req_ptr
  p ← init_parser undef s.read_buff r
  ok (stored s p, p)

module _ {W : Type 0} (pass_request : Re3 → W → Outcome (Re3 × ServerStatus × W)) where
  -- A finished request goes to the server, and the next one is begun.
  unfoldable pub pass_finished : ℕ → Status → Receiving W → Outcome (Receiving W)
  pass_finished fd status s =
      if is_status status finished
      then (do
        (t, response, w) ← pass_request s.last s.world
        ok (record s {
          earlier = s.earlier ++ t ∷ [];
          last = with_request fd;
          rsc_claim = s.rsc_claim ++ (length s.earlier, response) ∷ [];
          world = w;
        }))
      else ok s

  unfoldable pub begin_next : ℕ → Receiving W → Outcome (Receiving W)
  unfolding pass_finished
  begin_next fd s = do r ← deref s.last.req_ptr; pass_finished fd r.status s

  -- A request with an error goes to the server at once, and the claims before it are dropped.
  unfoldable pub pass_error : Receiving W → Outcome (Receiving W)
  pass_error s = do
    (t, response, w) ← pass_request s.last s.world
    ok (record s { last = t; rsc_claim = (length s.earlier, response) ∷ []; world = w })

  -- The end of a round: the loop goes on while the last request is finished.
  unfoldable pub after_parse :
      (Receiving W → Outcome (Receiving W)) → Receiving W → Parsed → Outcome (Receiving W)
  unfolding pass_error
  after_parse again s p = elim p.code [
    | error_code ↦ pass_error s
    | ok_code ↦ if is_status p.request.status finished then again s else ok s
  ]

  unfoldable pub recv_loop : ℕ → ℕ → ℕ → Receiving W → Outcome (Receiving W)
  unfolding begin_next parse_last after_parse
  recv_loop zero undef fd s = fault out_of_fuel
  recv_loop (suc fuel) undef fd s = do
    s' ← begin_next fd s
    (s'', p) ← parse_last undef s'
    after_parse (recv_loop fuel undef fd) s'' p

  unfoldable pub recv_request : ℕ → Client → Bytes → W → Outcome (Client × Claims × W)
  unfolding recv_loop start
  recv_request undef c raw w =
      let s = start c raw w in
      if length raw == 0
      then ok (record c { re3_deque = s.earlier ++ s.last ∷ [] }, [], w)
      else recv_loop (fuel_for s.read_buff) undef c.client_fd s >>= λ e. ok (
        record c { re3_deque = e.earlier ++ e.last ∷ []; read_buff = e.read_buff },
        e.rsc_claim,
        e.world,
      )

-- ===== src/PortManager.antt =====
-- include/PortManager.hpp and src/PortManager.cpp: the servers of one port. The constructor tells every
-- server the port's number.
pub mod Choice
pub mod Service
pub mod Tests
use lazy_team.Base.{
  ℕ, Bool, List, [], ◌∷◌, Option, none, some, if◌then◌else◌, take, map, Outcome, ok, fault,
  null_pointer, deref, ◌==◌, ◌>>=◌,
}
use lazy_team.Text.{Bytes, codes, find_class, text_eq}
use lazy_team.Webserv.{nothing, ServerStatus}
use lazy_team.Message.{Request, get_header_value, new_resource}
use lazy_team.TermPrinter.{put_msg}
use lazy_team.Re3.{Re3, set_rsc_ptr}
use lazy_team.System.{System, World}
use lazy_team.Server.{Server, make_response}

pub record PortManager : Type 0 where
  pub port_num : ℕ
  pub port_fd : ℕ
  pub servers : List Server

with_port : ℕ → Server → Server
with_port num s = record s { port_num = num }

-- `PortManager(port_num, port_fd, servers)`
unfoldable pub new_port_manager : ℕ → ℕ → List Server → PortManager
unfolding with_port
new_port_manager num fd servers = record {
  port_num = num;
  port_fd = fd;
  servers = map (with_port num) servers;
}

-- The first server of the name, or else the first of all.
server_named : Bytes → Server → List Server → Server
server_named host first [] = first
server_named host first (s ∷ ss) =
    if text_eq host s.server_name then s else server_named host first ss

unfoldable pub find_server : Bytes → List Server → Outcome Server
unfolding server_named
find_server host [] = fault null_pointer
find_server host (s ∷ ss) = ok (server_named host s (s ∷ ss))

is_colon : ℕ → Bool
is_colon c = c == b':'

-- The host header up to its first colon.
unfoldable pub host_name : Request → Bytes
unfolding is_colon
host_name r =
    let host = get_header_value r (codes "host") in
    elim (find_class is_colon host) [ none ↦ host | some p ↦ take p host ]

module _ {S : Type 0} (sys : System S) (p : PortManager) where
  -- The answer of the server that the host names.
  unfoldable pub pass_resource : ℕ → Re3 → World S → Outcome (Re3 × ServerStatus × World S)
  pass_resource undef t w = do
    req ← deref t.req_ptr
    srv ← find_server (host_name req) p.servers
    (t', answer, s) ← make_response sys srv undef t w.system
    ok (t', answer, record w { system = s })

  -- The same for a new request, which gets a resource; the host goes to the terminal.
  unfoldable pub pass_request : ℕ → Re3 → World S → Outcome (Re3 × ServerStatus × World S)
  unfolding pass_resource
  pass_request undef t w = do
    req ← deref t.req_ptr
    let t' = (set_rsc_ptr (record t { port_manager_id = p.port_fd }) (new_resource nothing)).0
    pass_resource undef t' (record w { terminal = (put_msg w.terminal (host_name req)).0 })

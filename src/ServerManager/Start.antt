-- ===== src/ServerManager/Start.antt =====
-- `initServerManager` of src/ServerManager.cpp. `server_sorter` is an association list in the order of the
-- ports; a pointer to a server is its position in `servers`.
pub mod Sorted
pub mod Registered
pub mod Fit
use lazy_team.Base.{
  ℕ, zero, suc, ◌+◌, ◌%◌, ◌^◌, Bool, true, false, List, [], ◌∷◌, ◌++◌, Option, none, some, ◌==◌,
  ltb, if◌then◌else◌, length, take, map, Outcome, ok, fault, out_of_range,
}
use lazy_team.Text.{Bytes, codes, decimal}
use lazy_team.Webserv.{FdType, blank, port_fd, std_out_err_fd, Code, ok_code, error_code}
use lazy_team.TermPrinter.{stdout, stderr, put_msg, put_err}
use lazy_team.System.{World}
use lazy_team.Server.{Server}
use lazy_team.ServerManager.State.{
  Slot, null, live, evfilt_read, evfilt_write, ev_add, Port, RunStatus, initiated, running, failed,
  ServerManager, Sockets,
}
use lazy_team.ServerManager.Tables.{grow, set_at, placed, set_event}

abbrev pub Sorter : Type 0
Sorter = List (ℕ × List ℕ)

-- `server_sorter[port].push_back(&servers[i])`
unfoldable pub add_server : ℕ → ℕ → Sorter → Sorter
add_server port i [] = (port, i ∷ []) ∷ []
add_server port i ((p, ids) ∷ m) =
    if p == port
    then (p, ids ++ i ∷ []) ∷ m
    else if ltb port p
    then (port, i ∷ []) ∷ (p, ids) ∷ m
    else (p, ids) ∷ add_server port i m

unfoldable pub add_ports : List ℕ → ℕ → Sorter → Sorter
unfolding add_server
add_ports [] i m = m
add_ports (port ∷ ports) i m = add_ports ports i (add_server port i m)

-- The loop over the configurations, from the position `i` on.
unfoldable pub sort_servers : List (Server × List ℕ) → ℕ → Sorter → Sorter
unfolding add_ports
sort_servers [] i m = m
sort_servers ((srv, ports) ∷ configs) i m = sort_servers configs (suc i) (add_ports ports i m)

with_port : ℕ → Server → Server
with_port port srv = record srv { port_num = port }

-- `setPortNum` of one server, by its position.
number_one : ℕ → ℕ → List Server → List Server
unfolding with_port
number_one port i [] = []
number_one port zero (s ∷ ss) = with_port port s ∷ ss
number_one port (suc i) (s ∷ ss) = s ∷ number_one port i ss

-- The constructor of `PortManager` tells each of its servers the port.
number_servers : ℕ → List ℕ → List Server → List Server
unfolding number_one
number_servers port [] servers = servers
number_servers port (i ∷ ids) servers = number_servers port ids (number_one port i servers)

-- The terminal's descriptors, and the servers.
prepared : List (Server × List ℕ) → ServerManager → ServerManager
unfolding set_event grow set_at
prepared configs m =
    let m1 = set_event stdout evfilt_write (ev_add ∷ []) m in
    let m2 = set_event stderr evfilt_write (ev_add ∷ []) m1 in
    record m2 {
      status = running;
      types =
          set_at stderr std_out_err_fd
            (set_at stdout std_out_err_fd (take 3 (grow 3 blank m.types)));
      stdout_on = true;
      stderr_on = true;
      servers = m.servers ++ map (λ (c : Server × List ℕ). c.0) configs;
    }

module _ {S : Type 0} (net : Sockets S) where
  abbrev Result : Type 0
  Result = Outcome (Code × ServerManager × World S)

  -- The end of `initServerManager`, which a `break` also comes to.
  finish : ServerManager → World S → Result
  finish m w =
      ok (ok_code, m, record w { terminal = (put_msg w.terminal (codes "Server initialized\n")).0 })

  broken : ServerManager → World S → Bytes → Result
  unfolding finish
  broken m w text =
      finish (record m { status = failed }) (record w { terminal = (put_err w.terminal text).0 })

  given_up : ServerManager → World S → Bytes → Result
  given_up m w text = ok (
    error_code,
    record m { status = failed },
    record w { terminal = (put_err w.terminal text).0 },
  )

  with_manager : ℕ → List ℕ → ℕ → ServerManager → ServerManager
  unfolding number_servers set_event placed
  with_manager port ids fd m =
      let m1 = set_event fd evfilt_read (ev_add ∷ []) m in
      record m1 {
        types = placed fd port_fd blank m.types;
        managers =
            placed fd (live (record { port_num = port; port_fd = fd; server_ids = ids })) null
              m.managers;
        servers = number_servers port ids m.servers;
      }

  module _ (again : ServerManager → World S → Result) (port : ℕ) (ids : List ℕ)
      (m : ServerManager) where
    listening : World S → Option ℕ → Result
    unfolding with_manager
    listening w none = fault out_of_range
    listening w (some fd) = again (with_manager port ids fd m) (record w {
      system = net.unblock w.system fd;
      terminal = (put_msg w.terminal (codes "Port number: " ++ (decimal port ++ codes "\n"))).0;
    })

    bound : World S → Option ℕ → Bool × S → Result
    unfolding listening broken
    bound w fd (false, s) = broken m (record w { system = s }) (codes "listen error\n")
    bound w fd (true, s) = listening (record w { system = s }) fd

    sent : World S → Option ℕ → Bool × S → Result
    unfolding bound broken
    sent w fd (false, s) = broken m (record w { system = s }) (codes "bind error\n")
    sent w fd (true, s) = bound w fd (net.listen s fd)

    received : World S → Option ℕ → Bool × S → Result
    unfolding sent given_up
    received w fd (false, s) =
        given_up m (record w { system = s }) (codes "setsockopt: send_timeout set failed\n")
    received w fd (true, s) = sent w fd (net.bind s fd (port % 2 ^ 16))

    opened : World S → Option ℕ → Bool × S → Result
    unfolding received given_up
    opened w fd (false, s) =
        given_up m (record w { system = s }) (codes "setsockopt: recv_timeout set failed\n")
    opened w fd (true, s) = received w fd (net.set_send s fd m.send_timeout)

  -- The loop over the ports. The test of `socket` compares an unsigned number with 0 and never holds.
  unfoldable pub open_ports : Sorter → ServerManager → World S → Result
  unfolding opened finish
  open_ports [] m w = finish m w
  open_ports ((port, ids) ∷ sorter) m w =
      let r = net.socket w.system in
      opened (λ n v. open_ports sorter n v) port ids m w r.0 (net.set_recv r.1 r.0 m.recv_timeout)

  unfoldable pub init_server_manager : List (Server × List ℕ) → ServerManager → World S → Result
  unfolding prepared open_ports sort_servers
  init_server_manager configs m w = elim m.status [
    | initiated ↦ open_ports (sort_servers configs (length m.servers) []) (prepared configs m) w
    | _ ↦ ok (error_code, m, w)
  ]

-- ===== src/ServerManager/Tests.antt =====
-- Runs of src/ServerManager.cpp, and instances of the theorems.
use lazy_team.Base.{
  ℕ, ◌+◌, true, false, List, [], ◌∷◌, length, some, ◌≡◌, refl, Outcome, ok, fault, null_pointer,
}
use lazy_team.Text.{Bytes, codes}
use lazy_team.Webserv.{client_fd, resource_fd, finished, Code, ok_code}
use lazy_team.TermPrinter.{TermPrinter, stdout, stderr, has_msg_inside}
use lazy_team.System.{World}
use lazy_team.Server.{Server}
use lazy_team.ServerManager.State.{
  Guest, null, freed, live, ServerManager, Sockets, new_server_manager,
}
use lazy_team.ServerManager.Tables.{
  port_event, client_socket_close, drop_client, destroy, destroy_from, make_client, get, set_at,
  grow, placed,
}
use lazy_team.ServerManager.Tables.Fit.{IsFit}
use lazy_team.ServerManager.Tables.Reached.{accepting, closing, dropping, here, on}
use lazy_team.ServerManager.Tables.Twice.{Faults, drop_client-destroy, client_socket_close-resource}
use lazy_team.ServerManager.Terminal.{check_std_buffer}
use lazy_team.ServerManager.Terminal.Agrees.{Agrees, armed, armed_by, check_std_buffer-Agrees}
use lazy_team.ServerManager.Sending.{write_event}
use lazy_team.ServerManager.Sending.Drained.{IsSent, write_event-IsSent}
use lazy_team.Client.{new_client}
use lazy_team.Message.{Response}
use lazy_team.Re3.{new_re3}
use lazy_team.ServerManager.Start.{
  sort_servers, init_server_manager, open_ports, add_ports, add_server,
}
use lazy_team.ServerManager.Start.Sorted.{Above, ids_of, listing, sort_servers-listing}
use lazy_team.ServerManager.Start.Fit.{init_server_manager-Reaches, init_server_manager-destroy}
use lazy_team.ServerManager.Tables.Destroyed.{Yields}

-- Descriptors are given out one after the other, and every call succeeds.
abbrev counting : Sockets ℕ
counting = record {
  socket = λ s. (some s, s + 1);
  accept = λ s fd. (some s, s + 1);
  close = λ s fd. s;
  set_recv = λ s fd t. (true, s);
  set_send = λ s fd t. (true, s);
  bind = λ s fd port. (true, s);
  listen = λ s fd. (true, s);
  send = λ s fd bytes. (some (length bytes), s);
  unblock = λ s fd. s;
}

abbrev site : Bytes → Server
site name = record {
  server_name = name;
  default_root = codes "/www";
  default_error_pages = [];
  client_body_limit = 0;
  locations = [];
  return_to = ([], []);
  port_num = 0;
}

-- Two servers on port 80, the first also on port 8080.
abbrev two_sites : List (Server × List ℕ)
two_sites = (site (codes "a"), 8080 ∷ 80 ∷ []) ∷ (site (codes "b"), 80 ∷ []) ∷ []

abbrev before : World ℕ
before = record { system = 3; terminal = record { err_msgs = []; out_msgs = [] } }

abbrev value : {A : Type 0} → Outcome A → A → A
value (ok a) d = a
value (fault e) d = d

sorted_two : sort_servers two_sites 0 [] ≡ (80, 0 ∷ 1 ∷ []) ∷ (8080, 0 ∷ []) ∷ []
unfolding sort_servers add_ports add_server
sorted_two = refl

-- The manager behind its start, behind a client at the first port, and behind the client's end.
abbrev started : Code × ServerManager × World ℕ
started =
    value (init_server_manager counting two_sites new_server_manager before)
      (ok_code, new_server_manager, before)

abbrev visited : ServerManager × World ℕ
visited = value (port_event counting 3 started.1 started.2) (started.1, started.2)

abbrev left_alone : ServerManager × World ℕ
left_alone = value (client_socket_close counting 5 visited.0 visited.1) visited

started_lem : init_server_manager counting two_sites new_server_manager before ≡ ok started
unfolding init_server_manager open_ports sort_servers add_ports add_server
started_lem = refl

visited_lem : port_event counting 3 started.1 started.2 ≡ ok visited
unfolding init_server_manager open_ports sort_servers add_ports add_server port_event make_client
visited_lem = refl

left_alone_lem : client_socket_close counting 5 visited.0 visited.1 ≡ ok left_alone
unfolding init_server_manager open_ports sort_servers add_ports add_server port_event make_client
    client_socket_close
left_alone_lem = refl

-- The client is dropped instead.
abbrev dropped : ServerManager × World ℕ
dropped = value (drop_client counting 5 visited.0 visited.1) visited

dropped_lem : drop_client counting 5 visited.0 visited.1 ≡ ok dropped
unfolding init_server_manager open_ports sort_servers add_ports add_server port_event make_client
    drop_client
dropped_lem = refl

init_server_manager-Reaches_example : IsFit (5 ∷ []) dropped.0
init_server_manager-Reaches_example =
    init_server_manager-Reaches counting two_sites before started.0 started.1 started.2 (5 ∷ [])
      dropped started_lem
      (on [] (5 ∷ []) _ _ _
        (on [] [] _ _ _ (here (started.1, started.2))
          (accepting 3 started.1 started.2 visited visited_lem))
        (dropping 5 visited.0 visited.1 dropped dropped_lem))

init_server_manager-destroy_example :
    Yields (λ r. Unit) (destroy counting left_alone.0 left_alone.1.system)
init_server_manager-destroy_example =
    init_server_manager-destroy counting two_sites before started.0 started.1 started.2 left_alone
      started_lem
      (on [] [] _ _ _
        (on [] [] _ _ _ (here (started.1, started.2))
          (accepting 3 started.1 started.2 visited visited_lem))
        (closing 5 visited.0 visited.1 left_alone left_alone_lem))

-- A client whose request could not be read keeps its type, so it is deleted once more at the end.
deleted_twice : destroy counting dropped.0 dropped.1.system ≡ fault null_pointer
unfolding init_server_manager open_ports sort_servers add_ports add_server port_event make_client
    drop_client destroy destroy_from get set_at grow placed
deleted_twice = refl

typed_lem : get visited.0.types 5 ≡ some client_fd
unfolding init_server_manager open_ports sort_servers add_ports add_server port_event make_client
    get set_at grow placed
typed_lem = refl

drop_client-destroy_example : Faults (destroy counting dropped.0 7)
drop_client-destroy_example =
    drop_client-destroy counting 5 visited.0 visited.1 dropped 7 typed_lem dropped_lem

-- A client at the descriptor 0, whose transaction has a resource at the descriptor 1.
abbrev fetching : ServerManager
fetching = record new_server_manager {
  types = client_fd ∷ resource_fd ∷ [];
  clients = live (record { client = new_client 0; port = 3 }) ∷ [];
  re3s = null ∷ live (record { owner = 0; number = 0 }) ∷ [];
}

fetching_lem :
    (get fetching.types 0 ≡ some client_fd)
    × (get fetching.clients 0 ≡ some (live (record { client = new_client 0; port = 3 })))
    × (get fetching.types 1 ≡ some resource_fd)
    × (get fetching.re3s 1 ≡ some (live (record { owner = 0; number = 0 })))
unfolding get
fetching_lem = (refl, refl, refl, refl)

client_socket_close-resource_example :
    (r : ServerManager × World ℕ) × (client_socket_close counting 0 fetching before ≡ ok r)
    × (get r.0.types 1 ≡ some resource_fd)
    × (get r.0.re3s 1 ≡ some freed)
client_socket_close-resource_example =
    client_socket_close-resource counting 0 1 fetching before
      (record { client = new_client 0; port = 3 }) (record { owner = 0; number = 0 }) fetching_lem.0
      fetching_lem.1 fetching_lem.2 fetching_lem.3 refl

sort_servers-listing_example :
    Above 0 (sort_servers two_sites 0 [])
    × (ids_of 80 (sort_servers two_sites 0 []) ≡ listing 80 two_sites 0)
sort_servers-listing_example = sort_servers-listing two_sites 0 80

started-Agrees : Agrees false false started.1
unfolding init_server_manager open_ports sort_servers add_ports add_server armed armed_by
started-Agrees = (refl, refl)

abbrev one_message : TermPrinter
one_message = record { err_msgs = []; out_msgs = codes "hello\n" }

check_std_buffer-Agrees_example :
    Agrees false false (check_std_buffer one_message started.1)
    × (armed stdout (check_std_buffer one_message started.1).event_changes false
        ≡ has_msg_inside one_message stdout)
    × (armed stderr (check_std_buffer one_message started.1).event_changes false
        ≡ has_msg_inside one_message stderr)
check_std_buffer-Agrees_example =
    check_std_buffer-Agrees one_message false false started.1 started-Agrees

-- A client with one response, of a head and a body.
abbrev reply_ready : Response
reply_ready = record {
  status = finished;
  http_status_code = codes "200 OK";
  headers = [];
  body = codes "BODY";
  version = codes "HTTP/1.1";
  head = codes "HEAD";
}

abbrev answered : Guest
answered = record {
  client = record (new_client 5) {
    re3_deque = record (new_re3 5) { rsp_ptr = some reply_ready } ∷ [];
  };
  port = 3;
}

abbrev with_answer : ServerManager
with_answer = record new_server_manager { clients = live answered ∷ [] }

first_there : get with_answer.clients 0 ≡ some (live answered)
unfolding get
first_there = refl

write_event-IsSent_example :
    (n : ServerManager) × (write_event counting 0 with_answer before ≡ ok (n, before))
    × IsSent 0 answered with_answer n
write_event-IsSent_example =
    write_event-IsSent counting 0 with_answer before answered
      (record (new_re3 5) { rsp_ptr = some reply_ready }) reply_ready [] first_there refl refl refl

-- ===== src/PortManager/Tests.antt =====
-- Instances of the theorems on src/Server.cpp, src/CgiConnector.cpp and src/PortManager.cpp, with a
-- system that has one file.
use lazy_team.Client.{new_client}
use lazy_team.Client.Receive.{recv_request}
use lazy_team.Base.{
  Ends, ◌≡◌, ok, fault, failed_assert, ℕ, List, ◌≢◌, arith, true, false, [], ◌∷◌, none, some, refl,
  if◌then◌else◌, ◌+◌,
}
use lazy_team.Webserv.{resource_read_init, read_done, reading, finished, nothing}
use lazy_team.Text.{starts_with, codes, text_eq, Lacks}
use lazy_team.StringMap.{insert, lookup, assign}
use lazy_team.Message.{Request, get_header_value, new_request, new_resource, insert_header}
use lazy_team.Location.{get_default_error_page, Location}
use lazy_team.Server.Route.{curr_location, longest_from}
use lazy_team.Server.Respond.{opened}
use lazy_team.Server.ErrorPages.{IsRefused, make_response-IsRefused}
use lazy_team.Re3.{Re3, new_re3}
use lazy_team.System.{System, World, absent, regular}
use lazy_team.CgiConnector.{strip_lines}
use lazy_team.CgiConnector.Strip.{Stripped, strip_lines-Stripped}
use lazy_team.Server.{Server, make_response}
use lazy_team.Server.Replies.{Gives, Replied}
use lazy_team.Server.Replies.Complete.{make_response-Replied}
use lazy_team.TermPrinter.{put_msg}
use lazy_team.PortManager.Choice.{ported, by_name, served, pass_request-Serves}
use lazy_team.PortManager.{PortManager, new_port_manager, pass_resource, pass_request}
use lazy_team.PortManager.Service.{recv_request-pass_request-Ends}

-- The state is the next free descriptor.
abbrev one_file : System ℕ
one_file = record {
  stat = λ s path. if text_eq path (codes "/www/a") then regular else absent;
  open_read = λ s path. (if text_eq path (codes "/www/a") then some s else none, s + 1);
  open_create = λ s path. (some s, s + 1);
  open_append = λ s path. (some s, s + 1);
  fstat = λ s fd. true;
  close = λ s fd. s;
  unlink = λ s path. s;
  read_dir = λ s path. none;
  date = λ s. codes "Mon";
  last_modified = λ s path. codes "Mon";
  pipe = λ s. (some (s, s + 1), s + 2);
  fork = λ s child. (some s, s + 1);
  address = λ s fd. codes "127.0.0.1";
}

abbrev www_location : Location
www_location = record {
  path = codes "/";
  root = codes "/www/";
  indexes = [];
  auto_index = false;
  error_pages = [];
  methods_allowed = 7;
  cgi_infos = [];
  return_to = ([], []);
}

abbrev www_server : Server
www_server = record {
  server_name = codes "h";
  default_root = codes "/www/";
  default_error_pages = [];
  client_body_limit = 10;
  locations = www_location ∷ [];
  return_to = ([], []);
  port_num = 80;
}

abbrev get_a_req : Request
get_a_req = record (insert_header new_request (codes "host") (codes "h:80")) {
  status = finished;
  method = 1;
  uri = codes "/a";
}

abbrev get_a : Re3
get_a = record (new_re3 4) { req_ptr = some get_a_req }

abbrev get_a_placed : Re3
get_a_placed = record get_a { rsc_ptr = some (new_resource nothing) }

abbrev quiet : World ℕ
quiet = record { system = 3; terminal = record { err_msgs = []; out_msgs = [] } }

make_response-Replied_example : Gives Replied (make_response one_file www_server 0 get_a_placed 3)
make_response-Replied_example = make_response-Replied one_file www_server 0 get_a_placed 3 refl

-- Three servers on a port: the host's name is the second one's.
abbrev three_servers : List Server
three_servers =
    record www_server { server_name = codes "first" }
    ∷ www_server
    ∷ record www_server { default_root = codes "/third" }
    ∷ []

first_differs : codes "first" ≢ codes "h"
first_differs = λ e. cc

h-Lacks : Lacks b':' (codes "h")
h-Lacks = (omega arith, tt)

h_host : get_header_value get_a_req (codes "host") ≡ codes "h:80"
unfolding insert_header insert lookup assign get_header_value text_eq
h_host = refl

abbrev on_three : PortManager
on_three = record { port_num = 80; port_fd = 3; servers = three_servers }

pass_request-Serves_example :
    (pass_resource one_file on_three 0 get_a quiet ≡ served one_file www_server 0 get_a quiet)
    × (pass_request one_file on_three 0 get_a quiet
        ≡ served one_file www_server 0
            (record get_a { port_manager_id = 3; rsc_ptr = some (new_resource nothing) })
            (record quiet { terminal = (put_msg quiet.terminal (codes "h")).0 }))
pass_request-Serves_example =
    pass_request-Serves one_file on_three 0 get_a quiet get_a_req (codes "h:80") (codes "h")
      www_server refl refl h_host (ported (codes "h") (codes "80") h-Lacks)
      (by_name (record www_server { server_name = codes "first" } ∷ []) www_server
        (record www_server { default_root = codes "/third" } ∷ []) (first_differs, tt) refl)

strip_lines-Stripped_example :
    Stripped (codes "A: b\r\n\r\nhi") (strip_lines 11 (codes "A: b\r\n\r\nhi"))
strip_lines-Stripped_example = strip_lines-Stripped (codes "A: b\r\n\r\nhi")

-- A location that allows POST only, with a page for 405.
abbrev post_location : Location
post_location = record www_location {
  methods_allowed = 2;
  error_pages = (codes "405 Method Not Allowed", codes "/www/a") ∷ [];
}

abbrev post_server : Server
post_server = record www_server { locations = post_location ∷ [] }

abbrev get_req : Request
get_req = record (insert_header new_request (codes "host") (codes "h")) {
  status = finished;
  method = 1;
  uri = codes "/a";
}

get_req-IsRefused : IsRefused post_server get_req post_location
unfolding insert_header insert lookup assign get_header_value text_eq curr_location longest_from
    starts_with
get_req-IsRefused = record {
  here = refl;
  found = refl;
  stays = refl;
  host = refl;
  begun = refl;
  measured = refl;
  refused = refl;
}

make_response-IsRefused_example :
    (make_response one_file post_server 0
        (record (new_re3 4) { req_ptr = some get_req; rsc_ptr = some (new_resource nothing) })
        3
      ≡ ok (
        opened (record (new_re3 4) { req_ptr = some get_req }) (new_resource nothing) reading 3,
        resource_read_init,
        4,
      ))
    × (make_response one_file post_server 0
          (record (new_re3 4) { req_ptr = some get_req; rsc_ptr = some (new_resource read_done) })
          3
        ≡ fault failed_assert)
unfolding get_default_error_page lookup text_eq
make_response-IsRefused_example =
    make_response-IsRefused one_file post_server 0 (new_re3 4) get_req (new_resource nothing)
      (new_resource read_done) post_location 3 3 get_req-IsRefused refl refl refl refl

recv_request-pass_request-Ends_example : Ends (
    recv_request
      (pass_request one_file (new_port_manager 80 3 (www_server ∷ [])) 0)
      0
      (new_client 4)
      (codes "GET /a HTTP/1.1\r\nHost: h\r\n\r\nGET")
      quiet)
recv_request-pass_request-Ends_example =
    recv_request-pass_request-Ends one_file (new_port_manager 80 3 (www_server ∷ [])) 0
      (new_client 4) (codes "GET /a HTTP/1.1\r\nHost: h\r\n\r\nGET") quiet

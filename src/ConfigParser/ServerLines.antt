-- ===== src/ConfigParser/ServerLines.antt =====
-- A line of a server block of src/ConfigParser.cpp that begins with a directive, and the server at the
-- end of its block.
pub mod Sound
pub mod Skipped
use lazy_team.Base.{
  ℕ, zero, suc, ◌+◌, ◌/◌, ◌%◌, ◌^◌, Bool, true, false, ◌&&◌, ◌||◌, List, [], ◌∷◌, ◌++◌, Option,
  none, some, ◌==◌, if◌then◌else◌, ltb, length, failed_assert,
}
use lazy_team.Text.{Bytes, codes}
use lazy_team.StringMap.{StringMap, assign}
use lazy_team.Webserv.{size_max, stat_code_map, get_method}
use lazy_team.Location.{Location}
use lazy_team.Server.{Server}
use lazy_team.ConfigParser.Replies.{
  Error, semantic, name_dup, no_entity, Reply, done, error, aborted, ◌>>=◌,
}
use lazy_team.ConfigParser.Directives.{
  Directive, root_line, listen_line, server_name_line, error_page_line, client_body_limit_line,
  return_line, number, server_pages,
}

-- The variables of `serverBlock`.
pub record ServerDraft : Type 0 where
  pub ports : List ℕ
  pub port : ℕ
  pub server_name : Bytes
  pub server_name_check : Bool
  pub default_root : Bytes
  pub default_error_pages : StringMap Bytes
  pub client_body_limit : ℕ
  pub client_body_limit_check : Bool
  pub locations : List Location
  pub return_to : Bytes × Bytes

abbrev pub new_server : ServerDraft
new_server = record {
  ports = [];
  port = 0;
  server_name = codes "localhost";
  server_name_check = false;
  default_root = [];
  default_error_pages = [];
  client_body_limit = 0;
  client_body_limit_check = false;
  locations = [];
  return_to = ([], []);
}

-- The bound of an `unsigned int`.
abbrev pub unsigned_int_max : ℕ
unsigned_int_max = 2 ^ 32

server_listen : ServerDraft → List Bytes → Reply ServerDraft
unfolding number
server_listen d (k ∷ v ∷ []) =
    number unsigned_int_max v >>= λ n. done (record d { port = n; ports = d.ports ++ n ∷ [] })
server_listen d _ = error semantic

named : ServerDraft → List Bytes → Reply ServerDraft
named d (k ∷ v ∷ []) = done (record d { server_name = v; server_name_check = true })
named d _ = error semantic

server_server_name : ServerDraft → List Bytes → Reply ServerDraft
unfolding named
server_server_name d elements = if d.server_name_check then error name_dup else named d elements

rooted : ServerDraft → List Bytes → Reply ServerDraft
rooted d (k ∷ v ∷ []) = done (record d { default_root = v })
rooted d _ = error semantic

server_root : ServerDraft → List Bytes → Reply ServerDraft
unfolding rooted
server_root d elements = if ltb 0 (length d.default_root) then error name_dup else rooted d elements

-- The loop goes on by two codes, up to half of the line.
server_error_page : ServerDraft → List Bytes → Reply ServerDraft
unfolding server_pages
server_error_page d elements =
    if length elements % 2 == 0
    then error semantic
    else server_pages ((length elements / 2 + 1) / 2) 1 elements d.default_error_pages >>= λ m.
        done (record d { default_error_pages = m })

limited : ServerDraft → List Bytes → Reply ServerDraft
unfolding number
limited d (k ∷ v ∷ []) = number size_max v >>= λ n.
    done (record d { client_body_limit = n; client_body_limit_check = true })
limited d _ = error semantic

server_client_body_limit : ServerDraft → List Bytes → Reply ServerDraft
unfolding limited
server_client_body_limit d elements =
    if d.client_body_limit_check then error name_dup else limited d elements

-- The status of `return`, with the target that the line names, or that there was.
returned : ServerDraft → Bytes → Bytes → Reply ServerDraft
returned d code to = elim (stat_code_map code) [
  | none ↦ error semantic
  | some stat ↦ done (record d { return_to = (stat, to) })
]

server_return_line : ServerDraft → List Bytes → Reply ServerDraft
unfolding returned
server_return_line d (k ∷ code ∷ []) = returned d code d.return_to.1
server_return_line d (k ∷ code ∷ to ∷ []) = returned d code to
server_return_line d _ = error semantic

server_return : ServerDraft → List Bytes → Reply ServerDraft
unfolding server_return_line
server_return d elements =
    if ltb 0 (length d.return_to.0) then error name_dup else server_return_line d elements

-- `switch (this->server_config[elements[0]])`
unfoldable pub server_switch : Directive → ServerDraft → List Bytes → Reply ServerDraft
unfolding server_listen server_server_name server_root server_error_page server_client_body_limit
    server_return
server_switch listen_line d elements = server_listen d elements
server_switch server_name_line d elements = server_server_name d elements
server_switch root_line d elements = server_root d elements
server_switch error_page_line d elements = server_error_page d elements
server_switch client_body_limit_line d elements = server_client_body_limit d elements
server_switch return_line d elements = server_return d elements
server_switch _ d elements = aborted failed_assert

-- `Location("/", default_root, …, GET, …)`, where the block has no location.
abbrev pub default_location : Bytes → Location
default_location root = record {
  path = codes "/";
  root = root;
  indexes = [];
  auto_index = false;
  error_pages = [];
  methods_allowed = get_method;
  cgi_infos = [];
  return_to = ([], []);
}

unfoldable pub or_default : Bytes → List Location → List Location
or_default root [] = default_location root ∷ []
or_default root (l ∷ ls) = l ∷ ls

-- A block needs a port, and a root, a location or a return.
is_incomplete : ServerDraft → Bool
is_incomplete d =
    d.port == 0
    || (length d.default_root == 0 && (length d.locations == 0 && length d.return_to.0 == 0))

-- The server of a block. `port_num` is not initialised; the port manager sets it before it is read.
made_server : ServerDraft → Server
unfolding or_default
made_server d = record {
  server_name = d.server_name;
  default_root = d.default_root;
  default_error_pages = d.default_error_pages;
  client_body_limit = d.client_body_limit;
  locations = or_default d.default_root d.locations;
  return_to = d.return_to;
  port_num = 0;
}

-- The server with its ports at the end of its block.
unfoldable pub server_of : ServerDraft → Reply (Server × List ℕ)
unfolding is_incomplete made_server
server_of d = if is_incomplete d then error no_entity else done (made_server d, d.ports)

-- ===== src/ConfigParser/Http.antt =====
-- `httpBlock` and `setData` of src/ConfigParser.cpp, with what they tell the server manager.
pub mod Names
pub mod Loop
pub mod Sound
pub mod Served
use lazy_team.Base.{
  ℕ, zero, suc, ◌+◌, Bool, true, false, List, [], ◌∷◌, ◌++◌, Option, none, some, ◌==◌,
  if◌then◌else◌, ltb, length, Fault, out_of_fuel, out_of_range,
}
use lazy_team.Text.{Bytes, codes, text_eq}
use lazy_team.Webserv.{size_max}
use lazy_team.Server.{Server}
use lazy_team.ConfigParser.Replies.{
  Error, semantic, name_dup, no_entity, open_file, no_message, Reply, done, error, aborted,
}
use lazy_team.ConfigParser.Reader.{
  ConfigFile, Line, got, ended, failed, stuck, get_line_elements, get_semantic_line,
}
use lazy_team.ConfigParser.Directives.{number}
use lazy_team.ConfigParser.Blocks.{get_into_block, server_block, rounds}

-- The servers with the ports that each listens on.
abbrev pub Configs : Type 0
Configs = List (Server × List ℕ)

-- What the server manager was told: the timeouts, and the argument of `initServerManager`.
pub record Settings : Type 0 where
  pub send_timeout : Option ℕ
  pub recv_timeout : Option ℕ
  pub configs : Option Configs

-- The variables of `httpBlock`.
pub record HttpDraft : Type 0 where
  pub configs : Configs
  pub server_name_set : List Bytes
  pub server_name_vec : List Bytes
  pub send_timeout_check : Bool
  pub recv_timeout_check : Bool

abbrev pub new_http : HttpDraft
new_http = record {
  configs = [];
  server_name_set = [];
  server_name_vec = [];
  send_timeout_check = false;
  recv_timeout_check = false;
}

abbrev pub Told : Type 0 → Type 0
Told A = Reply A × Settings × ConfigFile

unfoldable pub member : Bytes → List Bytes → Bool
member name [] = false
member name (n ∷ names) = if text_eq n name then true else member name names

-- `server_name_set.insert(server_name)`
unfoldable pub insert_name : Bytes → List Bytes → List Bytes
unfolding member
insert_name name names = if member name names then names else name ∷ names

with_name : HttpDraft → Bytes → HttpDraft
unfolding insert_name
with_name d name = record d {
  server_name_set = insert_name name d.server_name_set;
  server_name_vec = d.server_name_vec ++ name ∷ [];
}

-- The server is kept, and its name, if it has one, goes into the set and the vector.
unfoldable pub with_server : HttpDraft → Server → List ℕ → HttpDraft
unfolding with_name
with_server d srv ports =
    let kept = record d { configs = d.configs ++ (srv, ports) ∷ [] } in
    if ltb 0 (length srv.server_name) then with_name kept srv.server_name else kept

module _ (again : HttpDraft → Settings → ConfigFile → Told HttpDraft) where
  after_server : HttpDraft → Settings → Reply (Server × List ℕ) × ConfigFile → Told HttpDraft
  after_server d s (done (srv, ports), f) = again (with_server d srv ports) s f
  after_server d s (error e, f) = (error e, s, f)
  after_server d s (aborted e, f) = (aborted e, s, f)

  after_send : HttpDraft → Settings → ConfigFile → Reply ℕ → Told HttpDraft
  after_send d s f (done n) =
      again (record d { send_timeout_check = true }) (record s { send_timeout = some n }) f
  after_send d s f (error e) = (error e, s, f)
  after_send d s f (aborted e) = (aborted e, s, f)

  after_recv : HttpDraft → Settings → ConfigFile → Reply ℕ → Told HttpDraft
  after_recv d s f (done n) =
      again (record d { recv_timeout_check = true }) (record s { recv_timeout = some n }) f
  after_recv d s f (error e) = (error e, s, f)
  after_recv d s f (aborted e) = (aborted e, s, f)

  -- A line of the block: its end, a timeout, or else the first line of a server.
  http_line : HttpDraft → Settings → List Bytes → ConfigFile → Told HttpDraft
  unfolding after_server after_send after_recv
  http_line d s [] f = (aborted out_of_range, s, f)
  http_line d s (k ∷ []) f =
      if text_eq k (codes "}") then (done d, s, f) else (error semantic, s, f)
  http_line d s (k ∷ v ∷ []) f =
      if text_eq k (codes "send_timeout")
      then (if d.send_timeout_check
          then (error name_dup, s, f)
          else after_send d s f (number size_max v))
      else if text_eq k (codes "recv_timeout")
      then (if d.recv_timeout_check
          then (error name_dup, s, f)
          else after_recv d s f (number size_max v))
      else after_server d s (server_block (k ∷ v ∷ []) f)
  http_line d s (k ∷ v ∷ w ∷ elements) f = after_server d s (server_block (k ∷ v ∷ w ∷ elements) f)

  http_read : HttpDraft → Settings → Reply (List Bytes) × ConfigFile → Told HttpDraft
  unfolding http_line
  http_read d s (done elements, f) = http_line d s elements f
  http_read d s (error e, f) = (error no_message, s, f)
  http_read d s (aborted e, f) = (aborted e, s, f)

-- `while (!ret)`
unfoldable pub http_loop : ℕ → HttpDraft → Settings → ConfigFile → Told HttpDraft
unfolding http_read
http_loop zero d s f = (aborted out_of_fuel, s, f)
http_loop (suc fuel) d s f = http_read (λ e t g. http_loop fuel e t g) d s (get_line_elements f)

-- The checks behind the loop, and `initServerManager`.
unfoldable pub http_end : Told HttpDraft → Told (Unit {0})
http_end (done d, s, f) =
    if length d.configs == 0
    then (error no_entity, s, f)
    else if length d.server_name_set == length d.server_name_vec
    then (done tt, record s { configs = some d.configs }, f)
    else (error name_dup, s, f)
http_end (error e, s, f) = (error e, s, f)
http_end (aborted e, s, f) = (aborted e, s, f)

unfoldable pub in_http : Settings → Reply (Unit {0}) × ConfigFile → Told (Unit {0})
unfolding http_loop http_end
in_http s (done u, f) = http_end (http_loop (rounds f) new_http s f)
in_http s (error e, f) = (error no_message, s, f)
in_http s (aborted e, f) = (aborted e, s, f)

unfoldable pub http_block : Settings → ConfigFile → Told (Unit {0})
unfolding in_http
http_block s f = in_http s (get_into_block (codes "http") [] f)

-- The line behind the block must be the end of the file.
unfoldable pub at_end : Settings → Line × ConfigFile → Told (Unit {0})
at_end s (ended [], f) = (done tt, s, f)
at_end s (ended (c ∷ line), f) = (error no_message, s, f)
at_end s (got line, f) = (error no_message, s, f)
at_end s (failed, f) = (error no_message, s, f)
at_end s (stuck, f) = (aborted out_of_fuel, s, f)

-- Whatever `httpBlock` returns, the rest of the file is looked at.
unfoldable pub behind_http : Told (Unit {0}) → Told (Unit {0})
unfolding at_end
behind_http (done u, s, f) = at_end s (get_semantic_line f)
behind_http (error e, s, f) = at_end s (get_semantic_line f)
behind_http (aborted e, s, f) = (aborted e, s, f)

-- `setData`: `is_used` says that it was called before, `is_open` that the file could be opened.
unfoldable pub set_data : Bool → Bool → Settings → ConfigFile → Told (Unit {0})
unfolding http_block behind_http
set_data is_used is_open s f =
    if is_used
    then (error no_message, s, f)
    else if is_open
    then behind_http (http_block s f)
    else (error open_file, s, f)

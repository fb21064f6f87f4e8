-- ===== src/Server/Route.antt =====
-- The choice of the location, the checks of a request, and the path of its resource, of src/Server.cpp.
use Prim.Native.Nat.{bit_and}
use lazy_team.Base.{
  ℕ, ◌+◌, Bool, true, false, ◌&&◌, ◌||◌, List, [], ◌∷◌, ◌++◌, Option, none, some, ltb, ◌==◌,
  if◌then◌else◌, length, take, drop, Outcome, ok, fault, out_of_range,
}
use lazy_team.Text.{Bytes, codes, starts_with, find, read_unsigned, into}
use lazy_team.StringMap.{StringMap}
use lazy_team.Webserv.{size_max}
use lazy_team.Message.{Request, get_header_value}
use lazy_team.Location.{Location}
use lazy_team.Server.State.{Server}

-- The loop of `currLocation`: `longest` is the length of the best path so far, and `res` its location.
unfoldable pub longest_from : Bytes → List Location → ℕ → Location → Location
longest_from uri [] longest res = res
longest_from uri (l ∷ ls) longest res =
    elim (starts_with l.path uri && ltb longest (length l.path)) [
      | true ↦ longest_from uri ls (length l.path) l
      | false ↦ longest_from uri ls longest res
    ]

unfoldable pub curr_location : Bytes → List Location → Option Location
unfolding longest_from
curr_location uri [] = none
curr_location uri (l ∷ ls) = some (longest_from uri (l ∷ ls) 0 l)

-- `handleCGI`: the target holds the extension of some entry.
unfoldable pub handle_cgi : Bytes → StringMap Bytes → Bool
handle_cgi uri [] = false
handle_cgi uri ((k, v) ∷ m) = elim (find k uri) [ some i ↦ true | none ↦ handle_cgi uri m ]

-- `requestValidCheck`; `undef` is the value of `content_length` before it is read.
unfoldable pub request_valid_check : ℕ → Server → Request → Location → Bytes
request_valid_check undef s r l =
    let named = get_header_value r (codes "content-length") in
    if bit_and r.method l.methods_allowed == 0
    then codes "405 Method Not Allowed"
    else if s.client_body_limit == 0 || length named == 0
    then codes "200 OK"
    else if ltb s.client_body_limit (into (read_unsigned 10 size_max named) undef)
    then codes "413 Request Entity Too Large"
    else codes "200 OK"

-- The target with the location's path replaced by the root; `replace` throws if the path is not there.
unfoldable pub resource_path_of : Bytes → Bytes → Bytes → Outcome Bytes
resource_path_of uri path root = elim (find path uri) [
  | none ↦ fault out_of_range
  | some p ↦ ok (take p uri ++ (root ++ drop (p + length path) uri))
]

-- The location's root, or else the server's.
unfoldable pub root_of : Server → Location → Bytes
root_of s l = if ltb 0 (length l.root) then l.root else s.default_root

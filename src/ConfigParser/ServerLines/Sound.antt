-- ===== src/ConfigParser/ServerLines/Sound.antt =====
-- The lines of a server block of src/ConfigParser.cpp, and what holds of a server at its block's end.
use lazy_team.Base.{
  ℕ, ◌+◌, ◌/◌, ◌%◌, ◌<◌, Bool, true, false, ◌||◌, List, [], ◌∷◌, ◌++◌, Option, none, some, ◌≡◌,
  refl, arith, ◌==◌, ltb, length, All, All-append, ◌⊎◌, inl, inr,
}
use lazy_team.Text.{Bytes, Number, untouched, read, failed, read_unsigned, read_unsigned-lt}
use lazy_team.StringMap.{lookup, lookup-All}
use lazy_team.Webserv.{size_max, stat_code_map}
use lazy_team.Location.{Location}
use lazy_team.Server.{Server}
use lazy_team.ConfigParser.Replies.{done, error, semantic, no_entity}
use lazy_team.ConfigParser.Directives.{
  Directive, root_line, index_line, method_allowed_line, cgi_info_line, listen_line,
  server_name_line, auto_index_line, error_page_line, client_body_limit_line, return_line, number,
  server_pages, server_config,
}
use lazy_team.ConfigParser.ServerLines.{
  ServerDraft, unsigned_int_max, server_listen, named, server_server_name, rooted, server_root,
  server_error_page, limited, server_client_body_limit, returned, server_return_line, server_return,
  server_switch, or_default, is_incomplete, made_server, server_of,
}
use lazy_team.ConfigParser.Safe.{Sound, bind-Sound, if-Sound, option-Sound, NonEmpty}
use lazy_team.ConfigParser.Safe.Pages.{server_pages-Sound}
use lazy_team.ConfigParser.LocationLines.Sound.{IsLocation}

abbrev IsPort : ℕ → Type 0
IsPort p = p < unsigned_int_max

-- It listens on a port if its port is not 0; its ports and its limit are in range; it has a name; and its
-- locations are fit.
abbrev pub IsDraft : ServerDraft → Type 0
IsDraft d =
    ((d.port ≡ 0) ⊎ NonEmpty d.ports)
    × All IsPort d.ports
    × NonEmpty d.server_name
    × (d.client_body_limit < size_max)
    × All IsLocation d.locations

-- What a server is when it is handed over: it has a name and a location, each location allows a method
-- and none but GET, POST and DELETE, and it listens on some port, each an unsigned int.
pub record IsServer (c : Server × List ℕ) : Type 0 where
  pub has_name : NonEmpty c.0.server_name
  pub has_location : NonEmpty c.0.locations
  pub locations_ok : All IsLocation c.0.locations
  pub limit_range : c.0.client_body_limit < size_max
  pub has_port : NonEmpty c.1
  pub port_range : All IsPort c.1

is_server :
    (srv : Server) (ports : List ℕ)
    → NonEmpty srv.server_name
    → NonEmpty srv.locations
    → All IsLocation srv.locations
    → srv.client_body_limit < size_max
    → NonEmpty ports
    → All IsPort ports
    → IsServer (srv, ports)
is_server srv ports n l a c p r = record {
  has_name = n;
  has_location = l;
  locations_ok = a;
  limit_range = c;
  has_port = p;
  port_range = r;
}

pub number-Sound : (bound : ℕ) (text : Bytes) → Sound (λ n. n < bound) (number bound text)
unfolding number
number-Sound bound text =
    go (read_unsigned 10 bound text) (λ n e. read_unsigned-lt 10 bound text n e)
  where
    go :
        (r : Number)
        → ((n : ℕ) → r ≡ read n → n < bound)
        → Sound
            (λ n. n < bound)
            (elim r [ untouched ↦ error semantic | read n ↦ done n | failed n ↦ error semantic ])
    go untouched h = tt
    go (read n) h = h n refl
    go (failed n) h = tt

append-NonEmpty : {A : Type 0} (xs : List A) (y : A) → NonEmpty (xs ++ y ∷ [])
append-NonEmpty [] y = tt
append-NonEmpty (x ∷ xs) y = tt

-- A directive of `server_config`, if it is one.
abbrev pub IsOwn : Option Directive → Type 0
IsOwn none = Unit
IsOwn (some index_line) = ⊥
IsOwn (some method_allowed_line) = ⊥
IsOwn (some cgi_info_line) = ⊥
IsOwn (some auto_index_line) = ⊥
IsOwn (some _) = Unit

pub server_config-IsOwn : (name : Bytes) → IsOwn (lookup name server_config)
server_config-IsOwn name =
    lookup-All IsOwn name server_config tt (tt, (tt, (tt, (tt, (tt, (tt, tt))))))

or_false : (a b : Bool) → (a || b) ≡ false → a ≡ false
or_false true b e = e
or_false false b e = refl

module _ (d : ServerDraft) (h : IsDraft d) where
  server_listen-Sound : (es : List Bytes) → Sound IsDraft (server_listen d es)
  unfolding server_listen
  server_listen-Sound [] = tt
  server_listen-Sound (k ∷ []) = tt
  server_listen-Sound (k ∷ v ∷ []) =
      bind-Sound (λ n. n < unsigned_int_max) IsDraft (number unsigned_int_max v) _
        (number-Sound unsigned_int_max v)
        (λ n l. (
          inr (append-NonEmpty d.ports n),
          All-append IsPort d.ports (n ∷ []) h.1 (l, tt),
          h.2,
          h.3,
          h.4,
        ))
  server_listen-Sound (k ∷ v ∷ w ∷ es) = tt

  server_server_name-Sound :
      (es : List Bytes) → All NonEmpty es → Sound IsDraft (server_server_name d es)
  unfolding server_server_name named
  server_server_name-Sound [] a = if-Sound IsDraft d.server_name_check _ _ (λ e. tt) (λ e. tt)
  server_server_name-Sound (k ∷ []) a = if-Sound IsDraft d.server_name_check _ _ (λ e. tt) (λ e. tt)
  server_server_name-Sound (k ∷ v ∷ []) (_, (n, _)) =
      if-Sound IsDraft d.server_name_check _ _ (λ e. tt) (λ e. (h.0, h.1, n, h.3, h.4))
  server_server_name-Sound (k ∷ v ∷ w ∷ es) a =
      if-Sound IsDraft d.server_name_check _ _ (λ e. tt) (λ e. tt)

  server_root-Sound : (es : List Bytes) → Sound IsDraft (server_root d es)
  unfolding server_root rooted
  server_root-Sound [] = if-Sound IsDraft (ltb 0 (length d.default_root)) _ _ (λ e. tt) (λ e. tt)
  server_root-Sound (k ∷ []) =
      if-Sound IsDraft (ltb 0 (length d.default_root)) _ _ (λ e. tt) (λ e. tt)
  server_root-Sound (k ∷ v ∷ []) =
      if-Sound IsDraft (ltb 0 (length d.default_root)) _ _ (λ e. tt) (λ e. h)
  server_root-Sound (k ∷ v ∷ w ∷ es) =
      if-Sound IsDraft (ltb 0 (length d.default_root)) _ _ (λ e. tt) (λ e. tt)

  server_error_page-Sound :
      (es : List Bytes) → All NonEmpty es → Sound IsDraft (server_error_page d es)
  unfolding server_error_page
  server_error_page-Sound es a =
      if-Sound IsDraft (length es % 2 == 0) _ _ (λ e. tt)
        (λ e.
          bind-Sound _ IsDraft (server_pages ((length es / 2 + 1) / 2) 1 es d.default_error_pages) _
            (server_pages-Sound ((length es / 2 + 1) / 2) 1 es d.default_error_pages a
              (ground arith) (omega arith))
            (λ m t. h))

  limited-Sound : (es : List Bytes) → Sound IsDraft (limited d es)
  unfolding limited
  limited-Sound [] = tt
  limited-Sound (k ∷ []) = tt
  limited-Sound (k ∷ v ∷ []) =
      bind-Sound (λ n. n < size_max) IsDraft (number size_max v) _ (number-Sound size_max v)
        (λ n l. (h.0, h.1, h.2, l, h.4))
  limited-Sound (k ∷ v ∷ w ∷ es) = tt

  server_client_body_limit-Sound : (es : List Bytes) → Sound IsDraft (server_client_body_limit d es)
  unfolding server_client_body_limit
  server_client_body_limit-Sound es =
      if-Sound IsDraft d.client_body_limit_check _ _ (λ e. tt) (λ e. limited-Sound es)

  returned-Sound : (code to : Bytes) → Sound IsDraft (returned d code to)
  unfolding returned
  returned-Sound code to = option-Sound IsDraft (stat_code_map code) _ _ tt (λ stat. h)

  server_return_line-Sound : (es : List Bytes) → Sound IsDraft (server_return_line d es)
  unfolding server_return_line
  server_return_line-Sound [] = tt
  server_return_line-Sound (k ∷ []) = tt
  server_return_line-Sound (k ∷ code ∷ []) = returned-Sound code d.return_to.1
  server_return_line-Sound (k ∷ code ∷ to ∷ []) = returned-Sound code to
  server_return_line-Sound (k ∷ code ∷ to ∷ w ∷ es) = tt

  server_return-Sound : (es : List Bytes) → Sound IsDraft (server_return d es)
  unfolding server_return
  server_return-Sound es =
      if-Sound IsDraft (ltb 0 (length d.return_to.0)) _ _ (λ e. tt)
        (λ e. server_return_line-Sound es)

  pub server_switch-Sound :
      (x : Directive) (es : List Bytes)
      → All NonEmpty es
      → IsOwn (some x)
      → Sound IsDraft (server_switch x d es)
  unfolding server_switch
  server_switch-Sound listen_line es a i = server_listen-Sound es
  server_switch-Sound server_name_line es a i = server_server_name-Sound es a
  server_switch-Sound root_line es a i = server_root-Sound es
  server_switch-Sound error_page_line es a i = server_error_page-Sound es a
  server_switch-Sound client_body_limit_line es a i = server_client_body_limit-Sound es
  server_switch-Sound return_line es a i = server_return-Sound es
  server_switch-Sound index_line es a i = absurd i
  server_switch-Sound method_allowed_line es a i = absurd i
  server_switch-Sound cgi_info_line es a i = absurd i
  server_switch-Sound auto_index_line es a i = absurd i

  or_default-IsLocation :
      (root : Bytes) (ls : List Location)
      → All IsLocation ls
      → All IsLocation (or_default root ls) × NonEmpty (or_default root ls)
  unfolding or_default
  or_default-IsLocation root [] a = (((omega arith, omega arith), tt), tt)
  or_default-IsLocation root (l ∷ ls) a = (a, tt)

  -- A number that is not 0 excludes the case that no port was read.
  some_port : (d.port ≡ 0) ⊎ NonEmpty d.ports → (d.port == 0) ≡ false → NonEmpty d.ports
  some_port (inl e) f = absurd (ground arith)
  some_port (inr n) f = n

  made_server-IsServer : is_incomplete d ≡ false → IsServer (made_server d, d.ports)
  unfolding made_server is_incomplete
  made_server-IsServer e =
      let ok = or_default-IsLocation d.default_root d.locations h.4 in
      is_server (made_server d) d.ports h.2 ok.1 ok.0 h.3 (some_port h.0 (or_false _ _ e)) h.1

  pub server_of-Sound : Sound IsServer (server_of d)
  unfolding server_of
  server_of-Sound =
      if-Sound IsServer (is_incomplete d) (error no_entity) (done (made_server d, d.ports))
        (λ e. tt) (λ e. made_server-IsServer e)

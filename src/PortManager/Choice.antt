-- ===== src/PortManager/Choice.antt =====
-- The server that `findServer` of src/PortManager.cpp chooses for the host of a request, and what `passRequest` and
-- `passResource` make of it.
use lazy_team.Base.{
  ℕ, List, [], ◌∷◌, ◌++◌, Option, none, some, ◌≡◌, ◌≢◌, refl, ap, sym, ◌∙◌, All, take, Outcome, ok,
  deref, ◌>>=◌, arith, take-length-append, length,
}
use lazy_team.Text.{Bytes, codes, find_class, text_eq_iff, text_eq-false, Lacks}
use lazy_team.Webserv.{nothing, ServerStatus}
use lazy_team.Message.{Request, get_header_value, new_resource}
use lazy_team.TermPrinter.{put_msg}
use lazy_team.Re3.{Re3, set_rsc_ptr, set_rsc_ptr-none}
use lazy_team.System.{System, World}
use lazy_team.Server.{Server, make_response}
use lazy_team.PortManager.{
  PortManager, server_named, find_server, host_name, is_colon, pass_resource, pass_request,
}

-- A host, with the name in front of its port, if it has one.
pub data IsHost : Bytes → Bytes → Type 0 where
  bare : (name : Bytes) → Lacks b':' name → IsHost name name
  ported : (name port : Bytes) → Lacks b':' name → IsHost (name ++ (b':' ∷ port)) name

abbrev pub Unnamed : Bytes → List Server → Type 0
Unnamed name = All (λ s. s.server_name ≢ name)

-- The server for a name: the first one of that name, or, if there is none, the first of all.
pub data Serves (name : Bytes) : List Server → Server → Type 0 where
  by_name :
      (before : List Server) (s : Server) (behind : List Server)
      → Unnamed name before
      → s.server_name ≡ name
      → Serves name (before ++ s ∷ behind) s
  by_default : (s : Server) (ss : List Server) → Unnamed name (s ∷ ss) → Serves name (s ∷ ss) s

colon_none : (name : Bytes) → Lacks b':' name → find_class is_colon name ≡ none
unfolding find_class is_colon
colon_none [] h = refl
colon_none (c ∷ name) h = ground (arith, colon_none name h.1)

colon_some :
    (name port : Bytes)
    → Lacks b':' name
    → find_class is_colon (name ++ (b':' ∷ port)) ≡ some (length name)
unfolding find_class is_colon
colon_some [] port h = refl
colon_some (c ∷ name) port h = ground (arith, colon_some name port h.1)

host_name-IsHost :
    (req : Request) (host name : Bytes)
    → get_header_value req (codes "host") ≡ host
    → IsHost host name
    → host_name req ≡ name
unfolding host_name
host_name-IsHost req _ _ e (bare name h) = rw (e, host_name) (rw (colon_none name h, host_name) e)
host_name-IsHost req _ _ e (ported name port h) =
    rw (e, host_name)
      (rw (colon_some name port h, host_name)
        (ap (λ (b : Bytes). take (length name) b) e ∙ take-length-append name (b':' ∷ port)))

server_named-found :
    (name : Bytes) (first : Server) (before : List Server) (s : Server) (behind : List Server)
    → Unnamed name before
    → s.server_name ≡ name
    → server_named name first (before ++ s ∷ behind) ≡ s
unfolding server_named
server_named-found name first [] s behind h e =
    rw ((text_eq_iff name s.server_name).1 (sym e), server_named) refl
server_named-found name first (x ∷ before) s behind h e =
    rw (text_eq-false name x.server_name (λ z. h.0 (sym z)), server_named)
      (server_named-found name first before s behind h.1 e)

server_named-none :
    (name : Bytes) (first : Server) (ss : List Server)
    → Unnamed name ss
    → server_named name first ss ≡ first
unfolding server_named
server_named-none name first [] h = refl
server_named-none name first (x ∷ ss) h =
    rw (text_eq-false name x.server_name (λ z. h.0 (sym z)), server_named)
      (server_named-none name first ss h.1)

find_server-Serves :
    (name : Bytes) (ss : List Server) (s : Server) → Serves name ss s → find_server name ss ≡ ok s
unfolding find_server
find_server-Serves name _ _ (by_name [] s behind h e) =
    ap (λ x. ok x) (server_named-found name s [] s behind h e)
find_server-Serves name _ _ (by_name (x ∷ before) s behind h e) =
    ap (λ x. ok x) (server_named-found name x (x ∷ before) s behind h e)
find_server-Serves name _ _ (by_default s ss h) =
    ap (λ x. ok x) (server_named-none name s (s ∷ ss) h)

module _ {S : Type 0} (sys : System S) where
  -- What a server makes of a transaction, in a world.
  abbrev pub served : Server → ℕ → Re3 → World S → Outcome (Re3 × ServerStatus × World S)
  served s undef t w = do
    (t', answer, n) ← make_response sys s undef t w.system
    ok (t', answer, record w { system = n })

  pass_resource-Serves :
      (p : PortManager) (undef : ℕ) (t : Re3) (w : World S) (req : Request) (host name : Bytes)
      (s : Server)
      → t.req_ptr ≡ some req
      → get_header_value req (codes "host") ≡ host
      → IsHost host name
      → Serves name p.servers s
      → pass_resource sys p undef t w ≡ served s undef t w
  unfolding pass_resource
  pass_resource-Serves p undef t w req host name s e g h c =
      rw (e, pass_resource)
        (rw (host_name-IsHost req host name g h, ◌>>=◌)
          (rw (find_server-Serves name p.servers s c, ◌>>=◌) refl))

  pass_request-some :
      (p : PortManager) (undef : ℕ) (t : Re3) (w : World S) (req : Request)
      → t.req_ptr ≡ some req
      → pass_request sys p undef t w
        ≡ pass_resource sys p undef
            (set_rsc_ptr (record t { port_manager_id = p.port_fd }) (new_resource nothing)).0
            (record w { terminal = (put_msg w.terminal (host_name req)).0 })
  unfolding pass_request
  pass_request-some p undef t w req e =
      ap
        (λ (o : Option Request). deref o >>= λ r.
          pass_resource sys p undef
            (set_rsc_ptr (record t { port_manager_id = p.port_fd }) (new_resource nothing)).0
            (record w { terminal = (put_msg w.terminal (host_name r)).0 }))
        e

  -- For a transaction whose request has a host header, with a port behind its first colon or not, and that has
  -- no resource yet: `passResource` gives the transaction as it is to the first server of the port whose
  -- name is the host's, or to the first of all if there is none of that name. `passRequest` gives it to
  -- the same server with a new resource of status `kNothing` and the number of the port manager, after it
  -- printed the host's name.
  pub pass_request-Serves :
      (p : PortManager) (undef : ℕ) (t : Re3) (w : World S) (req : Request) (host name : Bytes)
      (s : Server)
      → t.req_ptr ≡ some req
      → t.rsc_ptr ≡ none
      → get_header_value req (codes "host") ≡ host
      → IsHost host name
      → Serves name p.servers s
      → (pass_resource sys p undef t w ≡ served s undef t w)
        × (pass_request sys p undef t w
            ≡ served s undef
                (record t { port_manager_id = p.port_fd; rsc_ptr = some (new_resource nothing) })
                (record w { terminal = (put_msg w.terminal name).0 }))
  pass_request-Serves p undef t w req host name s e n g h c =
      let t' = record t { port_manager_id = p.port_fd; rsc_ptr = some (new_resource nothing) } in
      let w' = λ (b : Bytes). record w { terminal = (put_msg w.terminal b).0 } in
      (
        pass_resource-Serves p undef t w req host name s e g h c,
        pass_request-some p undef t w req e
            ∙ ap (λ (x : Re3). pass_resource sys p undef x (w' (host_name req)))
                (set_rsc_ptr-none (record t { port_manager_id = p.port_fd }) (new_resource nothing)
                  n)
            ∙ ap (λ (b : Bytes). pass_resource sys p undef t' (w' b))
                (host_name-IsHost req host name g h)
            ∙ pass_resource-Serves p undef t' (w' name) req host name s e g h c,
      )

-- ===== src/ServerManager/Start/Sorted.antt =====
-- `server_sorter` of src/ServerManager.cpp holds for each port the servers that list it.
use lazy_team.Base.{
  ℕ, suc, ◌<◌, ◌≤◌, Bool, true, false, List, [], ◌∷◌, ◌++◌, ◌==◌, ltb, if◌then◌else◌, ◌≡◌, refl, ap,
  sym, ◌∙◌, arith, inl, inr, Bool-cases, append_assoc, append-nil,
}
use lazy_team.Server.{Server}
use lazy_team.ServerManager.Start.{Sorter, add_server, add_ports, sort_servers}

-- The servers of a port; the ports are in order, so the first entry is the only one.
unfoldable pub ids_of : ℕ → Sorter → List ℕ
ids_of port [] = []
ids_of port ((p, ids) ∷ m) = if p == port then ids else ids_of port m

-- The position, once for each time that the port is listed.
unfoldable pub times : ℕ → List ℕ → ℕ → List ℕ
times port [] i = []
times port (p ∷ ports) i = if p == port then i ∷ times port ports i else times port ports i

-- The positions of the servers that list a port, from `i` on.
unfoldable pub listing : ℕ → List (Server × List ℕ) → ℕ → List ℕ
unfolding times
listing port [] i = []
listing port ((srv, ports) ∷ configs) i = times port ports i ++ listing port configs (suc i)

-- All ports lie above a bound, in order.
abbrev pub Above : ℕ → Sorter → Type 0
Above n [] = Unit
Above n ((p, ids) ∷ m) = (n ≤ p) × Above (suc p) m

Above-ids : (n port : ℕ) (m : Sorter) → Above n m → port < n → ids_of port m ≡ []
unfolding ids_of
Above-ids n port [] a l = refl
Above-ids n port ((p, ids) ∷ m) (q, a) l = elim (Bool-cases (p == port)) [
  | inl e ↦ absurd (ground arith)
  | inr e ↦ rw e (Above-ids (suc p) port m a (omega arith))
]

add_server-Above :
    (n port i : ℕ) (m : Sorter) → n ≤ port → Above n m → Above n (add_server port i m)
unfolding add_server
add_server-Above n port i [] l a = (l, tt)
add_server-Above n port i ((p, ids) ∷ m) l (q, a) = elim (Bool-cases (p == port)) [
  | inl e ↦ rw e (q, a)
  | inr e ↦ elim (Bool-cases (ltb port p)) [
    | inl f ↦ rw (e, f) (l, (ground arith, a))
    | inr f ↦ rw (e, f) (q, add_server-Above (suc p) port i m (ground arith) a)
  ]
]

ids_of-add_server :
    (n port q i : ℕ) (m : Sorter)
    → Above n m
    → ids_of q (add_server port i m) ≡ ids_of q m ++ (if port == q then i ∷ [] else [])
unfolding add_server ids_of
ids_of-add_server n port q i [] a = ground arith
ids_of-add_server n port q i ((p, ids) ∷ m) (l, a) = ground (
  arith,
  ids_of-add_server (suc p) port q i m a,
  append-nil ids,
  append-nil (ids_of q m),
  Above-ids (suc p) q m a,
  Above-ids (suc p) port m a,
)

add_ports-Above : (ports : List ℕ) (i : ℕ) (m : Sorter) → Above 0 m → Above 0 (add_ports ports i m)
unfolding add_ports
add_ports-Above [] i m a = a
add_ports-Above (port ∷ ports) i m a =
    add_ports-Above ports i (add_server port i m) (add_server-Above 0 port i m (omega arith) a)

ids_of-add_ports :
    (q : ℕ) (ports : List ℕ) (i : ℕ) (m : Sorter)
    → Above 0 m
    → ids_of q (add_ports ports i m) ≡ ids_of q m ++ times q ports i
unfolding add_ports times
ids_of-add_ports q [] i m a = sym (append-nil (ids_of q m))
ids_of-add_ports q (port ∷ ports) i m a =
    ids_of-add_ports q ports i (add_server port i m) (add_server-Above 0 port i m (omega arith) a)
    ∙ ap (λ (l : List ℕ). l ++ times q ports i) (ids_of-add_server 0 port q i m a)
    ∙ append_assoc (ids_of q m) (if port == q then i ∷ [] else []) (times q ports i)
    ∙ ap (◌++◌ (ids_of q m)) (one (port == q))
  where
    one :
        (b : Bool)
        → (if b then i ∷ [] else []) ++ times q ports i
          ≡ (if b then i ∷ times q ports i else times q ports i)
    one true = refl
    one false = refl

sorted_from :
    (q : ℕ) (configs : List (Server × List ℕ)) (i : ℕ) (m : Sorter)
    → Above 0 m
    → ids_of q (sort_servers configs i m) ≡ ids_of q m ++ listing q configs i
unfolding sort_servers listing
sorted_from q [] i m a = sym (append-nil (ids_of q m))
sorted_from q ((srv, ports) ∷ configs) i m a =
    sorted_from q configs (suc i) (add_ports ports i m) (add_ports-Above ports i m a)
    ∙ ap (λ (l : List ℕ). l ++ listing q configs (suc i)) (ids_of-add_ports q ports i m a)
    ∙ append_assoc (ids_of q m) (times q ports i) (listing q configs (suc i))

sort_servers-Above :
    (configs : List (Server × List ℕ)) (i : ℕ) (m : Sorter)
    → Above 0 m
    → Above 0 (sort_servers configs i m)
unfolding sort_servers
sort_servers-Above [] i m a = a
sort_servers-Above ((srv, ports) ∷ configs) i m a =
    sort_servers-Above configs (suc i) (add_ports ports i m) (add_ports-Above ports i m a)

-- The ports of the sorter are in order, no two the same, and each has the positions of exactly the
-- servers that list it, in the order of the configuration and as often as each lists it.
pub sort_servers-listing :
    (configs : List (Server × List ℕ)) (i port : ℕ)
    → Above 0 (sort_servers configs i [])
      × (ids_of port (sort_servers configs i []) ≡ listing port configs i)
unfolding ids_of
sort_servers-listing configs i port =
    (sort_servers-Above configs i [] tt, sorted_from port configs i [] tt)

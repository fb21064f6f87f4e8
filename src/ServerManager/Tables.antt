-- ===== src/ServerManager/Tables.antt =====
-- `setEvent`, `callKevent`, `setClients`, `setRe3s`, `makeClient`, `clientSocketClose` and the branches of
-- `processEvent` that only change the tables, of src/ServerManager.cpp.
pub mod Entries
pub mod Fit
pub mod Keeps
pub mod Reached
pub mod Twice
pub mod Destroyed
use lazy_team.Base.{
  ℕ, zero, suc, ◌+◌, Bool, true, false, List, [], ◌∷◌, ◌++◌, ◌==◌, Option, none, some,
  if◌then◌else◌, Outcome, ok, fault, out_of_range, null_pointer, ◌>>=◌,
}
use lazy_team.Text.{Bytes, codes}
use lazy_team.Webserv.{FdType, blank, port_fd, client_fd, resource_fd, Code, ok_code, error_code}
use lazy_team.TermPrinter.{put_err}
use lazy_team.System.{World}
use lazy_team.Client.{new_client}
use lazy_team.ServerManager.State.{
  Slot, null, freed, live, Filter, evfilt_read, evfilt_write, Flag, ev_add, ev_enable, ev_disable,
  Change, Port, Guest, Re3Ref, ServerManager, Sockets,
}

module _ {ℓ} {A : Type ℓ} where
  -- `v.resize(n, x)`, if `v` is shorter than `n`
  unfoldable pub grow : ℕ → A → List A → List A
  grow zero a xs = xs
  grow (suc n) a [] = a ∷ grow n a []
  grow (suc n) a (x ∷ xs) = x ∷ grow n a xs

  -- `v[i] = x`, for a position of `v`
  unfoldable pub set_at : ℕ → A → List A → List A
  set_at i a [] = []
  set_at zero a (x ∷ xs) = a ∷ xs
  set_at (suc i) a (x ∷ xs) = x ∷ set_at i a xs

  -- `v[i]`
  unfoldable pub get : List A → ℕ → Option A
  get [] i = none
  get (x ∷ xs) zero = some x
  get (x ∷ xs) (suc i) = get xs i

  -- The table grows up to the descriptor, whose entry is set.
  unfoldable pub placed : ℕ → A → A → List A → List A
  unfolding grow set_at
  placed fd a d xs = set_at fd a (grow (fd + 1) d xs)

unfoldable pub set_event : ℕ → Filter → List Flag → ServerManager → ServerManager
set_event fd f flags m = record m {
  event_changes = m.event_changes ++ record { ident = fd; filter = f; flags = flags } ∷ [];
}

-- `callKevent` hands the changes over; what it gives is an argument of `processEvent`.
unfoldable pub call_kevent : ServerManager → List Change × ServerManager
call_kevent m = (m.event_changes, record m { event_changes = [] })

unfoldable pub set_clients : ℕ → Slot Guest → ServerManager → ServerManager
unfolding placed
set_clients fd c m = record m {
  types = placed fd client_fd blank m.types;
  clients = placed fd c null m.clients;
}

unfoldable pub set_re3s : ℕ → Slot Re3Ref → ServerManager → ServerManager
unfolding placed
set_re3s fd r m = record m {
  types = placed fd resource_fd blank m.types;
  re3s = placed fd r null m.re3s;
}

-- A pointer to a transaction that the client of descriptor `o` holds is left dangling.
free_slot : ℕ → Slot Re3Ref → Slot Re3Ref
free_slot o null = null
free_slot o freed = freed
free_slot o (live x) = if x.owner == o then freed else live x

-- `~Client` destroys the client's transactions; the pointers to them stay.
unfoldable pub free_owned : ℕ → List (Slot Re3Ref) → List (Slot Re3Ref)
unfolding free_slot
free_owned o [] = []
free_owned o (x ∷ xs) = free_slot o x ∷ free_owned o xs

-- `clients[fd]` is deleted, and its transactions with it; the pointers stay.
pub delete :
    List (Slot Guest) → List (Slot Re3Ref) → ℕ → Outcome (List (Slot Guest) × List (Slot Re3Ref))
unfolding get set_at free_owned
delete cs rs fd = elim (get cs fd) [
  | none ↦ fault out_of_range
  | some null ↦ ok (cs, rs)
  | some freed ↦ fault null_pointer
  | some (live c) ↦ ok (set_at fd freed cs, free_owned c.client.client_fd rs)
]

-- `delete managers[fd]`
delete_manager : List (Slot Port) → ℕ → Outcome (List (Slot Port))
unfolding get set_at
delete_manager ms fd = elim (get ms fd) [
  | none ↦ fault out_of_range
  | some null ↦ ok ms
  | some freed ↦ fault null_pointer
  | some (live p) ↦ ok (set_at fd freed ms)
]

-- `types[fd] = kBlank`
blanked : List FdType → ℕ → Outcome (List FdType)
unfolding get set_at
blanked ts fd = elim (get ts fd) [ none ↦ fault out_of_range | some t ↦ ok (set_at fd blank ts) ]

module _ {S : Type 0} (net : Sockets S) where
  -- The client with its descriptor, which is taken over into the tables.
  with_client : ℕ → ℕ → ServerManager → ServerManager
  unfolding placed set_event
  with_client port fd m =
      let m1 = set_event fd evfilt_read (ev_add ∷ ev_enable ∷ []) m in
      let m2 = set_event fd evfilt_write (ev_add ∷ ev_disable ∷ []) m1 in
      record m2 {
        types = placed fd client_fd blank m.types;
        clients = placed fd (live (record { client = new_client fd; port = port })) null m.clients;
      }

  -- Behind the two calls of `setsockopt`: a descriptor -1 that they took would be out of all tables.
  accepted : Port → ServerManager → World S → Option ℕ → Outcome (Code × ServerManager × World S)
  unfolding with_client
  accepted p m w none = fault out_of_range
  accepted p m w (some fd) =
      ok (ok_code, with_client p.port_fd fd m, record w { system = net.unblock w.system fd })

  refused : ServerManager → World S → Bytes → Outcome (Code × ServerManager × World S)
  refused m w text = ok (error_code, m, record w { terminal = (put_err w.terminal text).0 })

  send_set :
      Port
      → ServerManager
      → World S
      → Option ℕ
      → Bool × S
      → Outcome (Code × ServerManager × World S)
  unfolding accepted refused
  send_set p m w fd (true, s) = accepted p m (record w { system = s }) fd
  send_set p m w fd (false, s) =
      refused m (record w { system = s }) (codes "setsockopt: send_timeout set failed\n")

  recv_set :
      Port
      → ServerManager
      → World S
      → Option ℕ
      → Bool × S
      → Outcome (Code × ServerManager × World S)
  unfolding send_set refused
  recv_set p m w fd (true, s) = send_set p m w fd (net.set_send s fd m.send_timeout)
  recv_set p m w fd (false, s) =
      refused m (record w { system = s }) (codes "setsockopt: recv_timeout set failed\n")

  -- The test of `accept` compares an unsigned number with 0 and never holds.
  unfoldable pub make_client :
      Port → ServerManager → World S → Outcome (Code × ServerManager × World S)
  unfolding recv_set
  make_client p m w =
      let r = net.accept w.system p.port_fd in
      recv_set p m w r.0 (net.set_recv r.1 r.0 m.recv_timeout)

  unfoldable pub client_socket_close :
      ℕ → ServerManager → World S → Outcome (ServerManager × World S)
  unfolding delete blanked
  client_socket_close fd m w = do
    cs ← delete m.clients m.re3s fd
    ts ← blanked m.types fd
    ok (
      record m { clients = cs.0; re3s = cs.1; types = ts },
      record w { system = net.close w.system fd },
    )

  -- `clientReadEvent` with a request that cannot be read: the client's descriptor is closed and the client
  -- deleted with its transactions, and the type of the descriptor stays.
  unfoldable pub drop_client : ℕ → ServerManager → World S → Outcome (ServerManager × World S)
  unfolding get set_at free_owned
  drop_client fd m w = elim (get m.clients fd) [
    | none ↦ fault out_of_range
    | some null ↦ fault null_pointer
    | some freed ↦ fault null_pointer
    | some (live g) ↦ ok (
      record m { clients = set_at fd freed m.clients; re3s = free_owned g.client.client_fd m.re3s },
      record w { system = net.close w.system g.client.client_fd },
    )
  ]

  -- A resource was read or written to its end: its descriptor is closed and its entry blank.
  unfoldable pub close_resource : ℕ → ServerManager → World S → Outcome (ServerManager × World S)
  unfolding blanked
  close_resource fd m w = blanked m.types fd >>= λ ts.
      ok (record m { types = ts }, record w { system = net.close w.system fd })

  -- The manager of a descriptor, to be followed.
  manager_of : List (Slot Port) → ℕ → Outcome Port
  unfolding get
  manager_of ms fd = elim (get ms fd) [
    | none ↦ fault out_of_range
    | some null ↦ fault null_pointer
    | some freed ↦ fault null_pointer
    | some (live p) ↦ ok p
  ]

  -- A client waits at a port.
  unfoldable pub port_event : ℕ → ServerManager → World S → Outcome (ServerManager × World S)
  unfolding manager_of
  port_event fd m w = do
    p ← manager_of m.managers fd
    r ← make_client p m w
    ok (elim r.0 [
      | ok_code ↦ (r.1, r.2)
      | error_code ↦
          (r.1, record r.2 { terminal = (put_err r.2.terminal (codes "Recv error\n")).0 })
    ])

  -- An error at a port: its manager is deleted and set to NULL.
  unfoldable pub port_error : ℕ → ServerManager → World S → Outcome (ServerManager × World S)
  unfolding delete_manager blanked set_at
  port_error fd m w = do
    ps ← delete_manager m.managers fd
    ts ← blanked m.types fd
    ok (
      record m { managers = set_at fd null ps; types = ts },
      record w {
        system = net.close w.system fd;
        terminal = (put_err w.terminal (codes "Server socket error\n")).0;
      },
    )

  -- An error at a client.
  unfoldable pub client_error : ℕ → ServerManager → World S → Outcome (ServerManager × World S)
  client_error fd m w =
      client_socket_close fd m
        (record w { terminal = (put_err w.terminal (codes "Client socket error\n")).0 })

  -- A round of the destructor's loop over `types`.
  destroy_at : FdType → ℕ → ServerManager → S → Outcome (ServerManager × S)
  unfolding delete_manager delete
  destroy_at port_fd fd m s =
      delete_manager m.managers fd >>= λ ms. ok (record m { managers = ms }, net.close s fd)
  destroy_at client_fd fd m s = delete m.clients m.re3s fd >>= λ cs.
      ok (record m { clients = cs.0; re3s = cs.1 }, net.close s fd)
  destroy_at _ fd m s = ok (m, s)

  -- The loop, from the descriptor `fd` on.
  unfoldable pub destroy_from : List FdType → ℕ → ServerManager → S → Outcome (ServerManager × S)
  unfolding destroy_at
  destroy_from [] fd m s = ok (m, s)
  destroy_from (t ∷ ts) fd m s = destroy_at t fd m s >>= λ r. destroy_from ts (suc fd) r.0 r.1

  -- `~ServerManager`
  unfoldable pub destroy : ServerManager → S → Outcome (ServerManager × S)
  unfolding destroy_from
  destroy m s = destroy_from m.types 0 m s

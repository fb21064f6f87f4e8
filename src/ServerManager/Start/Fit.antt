-- ===== src/ServerManager/Start/Fit.antt =====
-- The tables behind `initServerManager` of src/ServerManager.cpp.
use lazy_team.Base.{
  ℕ, zero, suc, ◌%◌, ◌^◌, Bool, true, false, List, [], ◌∷◌, Option, none, some, ◌≡◌, subst, Outcome,
  ok,
}
use lazy_team.Webserv.{Code}
use lazy_team.System.{World}
use lazy_team.Server.{Server}
use lazy_team.ServerManager.State.{ServerManager, Sockets, new_server_manager}
use lazy_team.ServerManager.Tables.{grow, set_at, get, set_event, destroy}
use lazy_team.ServerManager.Tables.Destroyed.{Yields, destroy-Yields}
use lazy_team.ServerManager.Tables.Fit.{IsFit, port-IsFit}
use lazy_team.ServerManager.Tables.Keeps.{Gives}
use lazy_team.ServerManager.Tables.Reached.{Reaches, Reaches-IsFit}
use lazy_team.ServerManager.Start.{
  Sorter, sort_servers, finish, broken, given_up, with_manager, listening, bound, sent, received,
  opened, open_ports, prepared, init_server_manager,
}

-- Before any port only the two descriptors of the terminal are there.
prepared-IsFit : (configs : List (Server × List ℕ)) → IsFit [] (prepared configs new_server_manager)
unfolding prepared set_event grow set_at get
prepared-IsFit configs zero = tt
prepared-IsFit configs (suc zero) = tt
prepared-IsFit configs (suc (suc zero)) = tt
prepared-IsFit configs (suc (suc (suc fd))) = tt

module _ {S : Type 0} (net : Sockets S) where
  Fine : Code × ServerManager × World S → Type 0
  Fine r = IsFit [] r.1

  module _ (again : ServerManager → World S → Outcome (Code × ServerManager × World S))
      (ih : (m : ServerManager) (w : World S) → IsFit [] m → Gives Fine (again m w)) (port : ℕ)
      (ids : List ℕ) (m : ServerManager) (h : IsFit [] m) where
    listening-Gives :
        (w : World S) (fd : Option ℕ) → Gives Fine (listening net again port ids m w fd)
    unfolding listening with_manager set_event
    listening-Gives w none = tt
    listening-Gives w (some fd) = ih _ _ (port-IsFit fd [] m h _)

    bound-Gives :
        (w : World S) (fd : Option ℕ) (r : Bool × S)
        → Gives Fine (bound net again port ids m w fd r)
    unfolding bound broken finish Fine
    bound-Gives w fd (false, s) = h
    bound-Gives w fd (true, s) = listening-Gives (record w { system = s }) fd

    sent-Gives :
        (w : World S) (fd : Option ℕ) (r : Bool × S) → Gives Fine (sent net again port ids m w fd r)
    unfolding sent broken finish Fine
    sent-Gives w fd (false, s) = h
    sent-Gives w fd (true, s) = bound-Gives w fd (net.listen s fd)

    received-Gives :
        (w : World S) (fd : Option ℕ) (r : Bool × S)
        → Gives Fine (received net again port ids m w fd r)
    unfolding received given_up Fine
    received-Gives w fd (false, s) = h
    received-Gives w fd (true, s) = sent-Gives w fd (net.bind s fd (port % 2 ^ 16))

    opened-Gives :
        (w : World S) (fd : Option ℕ) (r : Bool × S)
        → Gives Fine (opened net again port ids m w fd r)
    unfolding opened given_up Fine
    opened-Gives w fd (false, s) = h
    opened-Gives w fd (true, s) = received-Gives w fd (net.set_send s fd m.send_timeout)

  open_ports-Gives :
      (sorter : Sorter) (m : ServerManager) (w : World S)
      → IsFit [] m
      → Gives Fine (open_ports net sorter m w)
  unfolding open_ports finish Fine
  open_ports-Gives [] m w h = h
  open_ports-Gives ((port, ids) ∷ sorter) m w h =
      opened-Gives (λ n v. open_ports net sorter n v) (λ n v k. open_ports-Gives sorter n v k) port
        ids m h w _ _

  -- After `initServerManager` of a new manager, whatever the calls of the system give, and any sequence of
  -- clients that are accepted, written to, changed in their place, failed, closed or dropped (`clientReadEvent`,
  -- kReadFail), failed ports, resources that begin and end, changes of the event list and changes outside the
  -- tables: a descriptor of type port has a manager that was not deleted; one of type client has a client that was not deleted, or
  -- it is among those dropped on the way and its pointer dangles; one of type resource has a pointer that is
  -- not NULL.
  pub init_server_manager-Reaches :
      (configs : List (Server × List ℕ)) (w : World S) (code : Code) (m : ServerManager)
      (v : World S) (gone : List ℕ) (s : ServerManager × World S)
      → init_server_manager net configs new_server_manager w ≡ ok (code, m, v)
      → Reaches net gone (m, v) s
      → IsFit gone s.0
  unfolding init_server_manager Fine
  init_server_manager-Reaches configs w code m v gone s e r =
      Reaches-IsFit net gone (m, v) s r
        (subst (Gives Fine) e (
          open_ports-Gives (sort_servers configs 0 []) (prepared configs new_server_manager) w
            (prepared-IsFit configs)))

  -- After `initServerManager` of a new manager and any such sequence in which no client is dropped, the
  -- destructor comes to its end: it deletes no object twice.
  pub init_server_manager-destroy :
      (configs : List (Server × List ℕ)) (w : World S) (code : Code) (m : ServerManager)
      (v : World S) (s : ServerManager × World S)
      → init_server_manager net configs new_server_manager w ≡ ok (code, m, v)
      → Reaches net [] (m, v) s
      → Yields (λ r. Unit) (destroy net s.0 s.1.system)
  init_server_manager-destroy configs w code m v s e r =
      destroy-Yields net s.0 s.1.system (init_server_manager-Reaches configs w code m v [] s e r)

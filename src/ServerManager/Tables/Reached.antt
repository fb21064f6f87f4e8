-- ===== src/ServerManager/Tables/Reached.antt =====
-- Sequences of the changes that the event loop of src/ServerManager.cpp makes to its tables, with the
-- descriptors whose clients `clientReadEvent` dropped on the way.
use lazy_team.Base.{ℕ, List, [], ◌∷◌, ◌++◌, some, ◌≡◌, ok}
use lazy_team.System.{World}
use lazy_team.ServerManager.State.{Guest, live, Filter, Flag, Re3Ref, ServerManager, Sockets}
use lazy_team.ServerManager.Tables.{
  get, set_at, set_event, call_kevent, set_re3s, client_socket_close, close_resource, port_event,
  port_error, client_error, drop_client,
}
use lazy_team.ServerManager.Tables.Keeps.{
  Gives-ok, port_event-Gives, client_socket_close-Gives, close_resource-Gives, port_error-Gives,
  client_error-Gives, drop_client-Gives,
}
use lazy_team.ServerManager.Sending.{write_event}
use lazy_team.ServerManager.Sending.Keeps.{write_event-Gives}
use lazy_team.ServerManager.Tables.Fit.{IsFit, re3-IsFit, again-IsFit}

module _ {S : Type 0} (net : Sockets S) where
  -- One thing that the loop does to its tables: a client is accepted, is written to or changes in its place, a port or a client fails, a client
  -- is closed, a client is dropped because its request cannot be read, a resource begins or ends, an event is asked for, and the changes are handed over. The list has the descriptor of a dropped client.
  pub data Step : List ℕ → ServerManager × World S → ServerManager × World S → Type 0 where
    accepting :
        (fd : ℕ) (m : ServerManager) (w : World S) (r : ServerManager × World S)
        → port_event net fd m w ≡ ok r
        → Step [] (m, w) r
    port_failing :
        (fd : ℕ) (m : ServerManager) (w : World S) (r : ServerManager × World S)
        → port_error net fd m w ≡ ok r
        → Step [] (m, w) r
    client_failing :
        (fd : ℕ) (m : ServerManager) (w : World S) (r : ServerManager × World S)
        → client_error net fd m w ≡ ok r
        → Step [] (m, w) r
    closing :
        (fd : ℕ) (m : ServerManager) (w : World S) (r : ServerManager × World S)
        → client_socket_close net fd m w ≡ ok r
        → Step [] (m, w) r
    dropping :
        (fd : ℕ) (m : ServerManager) (w : World S) (r : ServerManager × World S)
        → drop_client net fd m w ≡ ok r
        → Step (fd ∷ []) (m, w) r
    receiving :
        (fd : ℕ) (g h : Guest) (m : ServerManager) (w : World S)
        → get m.clients fd ≡ some (live g)
        → Step [] (m, w) (record m { clients = set_at fd (live h) m.clients }, w)
    resource_ending :
        (fd : ℕ) (m : ServerManager) (w : World S) (r : ServerManager × World S)
        → close_resource net fd m w ≡ ok r
        → Step [] (m, w) r
    writing :
        (fd : ℕ) (m : ServerManager) (w : World S) (r : ServerManager × World S)
        → write_event net fd m w ≡ ok r
        → Step [] (m, w) r
    resource_beginning :
        (fd : ℕ) (x : Re3Ref) (m : ServerManager) (w : World S)
        → Step [] (m, w) (set_re3s fd (live x) m, w)
    asking :
        (fd : ℕ) (f : Filter) (flags : List Flag) (m : ServerManager) (w : World S)
        → Step [] (m, w) (set_event fd f flags m, w)
    handing : (m : ServerManager) (w : World S) → Step [] (m, w) ((call_kevent m).1, w)
    elsewhere : (m : ServerManager) (w v : World S) → Step [] (m, w) (m, v)

  -- A sequence of steps, with the descriptors of the clients that were dropped, the last one first.
  pub data Reaches : List ℕ → ServerManager × World S → ServerManager × World S → Type 0 where
    here : (r : ServerManager × World S) → Reaches [] r r
    on :
        (gone now : List ℕ) (r s t : ServerManager × World S)
        → Reaches gone r s
        → Step now s t
        → Reaches (now ++ gone) r t

  Step-IsFit :
      (gone now : List ℕ) (r s : ServerManager × World S)
      → Step now r s
      → IsFit gone r.0
      → IsFit (now ++ gone) s.0
  unfolding set_re3s set_event call_kevent
  Step-IsFit gone _ _ _ (accepting fd m w r e) h =
      Gives-ok (λ x. IsFit gone x.0) _ r e (port_event-Gives net gone fd m w h)
  Step-IsFit gone _ _ _ (port_failing fd m w r e) h =
      Gives-ok (λ x. IsFit gone x.0) _ r e (port_error-Gives net gone fd m w h)
  Step-IsFit gone _ _ _ (client_failing fd m w r e) h =
      Gives-ok (λ x. IsFit gone x.0) _ r e (client_error-Gives net gone fd m w h)
  Step-IsFit gone _ _ _ (closing fd m w r e) h =
      Gives-ok (λ x. IsFit gone x.0) _ r e (client_socket_close-Gives net gone fd m w h)
  Step-IsFit gone _ _ _ (dropping fd m w r e) h =
      Gives-ok (λ x. IsFit (fd ∷ gone) x.0) _ r e (drop_client-Gives net gone fd m w h)
  Step-IsFit gone _ _ _ (receiving fd g x m w e) h = again-IsFit fd gone m h g x e
  Step-IsFit gone _ _ _ (resource_ending fd m w r e) h =
      Gives-ok (λ x. IsFit gone x.0) _ r e (close_resource-Gives net gone fd m w h)
  Step-IsFit gone _ _ _ (writing fd m w r e) h =
      Gives-ok (λ x. IsFit gone x.0) _ r e (write_event-Gives net gone fd m w h)
  Step-IsFit gone _ _ _ (resource_beginning fd x m w) h = re3-IsFit fd gone m h x
  Step-IsFit gone _ _ _ (asking fd f flags m w) h = h
  Step-IsFit gone _ _ _ (handing m w) h = h
  Step-IsFit gone _ _ _ (elsewhere m w v) h = h

  -- From tables that fit with no client dropped, each sequence of these steps leads to tables that fit with its
  -- dropped clients.
  pub Reaches-IsFit :
      (gone : List ℕ) (r s : ServerManager × World S)
      → Reaches gone r s
      → IsFit [] r.0
      → IsFit gone s.0
  Reaches-IsFit _ _ _ (here r) h = h
  Reaches-IsFit _ _ _ (on gone now r s t p q) h =
      Step-IsFit gone now s t q (Reaches-IsFit gone r s p h)

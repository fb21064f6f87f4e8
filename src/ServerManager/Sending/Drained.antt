-- ===== src/ServerManager/Sending/Drained.antt =====
-- What src/ServerManager.cpp sends to a client.
use lazy_team.Base.{
  ℕ, Bool, true, false, List, [], ◌∷◌, ◌++◌, Option, none, some, ltb, if◌then◌else◌, length, take,
  drop, ok, ◌>>=◌, ◌≡◌, refl, ap, sym, ◌∙◌, arith, append-nil,
}
use lazy_team.Text.{Bytes}
use lazy_team.Webserv.{ok_code, error_code, network_buff}
use lazy_team.Message.{Response}
use lazy_team.Re3.{Re3}
use lazy_team.System.{World}
use lazy_team.Client.{Client}
use lazy_team.Client.Send.{pass_response}
use lazy_team.Client.Send.Stream.{pass_response-wire}
use lazy_team.Client.Send.Wire.{wire}
use lazy_team.ServerManager.State.{
  Slot, live, evfilt_write, ev_disable, Change, Guest, ServerManager, Sockets,
}
use lazy_team.ServerManager.Tables.{get, set_at, set_event}
use lazy_team.ServerManager.Tables.Entries.{get-set_at}
use lazy_team.ServerManager.Sending.{
  guest_of, write_off, with_guest, handed_out, after_sent, client_write_event, by_code, write_event,
}

-- The bytes of one event.
abbrev pub portion : Guest → Bytes
portion g = take network_buff (wire g.client.re3_deque)

-- The change that a portion asks for.
abbrev pub switched : ℕ → Bytes → List Change
switched fd str =
    if ltb (length str) network_buff
    then record { ident = fd; filter = evfilt_write; flags = ev_disable ∷ [] } ∷ []
    else []

-- What is left behind an event: the bytes that were not sent, in the client's place, and the change.
pub record IsSent (fd : ℕ) (g : Guest) (m : ServerManager) (n : ServerManager) : Type 0 where
  pub after : Guest
  pub in_place : get n.clients fd ≡ some (live after)
  pub bytes_left : wire after.client.re3_deque ≡ drop network_buff (wire g.client.re3_deque)
  pub changes : n.event_changes ≡ m.event_changes ++ switched fd (portion g)
  pub same_types : n.types ≡ m.types

guest_of-live :
    (cs : List (Slot Guest)) (fd : ℕ) (g : Guest)
    → get cs fd ≡ some (live g)
    → guest_of cs fd ≡ ok g
unfolding guest_of
guest_of-live cs fd g e = rw (guest_of, e) refl

some_eq : (a b : ℕ) → some a ≡ some b → a ≡ b
some_eq a b e = cc

if_less : {A : Type 0} (n size : ℕ) → n ≡ size → (x y : A) → (if ltb n size then x else y) ≡ y
if_less n size e x y = ground arith

module _ {S : Type 0} (net : Sockets S) where
  client_write_event-lem :
      (fd : ℕ) (m : ServerManager) (w : World S) (g : Guest) (c : Client) (str : Bytes)
      → guest_of m.clients fd ≡ ok g
      → pass_response g.client ≡ ok (c, str)
      → client_write_event net fd m w
        ≡ ok (
            after_sent net fd
              (length str)
              (handed_out fd g c str m)
              (record w { system = (net.send w.system fd str).1 })
              (net.send w.system fd str).0)
  unfolding client_write_event
  client_write_event-lem fd m w g c str e p = rw (client_write_event, e, ◌>>=◌, p) refl

  after_sent-all :
      (fd size : ℕ) (m : ServerManager) (w : World S) (o : Option ℕ)
      → o ≡ some size
      → after_sent net fd size m w o ≡ (ok_code, m, w)
  unfolding after_sent
  after_sent-all fd size m w none e = cc
  after_sent-all fd size m w (some n) e =
      if_less n size (some_eq n size e) (error_code, write_off fd m, w) (ok_code, m, w)

-- The filter is switched off, or it is not.
off_if-parts :
    (fd : ℕ) (m : ServerManager) (b : Bool)
    → ((if b then write_off fd m else m).clients ≡ m.clients)
      × ((if b then write_off fd m else m).types ≡ m.types)
      × ((if b then write_off fd m else m).event_changes
          ≡ m.event_changes
            ++ (if b
                then record { ident = fd; filter = evfilt_write; flags = ev_disable ∷ [] } ∷ []
                else []))
unfolding write_off set_event
off_if-parts fd m true = (refl, refl, refl)
off_if-parts fd m false = (refl, refl, sym (append-nil m.event_changes))

handed_out-IsSent :
    (fd : ℕ) (g : Guest) (c : Client) (m : ServerManager)
    → get m.clients fd ≡ some (live g)
    → wire c.re3_deque ≡ drop network_buff (wire g.client.re3_deque)
    → IsSent fd g m (handed_out fd g c (portion g) m)
unfolding handed_out with_guest
handed_out-IsSent fd g c m e l =
    let h : Guest = record g { client = c } in
    let parts =
      off_if-parts fd (record m { clients = set_at fd (live h) m.clients })
        (ltb (length (portion g)) network_buff) in
    record {
      after = h;
      in_place =
          ap (λ (cs : List (Slot Guest)). get cs fd) parts.0
          ∙ get-set_at fd (live h) (live g) m.clients e;
      bytes_left = l;
      changes = parts.2;
      same_types = parts.1;
    }

-- For a client whose first transaction has a response, if the socket takes all that it is given: the event gives it the first `NETWORK_BUFF` bytes of the client's ready
-- responses, leaves the others in the same order, keeps the client, and switches the write filter
-- off exactly if the portion does not fill the buffer.
pub write_event-IsSent :
    {S : Type 0} (net : Sockets S) (fd : ℕ) (m : ServerManager) (w : World S) (g : Guest) (t : Re3)
    (r : Response) (rest : List Re3)
    → get m.clients fd ≡ some (live g)
    → g.client.re3_deque ≡ t ∷ rest
    → t.rsp_ptr ≡ some r
    → (net.send w.system fd (portion g)).0 ≡ some (length (portion g))
    → (n : ServerManager) × (write_event net fd m w
        ≡ ok (n, record w { system = (net.send w.system fd (portion g)).1 }))
      × IsSent fd g m n
unfolding write_event by_code
write_event-IsSent net fd m w g t r rest e d p q =
    let (c, sent, stays) = pass_response-wire g.client t r rest d p in
    (
      handed_out fd g c (portion g) m,
      ap (λ o. o >>= λ x. by_code net fd x)
          (client_write_event-lem net fd m w g c (portion g) (guest_of-live m.clients fd g e) sent
            ∙ ap ok (
                after_sent-all net fd (length (portion g)) (handed_out fd g c (portion g) m) _ _
                  q)),
      handed_out-IsSent fd g c m e stays,
    )

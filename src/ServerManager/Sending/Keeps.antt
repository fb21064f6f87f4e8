-- ===== src/ServerManager/Sending/Keeps.antt =====
-- A write to a client in src/ServerManager.cpp keeps the tables fit.
use lazy_team.Base.{
  ℕ, Bool, true, false, List, Option, none, some, ltb, if◌then◌else◌, length, Outcome, ok, fault,
  out_of_range, null_pointer, ◌≡◌, refl,
}
use lazy_team.Text.{Bytes}
use lazy_team.Webserv.{Code, ok_code, error_code, network_buff}
use lazy_team.System.{World}
use lazy_team.Client.{Client}
use lazy_team.Client.Send.{pass_response}
use lazy_team.ServerManager.State.{Slot, null, freed, live, Guest, ServerManager, Sockets}
use lazy_team.ServerManager.Tables.{get, set_event}
use lazy_team.ServerManager.Tables.Fit.{IsFit, again-IsFit}
use lazy_team.ServerManager.Tables.Keeps.{Gives, Gives-any, Gives-bind, client_socket_close-Gives}
use lazy_team.ServerManager.Sending.{
  guest_of, write_off, with_guest, handed_out, after_sent, client_write_event, by_code, write_event,
}

guest_of-Gives :
    (cs : List (Slot Guest)) (fd : ℕ) → Gives (λ g. get cs fd ≡ some (live g)) (guest_of cs fd)
unfolding guest_of
guest_of-Gives cs fd =
    elim (get cs fd)
      as (λ o.
        Gives (λ g. o ≡ some (live g))
          (elim o as (λ o. Outcome Guest) [
            | none ↦ fault out_of_range
            | some null ↦ fault null_pointer
            | some freed ↦ fault null_pointer
            | some (live g) ↦ ok g
          ])) [ none ↦ tt | some null ↦ tt | some freed ↦ tt | some (live g) ↦ refl ]

if-IsFit :
    (gone : List ℕ) (b : Bool) (m n : ServerManager)
    → IsFit gone m
    → IsFit gone n
    → IsFit gone (if b then m else n)
if-IsFit gone true m n h k = h
if-IsFit gone false m n h k = k

handed_out-IsFit :
    (gone : List ℕ) (fd : ℕ) (g : Guest) (c : Client) (str : Bytes) (m : ServerManager)
    → get m.clients fd ≡ some (live g)
    → IsFit gone m
    → IsFit gone (handed_out fd g c str m)
unfolding handed_out with_guest write_off set_event
handed_out-IsFit gone fd g c str m e h =
    if-IsFit gone (ltb (length str) network_buff) _ _ (again-IsFit fd gone m h g _ e)
      (again-IsFit fd gone m h g _ e)

module _ {S : Type 0} (net : Sockets S) (gone : List ℕ) where
  by_code-Gives :
      (fd : ℕ) (c : Code) (m : ServerManager) (w : World S)
      → IsFit gone m
      → Gives (λ r. IsFit gone r.0) (by_code net fd (c, m, w))
  unfolding by_code
  by_code-Gives fd ok_code m w h = h
  by_code-Gives fd error_code m w h = client_socket_close-Gives net gone fd m _ h

  abbrev fitted : Code × ServerManager × World S → ServerManager
  fitted r = r.1

  by_test :
      (b : Bool) (r q : Code × ServerManager × World S)
      → IsFit gone r.1
      → IsFit gone q.1
      → IsFit gone (fitted (if b then r else q))
  by_test true r q h k = h
  by_test false r q h k = k

  after_sent-IsFit :
      (fd size : ℕ) (m : ServerManager) (w : World S) (o : Option ℕ)
      → IsFit gone m
      → IsFit gone (after_sent net fd size m w o).1
  unfolding after_sent write_off set_event
  after_sent-IsFit fd size m w none h = h
  after_sent-IsFit fd size m w (some n) h = by_test (ltb n size) _ _ h h

  pub write_event-Gives :
      (fd : ℕ) (m : ServerManager) (w : World S)
      → IsFit gone m
      → Gives (λ r. IsFit gone r.0) (write_event net fd m w)
  unfolding write_event client_write_event
  write_event-Gives fd m w h =
      Gives-bind (λ (r : Code × ServerManager × World S). IsFit gone r.1) (λ r. IsFit gone r.0)
        (client_write_event net fd m w) _
        (Gives-bind (λ g. get m.clients fd ≡ some (live g))
          (λ (r : Code × ServerManager × World S). IsFit gone r.1) (guest_of m.clients fd) _
          (guest_of-Gives m.clients fd)
          (λ g e.
            Gives-bind (λ x. Unit) (λ (r : Code × ServerManager × World S). IsFit gone r.1)
              (pass_response g.client) _ (Gives-any (pass_response g.client))
              (λ x t.
                after_sent-IsFit fd (length x.1) (handed_out fd g x.0 x.1 m) _ _
                  (handed_out-IsFit gone fd g x.0 x.1 m e h))))
        (λ r k. by_code-Gives fd r.0 r.1 r.2 k)

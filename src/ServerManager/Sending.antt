-- ===== src/ServerManager/Sending.antt =====
-- `clientWriteEvent` of src/ServerManager.cpp, and the branch of `processEvent` that calls it.
pub mod Drained
pub mod Keeps
use lazy_team.Base.{
  ℕ, Bool, true, false, List, [], ◌∷◌, Option, none, some, ltb, if◌then◌else◌, length, Outcome, ok,
  fault, out_of_range, null_pointer, ◌>>=◌,
}
use lazy_team.Text.{Bytes, codes}
use lazy_team.Webserv.{Code, ok_code, error_code, network_buff}
use lazy_team.TermPrinter.{put_err}
use lazy_team.System.{World}
use lazy_team.Client.{Client}
use lazy_team.Client.Send.{pass_response}
use lazy_team.ServerManager.State.{
  Slot, null, freed, live, evfilt_write, ev_disable, Guest, ServerManager, Sockets,
}
use lazy_team.ServerManager.Tables.{get, set_at, set_event, client_socket_close}

-- The client of a descriptor, to be followed.
guest_of : List (Slot Guest) → ℕ → Outcome Guest
unfolding get
guest_of cs fd = elim (get cs fd) [
  | none ↦ fault out_of_range
  | some null ↦ fault null_pointer
  | some freed ↦ fault null_pointer
  | some (live g) ↦ ok g
]

write_off : ℕ → ServerManager → ServerManager
unfolding set_event
write_off fd m = set_event fd evfilt_write (ev_disable ∷ []) m

-- The object of a client is changed in its place.
unfoldable pub with_guest : ℕ → Guest → ServerManager → ServerManager
unfolding set_at
with_guest fd g m = record m { clients = set_at fd (live g) m.clients }

-- The client behind `passResponse`; the filter goes off if the buffer was not filled.
handed_out : ℕ → Guest → Client → Bytes → ServerManager → ServerManager
unfolding with_guest write_off
handed_out fd g c str m =
    let m1 = with_guest fd (record g { client = c }) m in
    if ltb (length str) network_buff then write_off fd m1 else m1

module _ {S : Type 0} (net : Sockets S) where
  -- Behind `send`: what was not taken whole is an error.
  after_sent : ℕ → ℕ → ServerManager → World S → Option ℕ → Code × ServerManager × World S
  unfolding write_off
  after_sent fd size m w none = (error_code, write_off fd m, w)
  after_sent fd size m w (some n) =
      if ltb n size then (error_code, write_off fd m, w) else (ok_code, m, w)

  unfoldable pub client_write_event :
      ℕ → ServerManager → World S → Outcome (Code × ServerManager × World S)
  unfolding guest_of handed_out after_sent
  client_write_event fd m w = do
    g ← guest_of m.clients fd
    (c, str) ← pass_response g.client
    let r = net.send w.system fd str
    ok (after_sent fd (length str) (handed_out fd g c str m) (record w { system = r.1 }) r.0)

  by_code : ℕ → Code × ServerManager × World S → Outcome (ServerManager × World S)
  by_code fd (ok_code, m, w) = ok (m, w)
  by_code fd (error_code, m, w) =
      client_socket_close net fd m
        (record w { terminal = (put_err w.terminal (codes "Client write error\n")).0 })

  -- A client can be written to.
  unfoldable pub write_event : ℕ → ServerManager → World S → Outcome (ServerManager × World S)
  unfolding client_write_event by_code
  write_event fd m w = client_write_event fd m w >>= λ r. by_code fd r

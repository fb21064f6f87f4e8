-- ===== src/ServerManager/State.antt =====
-- The state of the event loop of src/ServerManager.cpp, and the calls of the operating system on sockets.
use lazy_team.Base.{ℕ, Bool, false, List, [], Option}
use lazy_team.Text.{Bytes}
use lazy_team.Webserv.{FdType}
use lazy_team.Client.{Client}
use lazy_team.Server.{Server}

-- A pointer of a table: NULL, to an object that was deleted, or to an object.
pub data Slot {ℓ} (A : Type ℓ) : Type ℓ where
  null freed : Slot A
  live : A → Slot A

pub data Filter : Type 0 where
  evfilt_read evfilt_write : Filter

pub data Flag : Type 0 where
  ev_add ev_enable ev_disable : Flag

-- An entry of `event_changes`.
pub record Change : Type 0 where
  pub ident : ℕ
  pub filter : Filter
  pub flags : List Flag

-- A `PortManager` in the table. Its servers are pointers into `servers`, by their positions.
pub record Port : Type 0 where
  pub port_num : ℕ
  pub port_fd : ℕ
  pub server_ids : List ℕ

-- A `Client` in the table, with the descriptor of its port manager.
pub record Guest : Type 0 where
  pub client : Client
  pub port : ℕ

-- A `Re3`, by the descriptor of the client that owns it and its number there. Its entry in a table is `freed`
-- once its client was deleted; that `passResponse` destroys the transactions it has sent is not kept there.
pub record Re3Ref : Type 0 where
  pub owner : ℕ
  pub number : ℕ

-- `status`: INITIATED, OK, ERROR or INTR.
pub data RunStatus : Type 0 where
  initiated running failed interrupted : RunStatus

pub record ServerManager : Type 0 where
  pub status : RunStatus
  pub servers : List Server
  pub types : List FdType
  pub managers : List (Slot Port)
  pub clients : List (Slot Guest)
  pub re3s : List (Slot Re3Ref)
  pub send_timeout : ℕ
  pub recv_timeout : ℕ
  pub event_changes : List Change
  pub stdout_on : Bool
  pub stderr_on : Bool

-- The calls on sockets: a failed call gives `none` or `false`, and -1 as a descriptor is `none`.
pub record Sockets (S : Type 0) : Type 0 where
  -- `socket`, `accept` on a descriptor, `close`
  pub socket : S → Option ℕ × S
  pub accept : S → ℕ → Option ℕ × S
  pub close : S → ℕ → S
  -- `setsockopt` with SO_RCVTIMEO and with SO_SNDTIMEO, with the seconds
  pub set_recv : S → Option ℕ → ℕ → Bool × S
  pub set_send : S → Option ℕ → ℕ → Bool × S
  -- `bind` to a port of 16 bits, and `listen`
  pub bind : S → Option ℕ → ℕ → Bool × S
  pub listen : S → Option ℕ → Bool × S
  -- `send`: the number of bytes that were taken
  pub send : S → ℕ → Bytes → Option ℕ × S
  -- `fcntl` with O_NONBLOCK
  pub unblock : S → ℕ → S

-- `ServerManager()`
abbrev pub new_server_manager : ServerManager
new_server_manager = record {
  status = initiated;
  servers = [];
  types = [];
  managers = [];
  clients = [];
  re3s = [];
  send_timeout = 0;
  recv_timeout = 0;
  event_changes = [];
  stdout_on = false;
  stderr_on = false;
}

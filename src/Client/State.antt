-- ===== src/Client/State.antt =====
-- The state of a `Client`. The descriptor is fixed and the port manager is a reference, which
-- `recvRequest` takes as a parameter.
use lazy_team.Base.{ℕ, List, []}
use lazy_team.Text.{Bytes}
use lazy_team.Webserv.{Status, nothing}
use lazy_team.Re3.{Re3}

pub record Client : Type 0 where
  pub status : Status
  pub client_fd : ℕ
  pub last_request_time : ℕ
  pub last_response_time : ℕ
  pub read_buff : Bytes
  pub re3_deque : List Re3

abbrev pub new_client : ℕ → Client
new_client fd = record {
  status = nothing;
  client_fd = fd;
  last_request_time = 0;
  last_response_time = 0;
  read_buff = [];
  re3_deque = [];
}

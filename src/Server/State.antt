-- ===== src/Server/State.antt =====
-- The state of a `Server`, which its methods do not change.
use lazy_team.Base.{ℕ, List}
use lazy_team.Text.{Bytes}
use lazy_team.StringMap.{StringMap}
use lazy_team.Location.{Location}

pub record Server : Type 0 where
  pub server_name : Bytes
  pub default_root : Bytes
  pub default_error_pages : StringMap Bytes
  pub client_body_limit : ℕ
  pub locations : List Location
  pub return_to : Bytes × Bytes
  pub port_num : ℕ

-- ===== src/Server/Tests.antt =====
-- Instances of the theorems on src/Server.cpp.
use lazy_team.Base.{false, [], ◌∷◌, some, ◌≡◌}
use lazy_team.Text.{codes}
use lazy_team.Message.{Request, new_request, insert_header}
use lazy_team.Location.{Location}
use lazy_team.Server.State.{Server}
use lazy_team.Server.Route.{curr_location}
use lazy_team.Server.Choice.{Checked, Among, Chosen, curr_location-Best, request_valid_check-answer}

abbrev root_location : Location
root_location = record {
  path = codes "/";
  root = codes "/www";
  indexes = [];
  auto_index = false;
  error_pages = [];
  methods_allowed = 1;
  cgi_infos = [];
  return_to = ([], []);
}

abbrev img_location : Location
img_location = record root_location { path = codes "/img"; methods_allowed = 2 }

abbrev small_server : Server
small_server = record {
  server_name = codes "h";
  default_root = codes "/www";
  default_error_pages = [];
  client_body_limit = 10;
  locations = root_location ∷ img_location ∷ [];
  return_to = ([], []);
  port_num = 80;
}

abbrev long_post : Request
long_post =
    insert_header (record new_request { method = 2; uri = codes "/img/a" }) (codes "content-length")
      (codes "11")

curr_location-Best_example :
    (r : Location) × (curr_location (codes "/img/a") (root_location ∷ img_location ∷ []) ≡ some r)
    × Among r (root_location ∷ img_location ∷ [])
    × Chosen (codes "/img/a") root_location (img_location ∷ []) r
curr_location-Best_example = curr_location-Best (codes "/img/a") root_location (img_location ∷ [])

request_valid_check-answer_example : Checked 0 small_server long_post img_location
request_valid_check-answer_example =
    request_valid_check-answer 0 small_server long_post img_location

-- ===== src/Server/Answer.antt =====
-- `makeResponse` of src/Server.cpp.
use lazy_team.Base.{
  ℕ, not, ◌||◌, Option, none, some, ◌==◌, if◌then◌else◌, ltb, length, Outcome, ok, fault,
  null_pointer, deref, ◌>>=◌,
}
use lazy_team.Text.{Bytes, codes, text_eq}
use lazy_team.Webserv.{
  nothing, reading, writing, read_done, disconnect, read_fail, length_req, cgi_fail, is_status,
  ServerStatus, resource_write_waiting, resource_read_waiting, get_method, post_method,
  delete_method, has_bit,
}
use lazy_team.Message.{Request, Resource, get_header_value}
use lazy_team.Re3.{Re3}
use lazy_team.Location.{Location}
use lazy_team.System.{System}
use lazy_team.CgiConnector.{make_cgi_response}
use lazy_team.Server.State.{Server}
use lazy_team.Server.Route.{
  curr_location, handle_cgi, request_valid_check, resource_path_of, root_of,
}
use lazy_team.Server.Respond.{Answer, check_path, make_error_response, make_redirect_response}
use lazy_team.Server.Methods.{
  is_missing, is_error, with_uri, make_get_response, make_post_response, make_delete_response,
}

-- The method's own response.
unfoldable pub by_method : {S : Type 0} → System S → Re3 → Request → Location → Bytes → S → Answer S
by_method sys t req l path s =
    if has_bit req.method get_method
    then make_get_response sys t l path s
    else if has_bit req.method post_method
    then make_post_response sys t l path s
    else if has_bit req.method delete_method
    then make_delete_response sys t l path s
    else make_error_response sys t l (codes "501 Not Implemented") s

module _ {S : Type 0} (sys : System S) (srv : Server) where
  unfoldable pub cgi_answered : Location → Re3 × ServerStatus × S → Answer S
  unfolding is_error
  cgi_answered l (t, answer, s) =
      if is_error answer
      then make_error_response sys t l (codes "500 Internal Server Error") s
      else ok (t, answer, s)

  unfoldable pub by_cgi : Re3 → Location → Bytes → S → Answer S
  unfolding cgi_answered is_missing
  by_cgi t l path s =
      if is_missing (check_path sys s path)
      then make_error_response sys t l (codes "404 Not Found") s
      else make_cgi_response sys t l srv.port_num (root_of srv l) s >>= cgi_answered l

  -- The path of the resource: it was kept, or it is made of the target.
  unfoldable pub placed : Re3 → Request → Resource → Location → Outcome (Re3 × Bytes)
  unfolding with_uri
  placed t req rsc l =
      if is_status rsc.status read_done
      then ok (t, rsc.uri)
      else (resource_path_of req.uri l.path (root_of srv l) >>= λ path.
          ok (with_uri t rsc path, path))

  unfoldable pub answer_resource : Re3 → Request → Resource → Location → S → Answer S
  unfolding placed by_cgi by_method
  answer_resource t req rsc l s = do
    (t', path) ← placed t req rsc l
    if handle_cgi req.uri l.cgi_infos then by_cgi t' l path s else by_method sys t' req l path s

  -- The resource is on its way, has failed, or is to be answered from.
  unfoldable pub by_status : Re3 → Request → Resource → Location → S → Answer S
  unfolding answer_resource
  by_status t req rsc l s =
      if is_status req.status read_fail
        || is_status rsc.status disconnect
        || is_status rsc.status read_fail
        || is_status rsc.status cgi_fail
      then make_error_response sys t l (codes "500 Internal Server Error") s
      else if is_status rsc.status reading
      then ok (t, resource_read_waiting, s)
      else if is_status rsc.status writing
      then ok (t, resource_write_waiting, s)
      else answer_resource t req rsc l s

  -- The checks of the request.
  unfoldable pub answer_in : ℕ → Re3 → Request → Resource → Location → S → Answer S
  unfolding by_status
  answer_in undef t req rsc l s =
      let stat = request_valid_check undef srv req l in
      if length (get_header_value req (codes "host")) == 0 || is_status req.status nothing
      then make_error_response sys t l (codes "400 Bad Request") s
      else if is_status req.status length_req
      then make_error_response sys t l (codes "411 Length Required") s
      else if not (text_eq stat (codes "200 OK"))
      then make_error_response sys t l stat s
      else by_status t req rsc l s

  unfoldable pub at_location : ℕ → Re3 → Request → Resource → Option Location → S → Answer S
  unfolding answer_in
  at_location undef t req rsc none s = fault null_pointer
  at_location undef t req rsc (some l) s =
      if ltb 0 (length l.return_to.1)
      then make_redirect_response sys t l.return_to s
      else answer_in undef t req rsc l s

  -- `undef` is the value of a variable that `requestValidCheck` may leave unset.
  unfoldable pub make_response : ℕ → Re3 → S → Answer S
  unfolding at_location
  make_response undef t s = do
    req ← deref t.req_ptr
    rsc ← deref t.rsc_ptr
    if ltb 0 (length srv.return_to.1)
        then make_redirect_response sys t srv.return_to s
        else at_location undef t req rsc (curr_location req.uri srv.locations) s

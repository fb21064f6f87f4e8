-- ===== src/PortManager/Service.antt =====
-- `passRequest` and `passResource` of src/PortManager.cpp come to an end, and `recvRequest` with them.
use lazy_team.Base.{ℕ, List, [], ◌∷◌, ok, fault, ◌>>=◌, Ends, ◌∙◌, Bool, false}
use lazy_team.Webserv.{nothing}
use lazy_team.Message.{Request, new_resource}
use lazy_team.Re3.{set_rsc_ptr, Re3, set_rsc_ptr-rsp_ptr}
use lazy_team.System.{System, World}
use lazy_team.Server.{Server}
use lazy_team.Text.{Bytes}
use lazy_team.Client.{Client}
use lazy_team.Client.Receive.{recv_request}
use lazy_team.Client.Receive.Total.{recv_request-Ends}
use lazy_team.Server.Respond.{Answer}
use lazy_team.Server.Replies.{IsNew, Replies-Ends, Replies, bind-Gives, deref-Gives, gives}
use lazy_team.Server.Replies.Complete.{make_response-Reply}
use lazy_team.PortManager.{PortManager, find_server, host_name, pass_resource, pass_request}

find_server-Ends : (host : Bytes) (ss : List Server) → Ends (find_server host ss)
unfolding find_server
find_server-Ends host [] = tt
find_server-Ends host (s ∷ ss) = tt

module _ {S : Type 0} {b : Bool} (sys : System S) (p : PortManager) where
  in_world :
      (m : Answer S) (w : World S)
      → Replies b m
      → Replies b (m >>= λ (t', answer, s). ok (t', answer, record w { system = s }))
  in_world (ok (t, a, s)) w h = gives t a _ h.holds
  in_world (fault e) w h = record { holds = h.holds }

  pass_resource-Reply :
      (undef : ℕ) (t : Re3) (w : World S) → IsNew b t → Replies b (pass_resource sys p undef t w)
  unfolding pass_resource
  pass_resource-Reply undef t w e = deref-Gives t.req_ptr _ (λ (req : Request).
      bind-Gives (find_server (host_name req) p.servers) _ (find_server-Ends _ p.servers)
        (λ (srv : Server). in_world _ w (make_response-Reply sys srv undef t w.system e)))

  pass_request-Reply :
      (undef : ℕ) (t : Re3) (w : World S) → IsNew b t → Replies b (pass_request sys p undef t w)
  unfolding pass_request
  pass_request-Reply undef t w e = deref-Gives t.req_ptr _ (λ (req : Request).
      pass_resource-Reply undef
        (set_rsc_ptr (record t { port_manager_id = p.port_fd }) (new_resource nothing)).0 _
        (λ x.
          set_rsc_ptr-rsp_ptr (record t { port_manager_id = p.port_fd }) (new_resource nothing)
          ∙ e x))

module _ {S : Type 0} (sys : System S) (p : PortManager) where
  pass_request-Ends : (undef : ℕ) (t : Re3) (w : World S) → Ends (pass_request sys p undef t w)
  pass_request-Ends undef t w =
      Replies-Ends {b = false} _ (pass_request-Reply sys p undef t w (λ x. cc))

  -- Whatever a client receives, whatever its state is, and whatever the system's calls give: `recvRequest`
  -- with its port manager and the servers behind it comes to an end.
  pub recv_request-pass_request-Ends :
      (undef : ℕ) (c : Client) (raw : Bytes) (w : World S)
      → Ends (recv_request (pass_request sys p undef) undef c raw w)
  recv_request-pass_request-Ends undef c raw w =
      recv_request-Ends (pass_request sys p undef) (pass_request-Ends undef) undef c raw w

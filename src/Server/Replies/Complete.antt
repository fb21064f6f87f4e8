-- ===== src/Server/Replies/Complete.antt =====
-- What `makeResponse` of src/Server.cpp, with src/CgiConnector.cpp, leaves behind.
use lazy_team.Base.{
  Bool, refl, if-Ensures, Bool-cases, Option-cases, ℕ, ◌+◌, not, ◌||◌, Option, none, some, ◌≡◌,
  refl, ◌⊎◌, inl, inr, ◌==◌, if◌then◌else◌, ltb, length, ok, fault, ◌>>=◌, Ensures,
}
use lazy_team.Text.{find, Bytes, codes, text_eq}
use lazy_team.Webserv.{
  nothing, reading, writing, is_status, ServerStatus, resource_read_init, resource_write_init,
  response_making_done, response_error, process_waiting, has_bit, get_method, post_method,
  delete_method, resource_read_waiting, resource_write_waiting, read_done, write_done, read_fail,
  disconnect, cgi_fail, length_req,
}
use lazy_team.Message.{Request, Resource, get_header_value}
use lazy_team.Re3.{Re3}
use lazy_team.Location.{Location}
use lazy_team.System.{System}
use lazy_team.CgiConnector.{
  Pipes, parent, forked, piped, prepare_resource, prepare_response, make_cgi_response, field_stage,
  strip_lines,
}
use lazy_team.CgiConnector.Strip.{strip_lines-Ends}
use lazy_team.Server.State.{Server}
use lazy_team.Server.Route.{
  resource_path_of, handle_cgi, root_of, curr_location, request_valid_check,
}
use lazy_team.Server.Respond.{Answer, check_path}
use lazy_team.Server.Methods.{is_missing, is_error, with_uri}
use lazy_team.Server.Answer.{
  by_method, cgi_answered, by_cgi, placed, answer_resource, by_status, answer_in, at_location,
  make_response,
}
use lazy_team.Server.Replies.{
  IsNew, Reply, Replied, Replied-Gives, Replied, Replies, Gives, gives, Ensures-Gives, if-Gives,
  bind-Gives, deref-Gives, set_rsp-Reply, make_error_response-Replies,
  make_redirect_response-Replies,
}
use lazy_team.Server.Replies.Methods.{
  make_get_response-Replies, make_post_response-Replies, make_delete_response-Replies,
}

-- The connector may also report that it failed, with no response.
CgiReplied : Bool → Re3 → ServerStatus → Type 0
CgiReplied b t a = Reply b t a ⊎ ((a ≡ response_error) × IsNew b t)

abbrev CgiReplies : {S : Type 0} → Bool → Answer S → Type 0
CgiReplies b = Gives (CgiReplied b)

module _ {S : Type 0} {b : Bool} (sys : System S) where
  parent-CgiReplied :
      (t : Re3) (req : Request) (rsc : Resource) (p : Pipes) (pid : ℕ) (s : S)
      → IsNew b t
      → CgiReplies b (ok (parent sys t req rsc p pid s))
  unfolding parent CgiReplied
  parent-CgiReplied t req rsc p pid s e = elim (Bool-cases (req.method == post_method)) [
    | inl h ↦ rw (h, parent) (record { holds = inl e })
    | inr h ↦ rw (h, parent) (record { holds = inl e })
  ]

  forked-CgiReplied :
      (t : Re3) (req : Request) (rsc : Resource) (p : Pipes) (o : Option ℕ) (s : S)
      → IsNew b t
      → CgiReplies b (ok (forked sys t req rsc p o s))
  unfolding forked CgiReplied
  forked-CgiReplied t req rsc p none s e = gives t response_error s (inr (refl, e))
  forked-CgiReplied t req rsc p (some pid) s e = parent-CgiReplied t req rsc p pid s e

  piped-CgiReplied :
      (t : Re3) (req : Request) (rsc : Resource) (l : Location) (port : ℕ) (root : Bytes)
      (o : Option Pipes) (s : S)
      → IsNew b t
      → CgiReplies b (ok (piped sys t req rsc l port root o s))
  unfolding piped CgiReplied
  piped-CgiReplied t req rsc l port root none s e = gives t response_error s (inr (refl, e))
  piped-CgiReplied t req rsc l port root (some p) s e = forked-CgiReplied t req rsc p _ _ e

  prepare_resource-CgiReplies :
      (t : Re3) (l : Location) (port : ℕ) (root : Bytes) (s : S)
      → IsNew b t
      → CgiReplies b (prepare_resource sys t l port root s)
  unfolding prepare_resource
  prepare_resource-CgiReplies t l port root s e = deref-Gives t.req_ptr _ (λ (req : Request).
      deref-Gives t.rsc_ptr _ (λ (rsc : Resource). piped-CgiReplied t req rsc l port root _ _ e))

  prepare_response-CgiReplies :
      (t : Re3) (s : S) → IsNew b t → CgiReplies b (prepare_response sys t s)
  unfolding prepare_response CgiReplied
  prepare_response-CgiReplies t s e = deref-Gives t.req_ptr _ (λ (req : Request).
      deref-Gives t.rsc_ptr _ (λ (rsc : Resource).
        let rest =
          (field_stage (codes "Location: ")
            (field_stage (codes "Content-Type: ")
              (field_stage (codes "Status: ") rsc.content).1).1).1 in
        bind-Gives (strip_lines (length rest + 1) rest) _ (strip_lines-Ends rest) (λ (buff : Bytes).
          record {
            holds = inl (
                set_rsp-Reply (record t { rsc_ptr = some (record rsc { content = buff }) }) _ _ buff
                  req.version e);
          })))

  make_cgi_response-CgiReplies :
      (t : Re3) (l : Location) (port : ℕ) (root : Bytes) (s : S)
      → IsNew b t
      → CgiReplies b (make_cgi_response sys t l port root s)
  unfolding make_cgi_response CgiReplied
  make_cgi_response-CgiReplies t l port root s e = deref-Gives t.rsc_ptr _ (λ (rsc : Resource).
      if-Gives (is_status rsc.status nothing) _ _ (prepare_resource-CgiReplies t l port root s e) (
        if-Gives (is_status rsc.status write_done) _ _ (gives t process_waiting s (inl e)) (
          if-Gives (is_status rsc.status read_done) _ _ (prepare_response-CgiReplies t s e)
            (gives t process_waiting s (inl e)))))

module _ {S : Type 0} {b : Bool} (sys : System S) (srv : Server) where
  cgi_answered-Replies :
      (l : Location) (t : Re3) (a : ServerStatus) (s : S)
      → CgiReplied b t a
      → Replies b (cgi_answered sys srv l (t, a, s))
  unfolding cgi_answered CgiReplied is_error
  cgi_answered-Replies l t a s (inr (failed, e)) =
      rw failed (make_error_response-Replies sys t l _ s e)
  cgi_answered-Replies l t response_making_done s (inl h) = gives t response_making_done s h
  cgi_answered-Replies l t response_error s (inl h) =
      make_error_response-Replies sys t l _ s (λ x. absurd (h x))
  cgi_answered-Replies l t resource_write_init s (inl h) = gives t resource_write_init s h
  cgi_answered-Replies l t resource_read_init s (inl h) = gives t resource_read_init s h
  cgi_answered-Replies l t resource_write_waiting s (inl h) = gives t resource_write_waiting s h
  cgi_answered-Replies l t resource_read_waiting s (inl h) = gives t resource_read_waiting s h
  cgi_answered-Replies l t process_waiting s (inl h) = gives t process_waiting s h

  then_answered :
      (l : Location) (m : Answer S) → CgiReplies b m → Replies b (m >>= cgi_answered sys srv l)
  then_answered l (ok (t, a, s)) h = cgi_answered-Replies l t a s h.holds
  then_answered l (fault e) h = record { holds = h.holds }

  by_method-Replies :
      (t : Re3) (req : Request) (l : Location) (path : Bytes) (s : S)
      → IsNew b t
      → Replies b (by_method sys t req l path s)
  unfolding by_method
  by_method-Replies t req l path s e =
      if-Gives (has_bit req.method get_method) _ _ (make_get_response-Replies sys t l path s e) (
        if-Gives (has_bit req.method post_method) _ _ (make_post_response-Replies sys t l path s e)
          (if-Gives (has_bit req.method delete_method) _ _
            (make_delete_response-Replies sys t l path s e)
            (make_error_response-Replies sys t l _ s e)))

  by_cgi-Replies :
      (t : Re3) (l : Location) (path : Bytes) (s : S)
      → IsNew b t
      → Replies b (by_cgi sys srv t l path s)
  unfolding by_cgi
  by_cgi-Replies t l path s e =
      if-Gives (is_missing (check_path sys s path)) _ _ (make_error_response-Replies sys t l _ s e)
        (then_answered l _ (make_cgi_response-CgiReplies sys t l srv.port_num (root_of srv l) s e))

  located-Replies :
      (t : Re3) (req : Request) (l : Location) (path : Bytes) (s : S)
      → IsNew b t
      → Replies b (
          if handle_cgi req.uri l.cgi_infos
          then by_cgi sys srv t l path s
          else by_method sys t req l path s)
  located-Replies t req l path s e =
      if-Gives (handle_cgi req.uri l.cgi_infos) _ _ (by_cgi-Replies t l path s e)
        (by_method-Replies t req l path s e)

  -- The path is found, or `replace` throws; no response is there yet.
  placed-none :
      (t : Re3) (req : Request) (rsc : Resource) (l : Location)
      → IsNew b t
      → Ensures (λ (u, path). IsNew b u) (placed sys srv t req rsc l)
  unfolding placed resource_path_of with_uri
  placed-none t req rsc l e =
      if-Ensures _ (is_status rsc.status read_done) _ _ e
        (elim (Option-cases (find l.path req.uri)) [
          | inl h ↦ rw (h, resource_path_of) tt
          | inr (p, h) ↦ rw (h, resource_path_of) e
        ])

  answer_resource-Replies :
      (t : Re3) (req : Request) (rsc : Resource) (l : Location) (s : S)
      → IsNew b t
      → Replies b (answer_resource sys srv t req rsc l s)
  unfolding answer_resource
  answer_resource-Replies t req rsc l s e =
      Ensures-Gives (λ (u, path). IsNew b u) (placed sys srv t req rsc l) _
        (placed-none t req rsc l e) (λ (u, path) h. located-Replies u req l path s h)

  by_status-Replies :
      (t : Re3) (req : Request) (rsc : Resource) (l : Location) (s : S)
      → IsNew b t
      → Replies b (by_status sys srv t req rsc l s)
  unfolding by_status
  by_status-Replies t req rsc l s e =
      if-Gives
        (is_status req.status read_fail
          || is_status rsc.status disconnect
          || is_status rsc.status read_fail
          || is_status rsc.status cgi_fail)
        _ _ (make_error_response-Replies sys t l _ s e)
        (if-Gives (is_status rsc.status reading) _ _ (gives t resource_read_waiting s e) (
          if-Gives (is_status rsc.status writing) _ _ (gives t resource_write_waiting s e)
            (answer_resource-Replies t req rsc l s e)))

  answer_in-Replies :
      (undef : ℕ) (t : Re3) (req : Request) (rsc : Resource) (l : Location) (s : S)
      → IsNew b t
      → Replies b (answer_in sys srv undef t req rsc l s)
  unfolding answer_in
  answer_in-Replies undef t req rsc l s e =
      let stat = request_valid_check undef srv req l in
      if-Gives (length (get_header_value req (codes "host")) == 0 || is_status req.status nothing) _
        _ (make_error_response-Replies sys t l _ s e)
        (if-Gives (is_status req.status length_req) _ _ (make_error_response-Replies sys t l _ s e)
          (if-Gives (not (text_eq stat (codes "200 OK"))) _ _
            (make_error_response-Replies sys t l _ s e) (by_status-Replies t req rsc l s e)))

  at_location-Replies :
      (undef : ℕ) (t : Re3) (req : Request) (rsc : Resource) (o : Option Location) (s : S)
      → IsNew b t
      → Replies b (at_location sys srv undef t req rsc o s)
  unfolding at_location
  at_location-Replies undef t req rsc none s e = record { holds = tt }
  at_location-Replies undef t req rsc (some l) s e =
      if-Gives (ltb 0 (length l.return_to.1)) _ _
        (make_redirect_response-Replies sys t l.return_to s e)
        (answer_in-Replies undef t req rsc l s e)

  pub make_response-Reply :
      (undef : ℕ) (t : Re3) (s : S) → IsNew b t → Replies b (make_response sys srv undef t s)
  unfolding make_response
  make_response-Reply undef t s e = deref-Gives t.req_ptr _ (λ (req : Request).
      deref-Gives t.rsc_ptr _ (λ (rsc : Resource).
        if-Gives (ltb 0 (length srv.return_to.1)) _ _
          (make_redirect_response-Replies sys t srv.return_to s e)
          (at_location-Replies undef t req rsc (curr_location req.uri srv.locations) s e)))

module _ {S : Type 0} (sys : System S) (srv : Server) where
  -- For a transaction with no response: `makeResponse` comes to an end, and if it does not end the process by a fault, a finished
  -- response is there exactly when it returns `kResponseMakingDone`, none is there when it returns one of the answers that
  -- wait for a resource or a process, and it never returns `kResponseError`.
  pub make_response-Replied :
      (undef : ℕ) (t : Re3) (s : S)
      → t.rsp_ptr ≡ none
      → Gives Replied (make_response sys srv undef t s)
  make_response-Replied undef t s e =
      Replied-Gives _ (make_response-Reply sys srv undef t s (λ x. e))

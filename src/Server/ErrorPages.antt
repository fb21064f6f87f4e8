-- ===== src/Server/ErrorPages.antt =====
-- A configured error page of src/Server.cpp: the answer that asks for it, and the one behind it.
use Prim.Native.Nat.{bit_and}
use lazy_team.Base.{
  ℕ, true, false, some, ◌≡◌, refl, ◌==◌, ltb, length, ok, fault, failed_assert, ◌∙◌,
}
use lazy_team.Text.{Bytes, codes, text_eq}
use lazy_team.Webserv.{nothing, reading, length_req, is_status, resource_read_init}
use lazy_team.Message.{Request, Resource, get_header_value}
use lazy_team.Re3.{Re3}
use lazy_team.Location.{Location, get_default_error_page}
use lazy_team.System.{System}
use lazy_team.Server.State.{Server}
use lazy_team.Server.Route.{curr_location, request_valid_check}
use lazy_team.Server.Respond.{error_page, make_error_response, opened}
use lazy_team.Server.Answer.{answer_in, at_location, make_response}

-- A request that its location refuses with 405, and that reaches the check of its method.
pub record IsRefused (srv : Server) (req : Request) (l : Location) : Type 0 where
  pub here : ltb 0 (length srv.return_to.1) ≡ false
  pub found : curr_location req.uri srv.locations ≡ some l
  pub stays : ltb 0 (length l.return_to.1) ≡ false
  pub host : (length (get_header_value req (codes "host")) == 0) ≡ false
  pub begun : is_status req.status nothing ≡ false
  pub measured : is_status req.status length_req ≡ false
  pub refused : (bit_and req.method l.methods_allowed == 0) ≡ true

module _ {S : Type 0} (sys : System S) (srv : Server) where
  check_405 :
      (undef : ℕ) (req : Request) (l : Location)
      → (bit_and req.method l.methods_allowed == 0) ≡ true
      → request_valid_check undef srv req l ≡ codes "405 Method Not Allowed"
  unfolding request_valid_check
  check_405 undef req l e = rw e refl

  refused_answer :
      (undef : ℕ) (t : Re3) (req : Request) (rsc : Resource) (l : Location) (s : S)
      → IsRefused srv req l
      → answer_in sys srv undef t req rsc l s
        ≡ make_error_response sys t l (codes "405 Method Not Allowed") s
  unfolding answer_in text_eq
  refused_answer undef t req rsc l s h =
      rw (h.host, answer_in)
        (rw h.begun (rw h.measured (rw (check_405 undef req l h.refused) refl)))

  refused_at :
      (undef : ℕ) (t : Re3) (req : Request) (rsc : Resource) (l : Location) (s : S)
      → IsRefused srv req l
      → at_location sys srv undef t req rsc (some l) s
        ≡ make_error_response sys t l (codes "405 Method Not Allowed") s
  unfolding at_location
  refused_at undef t req rsc l s h =
      rw (h.stays, at_location) (refused_answer undef t req rsc l s h)

  refused_response :
      (undef : ℕ) (t : Re3) (req : Request) (rsc : Resource) (l : Location) (s : S)
      → IsRefused srv req l
      → make_response sys srv undef (record t { req_ptr = some req; rsc_ptr = some rsc }) s
        ≡ make_error_response sys
            (record t { req_ptr = some req; rsc_ptr = some rsc })
            l
            (codes "405 Method Not Allowed")
            s
  unfolding make_response
  refused_response undef t req rsc l s h =
      rw (h.here, make_response)
        (rw h.found
          (refused_at undef (record t { req_ptr = some req; rsc_ptr = some rsc }) req rsc l s h))

  page_opened :
      (t : Re3) (l : Location) (code : Bytes) (s : S) (fd : ℕ)
      → (length (get_default_error_page l code) == 0) ≡ false
      → (sys.open_read s (get_default_error_page l code)).0 ≡ some fd
      → make_error_response sys t l code s
        ≡ error_page sys t code (some fd) (sys.open_read s (get_default_error_page l code)).1
  unfolding make_error_response
  page_opened t l code s fd c o = rw (c, make_error_response) (rw o refl)

  first_pass :
      (t : Re3) (rsc : Resource) (code : Bytes) (fd : ℕ) (s : S)
      → is_status rsc.status nothing ≡ true
      → error_page sys (record t { rsc_ptr = some rsc }) code (some fd) s
        ≡ ok (opened t rsc reading fd, resource_read_init, s)
  unfolding error_page
  first_pass t rsc code fd s n = rw (n, error_page)

  second_pass :
      (t : Re3) (rsc : Resource) (code : Bytes) (fd : ℕ) (s : S)
      → is_status rsc.status nothing ≡ false
      → error_page sys (record t { rsc_ptr = some rsc }) code (some fd) s ≡ fault failed_assert
  unfolding error_page
  second_pass t rsc code fd s n = rw (n, error_page)

  -- For a request that its location refuses with 405, where a page is configured for that and can be opened: with a new resource, `makeResponse` asks to
  -- have the page read; with a resource that was begun, as it is when the page was read, an assert fails.
  pub make_response-IsRefused :
      (undef : ℕ) (t : Re3) (req : Request) (new begun : Resource) (l : Location) (s : S) (fd : ℕ)
      → IsRefused srv req l
      → is_status new.status nothing ≡ true
      → is_status begun.status nothing ≡ false
      → (length (get_default_error_page l (codes "405 Method Not Allowed")) == 0) ≡ false
      → (sys.open_read s (get_default_error_page l (codes "405 Method Not Allowed"))).0 ≡ some fd
      → (make_response sys srv undef (record t { req_ptr = some req; rsc_ptr = some new }) s
          ≡ ok (
            opened (record t { req_ptr = some req }) new reading fd,
            resource_read_init,
            (sys.open_read s (get_default_error_page l (codes "405 Method Not Allowed"))).1,
          ))
        × (make_response sys srv undef (record t { req_ptr = some req; rsc_ptr = some begun }) s
            ≡ fault failed_assert)
  unfolding opened
  make_response-IsRefused undef t req new begun l s fd h n b c o =
      let u = record t { req_ptr = some req } in
      (
        refused_response undef t req new l s h
            ∙ page_opened (record u { rsc_ptr = some new }) l _ s fd c o
            ∙ first_pass u new _ fd _ n,
        refused_response undef t req begun l s h
            ∙ page_opened (record u { rsc_ptr = some begun }) l _ s fd c o
            ∙ second_pass u begun _ fd _ b,
      )

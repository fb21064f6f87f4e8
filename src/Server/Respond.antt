-- ===== src/Server/Respond.antt =====
-- The responses of src/Server.cpp: `makeResponse` and the methods that it calls. Messages for debugging
-- on `std::cout` are left out.
use lazy_team.Base.{
  ℕ, Bool, true, false, [], Option, none, some, ◌==◌, if◌then◌else◌, length, Outcome, ok, deref,
  assert, ◌>>=◌, ◌>>◌,
}
use lazy_team.Text.{Bytes, codes, decimal}
use lazy_team.StringMap.{StringMap, assign}
use lazy_team.Webserv.{
  Status, nothing, reading, finished, is_status, ServerStatus, resource_read_init,
  response_making_done, FileType, file, directory, not_found,
}
use lazy_team.Message.{Resource, new_response}
use lazy_team.Re3.{Re3, set_rsp_ptr}
use lazy_team.Location.{Location, get_default_error_page}
use lazy_team.System.{System, FileKind, absent, regular, folder, other}
use lazy_team.Server.Pages.{make_html_page, content_type_header_info}

-- The transaction, what the event loop is told of it, and the system.
abbrev pub Answer : Type 0 → Type 0
Answer S = Outcome (Re3 × ServerStatus × S)

file_type : FileKind → FileType
file_type regular = file
file_type folder = directory
file_type absent = not_found
file_type other = not_found

unfoldable pub is_none {ℓ} : {A : Type ℓ} → Option A → Bool
is_none none = true
is_none (some a) = false

-- `assert(re3->getRspPtr() == NULL); re3->setRspPtr(new Response(kFinished, …));`
unfoldable pub respond : {S : Type 0} → Re3 → Bytes → StringMap Bytes → Bytes → S → Answer S
unfolding is_none
respond t code headers body s = do
  assert (is_none t.rsp_ptr)
  req ← deref t.req_ptr
  ok (
    (set_rsp_ptr t (new_response finished code headers body req.version)).0,
    response_making_done,
    s,
  )

-- The resource with a descriptor that is being read or written.
unfoldable pub opened : Re3 → Resource → Status → ℕ → Re3
opened t rsc status fd = record t {
  rsc_ptr = some (record rsc { status = status; resource_fd = fd });
}

module _ {S : Type 0} (sys : System S) where
  unfoldable pub check_path : S → Bytes → FileType
  unfolding file_type
  check_path s path = file_type (sys.stat s path)

  abbrev pub dated : S → StringMap Bytes
  dated s = assign (codes "Server") (codes "Passive Server") (assign (codes "Date") (sys.date s) [])

  -- A page with its length.
  unfoldable pub html_response : Re3 → Bytes → StringMap Bytes → Bytes → S → Answer S
  unfolding respond
  html_response t code headers body s =
      respond t code
        (assign (codes "Content-Length") (decimal (length body))
          (assign (codes "Content-Type") (content_type_header_info (codes ".html")) headers))
        body s

  unfoldable pub make_redirect_response : Re3 → Bytes × Bytes → S → Answer S
  unfolding html_response
  make_redirect_response t (code, to) s =
      html_response t code (assign (codes "Location") to (dated s)) (make_html_page code) s

  -- The file of an error page was opened, or there is none and a page is written.
  unfoldable pub error_page : Re3 → Bytes → Option ℕ → S → Answer S
  unfolding html_response opened
  error_page t code none s = html_response t code (dated s) (make_html_page code) s
  error_page t code (some fd) s = do
    rsc ← deref t.rsc_ptr
    assert (is_status rsc.status nothing)
    ok (opened t rsc reading fd, resource_read_init, s)

  unfoldable pub make_error_response : Re3 → Location → Bytes → S → Answer S
  unfolding error_page
  make_error_response t l code s =
      let page = get_default_error_page l code in
      let f = sys.open_read s page in
      if length page == 0 then error_page t code none s else error_page t code f.0 f.1

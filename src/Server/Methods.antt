-- ===== src/Server/Methods.antt =====
-- `makeGETResponse`, `makePOSTResponse` and `makeDELETEResponse` of src/Server.cpp.
use lazy_team.Base.{
  ℕ, Bool, true, false, ◌||◌, List, [], ◌∷◌, ◌++◌, Option, none, some, ◌==◌, if◌then◌else◌, length,
  ok, deref, ◌>>=◌,
}
use lazy_team.Text.{Bytes, codes, substr, decimal}
use lazy_team.StringMap.{assign}
use lazy_team.Webserv.{
  nothing, reading, writing, read_done, write_done, is_status, ServerStatus, resource_write_init,
  resource_read_init, resource_read_waiting, response_error, FileType, file, directory, not_found,
}
use lazy_team.Message.{Request, Resource, get_header_value}
use lazy_team.Re3.{Re3}
use lazy_team.Location.{Location}
use lazy_team.System.{System, FileKind, absent}
use lazy_team.Server.Pages.{
  make_html_page, make_auto_index_page, file_extension, content_type_header_info,
}
use lazy_team.Server.Respond.{Answer, respond, opened, check_path, dated, make_error_response}

unfoldable pub is_file : FileType → Bool
is_file file = true
is_file _ = false

unfoldable pub is_directory : FileType → Bool
is_directory directory = true
is_directory _ = false

unfoldable pub is_missing : FileType → Bool
is_missing not_found = true
is_missing _ = false

is_absent : FileKind → Bool
is_absent absent = true
is_absent _ = false

unfoldable pub is_error : ServerStatus → Bool
is_error response_error = true
is_error _ = false

-- The path with a slash at its end.
unfoldable pub with_slash : Bytes → Bytes
with_slash [] = b'/' ∷ []
with_slash (c ∷ []) = if c == b'/' then c ∷ [] else c ∷ b'/' ∷ []
with_slash (c ∷ d ∷ s) = c ∷ with_slash (d ∷ s)

-- The transaction with another path of its resource.
unfoldable pub with_uri : Re3 → Resource → Bytes → Re3
with_uri t rsc path = record t { rsc_ptr = some (record rsc { uri = path }) }

module _ {S : Type 0} (sys : System S) where
  -- The first index page that is there.
  unfoldable pub index_file : S → Bytes → List Bytes → Option Bytes
  unfolding is_absent
  index_file s path [] = none
  index_file s path (i ∷ is) =
      if is_absent (sys.stat s (path ++ i)) then index_file s path is else some (path ++ i)

  unfoldable pub opened_file : Re3 → Resource → Location → Option ℕ → S → Answer S
  unfolding opened
  opened_file t rsc l none s = make_error_response sys t l (codes "404 Not Found") s
  opened_file t rsc l (some fd) s =
      if sys.fstat s fd
      then ok (opened t rsc reading fd, resource_read_init, s)
      else make_error_response sys t l (codes "500 Internal Server Error") (sys.close s fd)

  unfoldable pub open_file : Re3 → Resource → Location → Bytes → S → Answer S
  unfolding opened_file
  open_file t rsc l path s = let f = sys.open_read s path in opened_file t rsc l f.0 f.1

  -- What was found may be missing by now, or be a directory itself.
  unfoldable pub open_found : Re3 → Resource → Location → Bytes → S → Answer S
  unfolding open_file is_missing is_directory
  open_found t rsc l path s =
      if is_missing (check_path sys s path) || is_directory (check_path sys s path)
      then make_error_response sys t l (codes "404 Not Found") s
      else open_file t rsc l path s

  unfoldable pub auto_index_page : Re3 → Request → Location → Bytes → S → Answer S
  auto_index_page t req l path s = do
    body ← make_auto_index_page (get_header_value req (codes "host")) req.uri (sys.read_dir s path)
    if length body == 0
        then make_error_response sys t l (codes "500 Internal Server Error") s
        else respond t (codes "200 OK")
            (assign (codes "Content-Length") (decimal (length body)) (
              assign (codes "Content-Type") (content_type_header_info (codes ".html"))
                (dated sys s)))
            body s

  unfoldable pub get_directory :
      Re3 → Request → Resource → Location → Bytes → Option Bytes → S → Answer S
  unfolding open_found auto_index_page with_uri
  get_directory t req rsc l path (some page) s =
      open_found (with_uri t rsc page) (record rsc { uri = page }) l page s
  get_directory t req rsc l path none s =
      if l.auto_index then auto_index_page t req l path s else open_found t rsc l path s

  unfoldable pub get_first : Re3 → Request → Resource → Location → Bytes → S → Answer S
  unfolding get_directory open_file is_directory with_slash
  get_first t req rsc l path s =
      if is_directory (check_path sys s path)
      then get_directory t req rsc l (with_slash path) (index_file s (with_slash path) l.indexes) s
      else open_file t rsc l path s

  -- The file was read.
  unfoldable pub get_read : Re3 → Request → Resource → Bytes → S → Answer S
  get_read t req rsc path s = do
    behind ← substr path 1 none
    respond t (codes "200 OK")
        (assign (codes "Last-Modified") (sys.last_modified s path) (
          assign (codes "Content-Length") (decimal (length rsc.content)) (
            assign (codes "Content-Location") behind (
              assign (codes "Content-Language") (codes "ko-KR") (
                assign (codes "Content-Type") (content_type_header_info (file_extension path))
                  (dated sys s))))))
        rsc.content s

  unfoldable pub make_get_response : Re3 → Location → Bytes → S → Answer S
  unfolding get_first get_read
  make_get_response t l path s = do
    req ← deref t.req_ptr
    rsc ← deref t.rsc_ptr
    if is_status rsc.status nothing
        then get_first t req rsc l path s
        else if is_status rsc.status read_done
        then get_read t req rsc path s
        else ok (t, resource_read_waiting, s)

  -- A file was opened to write the body to it.
  unfoldable pub post_opened : Re3 → Resource → Location → Bytes → Option ℕ → S → Answer S
  unfolding opened
  post_opened t rsc l created none s =
      make_error_response sys t l (codes "500 Internal Server Error") s
  post_opened t rsc l created (some fd) s =
      ok (opened t (record rsc { is_created = created }) writing fd, resource_write_init, s)

  unfoldable pub post_first : Re3 → Resource → Location → Bytes → FileType → S → Answer S
  unfolding post_opened
  post_first t rsc l path not_found s =
      let f = sys.open_create s path in post_opened t rsc l (codes "201 Created") f.0 f.1
  post_first t rsc l path file s =
      let f = sys.open_append s path in post_opened t rsc l (codes "200 OK") f.0 f.1
  post_first t rsc l path directory s = make_error_response sys t l (codes "403 Forbidden") s

  unfoldable pub post_written : Re3 → Resource → Bytes → S → Answer S
  post_written t rsc path s = do
    behind ← substr path 1 none
    respond t rsc.is_created
        (assign (codes "Content-Length") (codes "0")
          (assign (codes "Content-Location") behind (dated sys s)))
        [] s

  unfoldable pub make_post_response : Re3 → Location → Bytes → S → Answer S
  unfolding post_first post_written
  make_post_response t l path s = do
    rsc ← deref t.rsc_ptr
    if is_status rsc.status write_done
        then post_written t rsc path s
        else post_first t rsc l path (check_path sys s path) s

  unfoldable pub make_delete_response : Re3 → Location → Bytes → S → Answer S
  unfolding is_file
  make_delete_response t l path s =
      if is_file (check_path sys s path)
      then respond t (codes "200 OK") (assign (codes "Content-Length") (codes "0") (dated sys s))
          (make_html_page (codes "File deleted")) (sys.unlink s path)
      else make_error_response sys t l (codes "404 Not Found") s

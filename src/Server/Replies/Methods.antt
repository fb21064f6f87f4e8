-- ===== src/Server/Replies/Methods.antt =====
-- What GET, POST and DELETE of src/Server.cpp leave behind.
use lazy_team.Base.{Bool, ℕ, ◌||◌, List, [], Option, none, some, ◌==◌, length, Ends}
use lazy_team.Text.{Bytes, codes, substr, substr-Ends}
use lazy_team.Webserv.{
  nothing, reading, writing, is_status, resource_write_init, resource_read_init,
  resource_read_waiting, FileType, file, directory, not_found, read_done, write_done,
}
use lazy_team.Message.{Request, Resource, get_header_value}
use lazy_team.Re3.{Re3}
use lazy_team.Location.{Location}
use lazy_team.System.{System}
use lazy_team.Server.Pages.{make_auto_index_page}
use lazy_team.Server.Respond.{opened, check_path}
use lazy_team.Server.Methods.{
  opened_file, open_file, open_found, auto_index_page, get_directory, get_first, get_read,
  make_get_response, with_slash, with_uri, is_missing, is_directory, is_file, post_opened,
  post_first, post_written, make_post_response, make_delete_response,
}
use lazy_team.Server.Replies.{
  IsNew, Replies, gives, if-Gives, bind-Gives, deref-Gives, respond-Replies,
  make_error_response-Replies,
}

auto_index-Ends :
    (host uri : Bytes) (o : Option (List Bytes)) → Ends (make_auto_index_page host uri o)
unfolding make_auto_index_page
auto_index-Ends host uri none = tt
auto_index-Ends host uri (some names) = tt

module _ {S : Type 0} {b : Bool} (sys : System S) where
  opened_file-Replies :
      (t : Re3) (rsc : Resource) (l : Location) (o : Option ℕ) (s : S)
      → IsNew b t
      → Replies b (opened_file sys t rsc l o s)
  unfolding opened_file opened
  opened_file-Replies t rsc l none s e = make_error_response-Replies sys t l _ s e
  opened_file-Replies t rsc l (some fd) s e =
      if-Gives (sys.fstat s fd) _ _ (gives (opened t rsc reading fd) resource_read_init s e)
        (make_error_response-Replies sys t l _ _ e)

  open_file-Replies :
      (t : Re3) (rsc : Resource) (l : Location) (path : Bytes) (s : S)
      → IsNew b t
      → Replies b (open_file sys t rsc l path s)
  unfolding open_file
  open_file-Replies t rsc l path s e = opened_file-Replies t rsc l _ _ e

  open_found-Replies :
      (t : Re3) (rsc : Resource) (l : Location) (path : Bytes) (s : S)
      → IsNew b t
      → Replies b (open_found sys t rsc l path s)
  unfolding open_found
  open_found-Replies t rsc l path s e =
      if-Gives (is_missing (check_path sys s path) || is_directory (check_path sys s path)) _ _
        (make_error_response-Replies sys t l _ s e) (open_file-Replies t rsc l path s e)

  auto_index_page-Replies :
      (t : Re3) (req : Request) (l : Location) (path : Bytes) (s : S)
      → IsNew b t
      → Replies b (auto_index_page sys t req l path s)
  unfolding auto_index_page
  auto_index_page-Replies t req l path s e =
      bind-Gives
        (make_auto_index_page (get_header_value req (codes "host")) req.uri (sys.read_dir s path)) _
        (auto_index-Ends _ req.uri (sys.read_dir s path))
        (λ (body : Bytes).
          if-Gives (length body == 0) _ _ (make_error_response-Replies sys t l _ s e)
            (respond-Replies t _ _ body s e))

  get_directory-Replies :
      (t : Re3) (req : Request) (rsc : Resource) (l : Location) (path : Bytes) (o : Option Bytes)
      (s : S)
      → IsNew b t
      → Replies b (get_directory sys t req rsc l path o s)
  unfolding get_directory with_uri
  get_directory-Replies t req rsc l path (some page) s e =
      open_found-Replies (with_uri t rsc page) (record rsc { uri = page }) l page s e
  get_directory-Replies t req rsc l path none s e =
      if-Gives l.auto_index _ _ (auto_index_page-Replies t req l path s e)
        (open_found-Replies t rsc l path s e)

  get_first-Replies :
      (t : Re3) (req : Request) (rsc : Resource) (l : Location) (path : Bytes) (s : S)
      → IsNew b t
      → Replies b (get_first sys t req rsc l path s)
  unfolding get_first
  get_first-Replies t req rsc l path s e =
      if-Gives (is_directory (check_path sys s path)) _ _
        (get_directory-Replies t req rsc l (with_slash path) _ s e)
        (open_file-Replies t rsc l path s e)

  get_read-Replies :
      (t : Re3) (req : Request) (rsc : Resource) (path : Bytes) (s : S)
      → IsNew b t
      → Replies b (get_read sys t req rsc path s)
  unfolding get_read
  get_read-Replies t req rsc path s e =
      bind-Gives (substr path 1 none) _ (substr-Ends path 1 none)
        (λ (behind : Bytes). respond-Replies t _ _ rsc.content s e)

  pub make_get_response-Replies :
      (t : Re3) (l : Location) (path : Bytes) (s : S)
      → IsNew b t
      → Replies b (make_get_response sys t l path s)
  unfolding make_get_response
  make_get_response-Replies t l path s e = deref-Gives t.req_ptr _ (λ (req : Request).
      deref-Gives t.rsc_ptr _ (λ (rsc : Resource).
        if-Gives (is_status rsc.status nothing) _ _ (get_first-Replies t req rsc l path s e) (
          if-Gives (is_status rsc.status read_done) _ _ (get_read-Replies t req rsc path s e)
            (gives t resource_read_waiting s e))))

  post_opened-Replies :
      (t : Re3) (rsc : Resource) (l : Location) (created : Bytes) (o : Option ℕ) (s : S)
      → IsNew b t
      → Replies b (post_opened sys t rsc l created o s)
  unfolding post_opened opened
  post_opened-Replies t rsc l created none s e = make_error_response-Replies sys t l _ s e
  post_opened-Replies t rsc l created (some fd) s e =
      gives (opened t (record rsc { is_created = created }) writing fd) resource_write_init s e

  post_first-Replies :
      (t : Re3) (rsc : Resource) (l : Location) (path : Bytes) (k : FileType) (s : S)
      → IsNew b t
      → Replies b (post_first sys t rsc l path k s)
  unfolding post_first
  post_first-Replies t rsc l path not_found s e = post_opened-Replies t rsc l _ _ _ e
  post_first-Replies t rsc l path file s e = post_opened-Replies t rsc l _ _ _ e
  post_first-Replies t rsc l path directory s e = make_error_response-Replies sys t l _ s e

  pub make_post_response-Replies :
      (t : Re3) (l : Location) (path : Bytes) (s : S)
      → IsNew b t
      → Replies b (make_post_response sys t l path s)
  unfolding make_post_response post_written
  make_post_response-Replies t l path s e = deref-Gives t.rsc_ptr _ (λ (rsc : Resource).
      if-Gives (is_status rsc.status write_done) _ _
        (bind-Gives (substr path 1 none) _ (substr-Ends path 1 none)
          (λ (behind : Bytes). respond-Replies t rsc.is_created _ [] s e))
        (post_first-Replies t rsc l path _ s e))

  pub make_delete_response-Replies :
      (t : Re3) (l : Location) (path : Bytes) (s : S)
      → IsNew b t
      → Replies b (make_delete_response sys t l path s)
  unfolding make_delete_response
  make_delete_response-Replies t l path s e =
      if-Gives (is_file (check_path sys s path)) _ _ (respond-Replies t _ _ _ _ e)
        (make_error_response-Replies sys t l _ s e)

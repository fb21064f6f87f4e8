-- ===== src/ConfigParser/Tests.antt =====
-- Runs of src/ConfigParser.cpp, and instances of the theorems.
use lazy_team.Base.{
  List, ℕ, Bool, true, false, not, ◌&&◌, [], ◌∷◌, none, some, ◌≡◌, refl, All, ◌==◌, arith, inl,
  failed_assert,
}
use lazy_team.Text.{
  Bytes, codes, Lacks, is_space, NoSpace, IsWord, find_class, find, skip_space, word, after_word,
  text_eq, read_unsigned, starts_with,
}
use lazy_team.StringMap.{assign, lookup, text_lt}
use lazy_team.Webserv.{stat_code_map}
use lazy_team.ConfigParser.Replies.{done, aborted, at}
use lazy_team.ConfigParser.Reader.{
  ConfigFile, trim_whitespace, get_semantic_line, elements_of, after_chunk, after_line,
  get_line_elements, get_line, read_chunk, is_white, line_reply, semantic_lines, words, cut_comment,
  until_nul, find_last_class,
}
use lazy_team.ConfigParser.Blocks.{
  get_into_block, server_block, get_path, into_named, is_end, location_block, location_loop,
  only_brace, server_line, server_loop,
}
use lazy_team.ConfigParser.LocationLines.{allow_all, location_of, location_step}
use lazy_team.ConfigParser.Reader.Lines.{seen, lines, first_semantic, get_semantic_line-lines}
use lazy_team.ConfigParser.Reader.Trim.{IsTrimmed, trim_whitespace-IsTrimmed}
use lazy_team.ConfigParser.Reader.Words.{joined, elements_of-joined}
use lazy_team.ConfigParser.Safe.{Sound, NoFormFeed}
use lazy_team.ConfigParser.ServerLines.{new_server, server_switch, server_of, or_default}
use lazy_team.ConfigParser.ServerLines.Skipped.{server_switch-skips}
use lazy_team.ConfigParser.Directives.{
  error_page_line, location_pages, page_step, server_pages, number,
}
use lazy_team.ConfigParser.Http.{
  Configs, Settings, set_data, at_end, behind_http, http_block, http_end, http_loop, in_http,
  insert_name, member, with_server,
}
use lazy_team.ConfigParser.Http.Loop.{IsConfigs}
use lazy_team.ConfigParser.Http.Sound.{set_data-Sound, set_data-IsConfigs}
use lazy_team.ServerManager.Tables.{get}
use lazy_team.ServerManager.Start.Registered.{Registered, set_data-Registered}
use lazy_team.Server.{Server}
use lazy_team.ConfigParser.Http.Served.{Serves, set_data-Serves}

abbrev file_of : Bytes → ConfigFile
file_of text = record { rest = text; broken = false; at_eof = false; line_num = 0 }

abbrev told_nothing : Settings
told_nothing = record { send_timeout = none; recv_timeout = none; configs = none }

-- `http`, with the servers' lines one by one.
abbrev small : Bytes
small =
    codes
      "http {\n send_timeout 5\n # a comment\n server {\n listen 80 # a port\n root /www\n error_page 404 500 /a /b\n location / {\n method_allowed GET POST\n }\n }\n}\n\n"

all : (ℕ → Bool) → Bytes → Bool
all test [] = true
all test (c ∷ s) = test c && all test s

differs : ℕ → ℕ → Bool
differs b c = not (c == b)

lacks : (b : ℕ) (s : Bytes) → all (differs b) s ≡ true → Lacks b s
unfolding all differs
lacks b [] e = tt
lacks b (c ∷ s) e = ((λ x. ground arith), lacks b s (ground arith))

abbrev small_config : Server × List ℕ
small_config = (
  record {
    server_name = codes "localhost";
    default_root = codes "/www";
    default_error_pages = (codes "404 Not Found", codes "/a") ∷ [];
    client_body_limit = 0;
    locations =
        record {
          path = codes "/";
          root = [];
          indexes = [];
          auto_index = false;
          error_pages = [];
          methods_allowed = 3;
          cgi_infos = [];
          return_to = ([], []);
        }
        ∷ [];
    return_to = ([], []);
    port_num = 0;
  },
  80 ∷ [],
)

abbrev small_configs : Configs
small_configs = small_config ∷ []

small-NoFormFeed : NoFormFeed small
unfolding all differs
small-NoFormFeed = lacks 12 small refl

small-Lacks : Lacks 0 small
unfolding all differs
small-Lacks = lacks 0 small refl

small_told : (set_data false true told_nothing (file_of small)).1.configs ≡ some small_configs
unfolding get_into_block server_block get_path into_named is_end location_block location_loop
    only_brace server_line server_loop location_pages page_step server_pages number at_end
    behind_http http_block http_end http_loop in_http insert_name member with_server allow_all
    location_of location_step after_chunk after_line elements_of get_line_elements get_line
    read_chunk get_semantic_line is_white line_reply semantic_lines words trim_whitespace
    cut_comment until_nul find_last_class at or_default server_of server_switch assign lookup
    text_lt find_class find skip_space word after_word text_eq read_unsigned starts_with is_space
    stat_code_map set_data
small_told = refl

-- A line of a server block on its own: the next line cannot be read as its brace.
abbrev server_alone : Bytes
server_alone = codes "http {\n server\n {\n listen 80\n root /www\n }\n}\n"

server_alone_told : (set_data false true told_nothing (file_of server_alone)).1.configs ≡ none
unfolding get_into_block server_block get_path into_named is_end location_block location_loop
    only_brace server_line server_loop location_pages page_step server_pages number at_end
    behind_http http_block http_end http_loop in_http insert_name member with_server allow_all
    location_of location_step after_chunk after_line elements_of get_line_elements get_line
    read_chunk get_semantic_line is_white line_reply semantic_lines words trim_whitespace
    cut_comment until_nul find_last_class at or_default server_of server_switch assign lookup
    text_lt find_class find skip_space word after_word text_eq read_unsigned starts_with is_space
    stat_code_map set_data
server_alone_told = refl

-- An empty file is read without an error, and nothing is handed over.
empty_told : (set_data false true told_nothing (file_of [])).0 ≡ done tt
unfolding get_into_block server_block get_path into_named is_end location_block location_loop
    only_brace server_line server_loop location_pages page_step server_pages number at_end
    behind_http http_block http_end http_loop in_http insert_name member with_server allow_all
    location_of location_step after_chunk after_line elements_of get_line_elements get_line
    read_chunk get_semantic_line is_white line_reply semantic_lines words trim_whitespace
    cut_comment until_nul find_last_class at or_default server_of server_switch assign lookup
    text_lt find_class find skip_space word after_word text_eq read_unsigned starts_with is_space
    stat_code_map set_data
empty_told = refl

-- A line of form feeds only: the words of it are none.
form_feed_told :
    (set_data false true told_nothing (file_of (12 ∷ 10 ∷ []))).0 ≡ aborted failed_assert
unfolding get_into_block server_block get_path into_named is_end location_block location_loop
    only_brace server_line server_loop location_pages page_step server_pages number at_end
    behind_http http_block http_end http_loop in_http insert_name member with_server allow_all
    location_of location_step after_chunk after_line elements_of get_line_elements get_line
    read_chunk get_semantic_line is_white line_reply semantic_lines words trim_whitespace
    cut_comment until_nul find_last_class at or_default server_of server_switch assign lookup
    text_lt find_class find skip_space word after_word text_eq read_unsigned starts_with is_space
    stat_code_map set_data
form_feed_told = refl

set_data-Sound_example : Sound (λ u. Unit) (set_data false true told_nothing (file_of small)).0
set_data-Sound_example = set_data-Sound false true told_nothing (file_of small) small-NoFormFeed

set_data-IsConfigs_example : IsConfigs small_configs
set_data-IsConfigs_example =
    set_data-IsConfigs false true told_nothing (file_of small) small_configs small-NoFormFeed refl
      small_told

set_data-Serves_example : All (Serves (codes "/index.html")) small_configs
set_data-Serves_example =
    set_data-Serves false true told_nothing (file_of small) small_configs (codes "/index.html")
      small-NoFormFeed refl small_told

get_semantic_line-lines_example :
    seen (get_semantic_line (file_of small)) ≡ first_semantic 0 (lines small)
get_semantic_line-lines_example =
    get_semantic_line-lines (file_of small) refl (inl refl) small-Lacks

trim_whitespace-IsTrimmed_example : IsTrimmed (codes " a b \t") (trim_whitespace (codes " a b \t"))
trim_whitespace-IsTrimmed_example = trim_whitespace-IsTrimmed (codes " a b \t")

no_space : ℕ → Bool
no_space c = not (is_space c)

spaceless : (s : Bytes) → all no_space s ≡ true → NoSpace s
unfolding all no_space
spaceless [] e = tt
spaceless (c ∷ s) e = (ground arith, spaceless s (ground arith))

IsWord-test : (c : ℕ) (s : Bytes) → all no_space (c ∷ s) ≡ true → IsWord (c ∷ s)
IsWord-test c s e = ((λ x. cc), spaceless (c ∷ s) e)

elements_of-joined_example :
    elements_of (joined (codes "listen" ∷ codes "80" ∷ []))
    ≡ done (codes "listen" ∷ codes "80" ∷ [])
unfolding all no_space is_space
elements_of-joined_example =
    elements_of-joined (codes "listen") (codes "80" ∷ [])
      (IsWord-test 108 (codes "isten") refl, (IsWord-test 56 (codes "0") refl, tt))

server_switch-skips_example :
    server_switch error_page_line new_server
      (codes "error_page" ∷ codes "404" ∷ codes "500" ∷ codes "/a" ∷ codes "/b" ∷ [])
    ≡ done (record new_server { default_error_pages = (codes "404 Not Found", codes "/a") ∷ [] })
unfolding get_into_block server_block get_path into_named is_end location_block location_loop
    only_brace server_line server_loop location_pages page_step server_pages number at_end
    behind_http http_block http_end http_loop in_http insert_name member with_server allow_all
    location_of location_step after_chunk after_line elements_of get_line_elements get_line
    read_chunk get_semantic_line is_white line_reply semantic_lines words trim_whitespace
    cut_comment until_nul find_last_class at or_default server_of server_switch assign lookup
    text_lt find_class find skip_space word after_word text_eq read_unsigned starts_with is_space
    stat_code_map set_data
server_switch-skips_example =
    server_switch-skips new_server (codes "error_page") (codes "404") (codes "500") (codes "/a")
      (codes "/b") (codes "404 Not Found") refl refl

small_first : get small_configs 0 ≡ some small_config
unfolding get
small_first = refl

set_data-Registered_example : Registered small_configs 0
set_data-Registered_example =
    set_data-Registered false true told_nothing (file_of small) small_configs 0 small_config
      small-NoFormFeed refl small_told small_first

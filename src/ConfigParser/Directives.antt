-- ===== src/ConfigParser/Directives.antt =====
-- The directives of src/ConfigParser.cpp, and what those of servers and of locations share.
use lazy_team.Base.{ℕ, zero, suc, ◌+◌, ◌*◌, ◌/◌, List, [], ◌∷◌, none, some, length}
use lazy_team.Text.{Bytes, codes, untouched, read, failed, read_unsigned}
use lazy_team.StringMap.{StringMap, lookup, assign}
use lazy_team.Webserv.{stat_code_map}
use lazy_team.ConfigParser.Replies.{semantic, name_dup, Reply, done, error, at, ◌>>=◌}

pub data Directive : Type 0 where
  root_line index_line method_allowed_line cgi_info_line listen_line server_name_line : Directive
  auto_index_line error_page_line client_body_limit_line return_line : Directive

abbrev pub server_config : List (Bytes × Directive)
server_config =
    (codes "listen", listen_line)
    ∷ (codes "server_name", server_name_line)
    ∷ (codes "root", root_line)
    ∷ (codes "error_page", error_page_line)
    ∷ (codes "client_body_limit", client_body_limit_line)
    ∷ (codes "return", return_line)
    ∷ []

abbrev pub location_config : List (Bytes × Directive)
location_config =
    (codes "root", root_line)
    ∷ (codes "index", index_line)
    ∷ (codes "auto_index", auto_index_line)
    ∷ (codes "error_page", error_page_line)
    ∷ (codes "method_allowed", method_allowed_line)
    ∷ (codes "cgi_info", cgi_info_line)
    ∷ (codes "return", return_line)
    ∷ []

-- A number that is read with no failure.
unfoldable pub number : ℕ → Bytes → Reply ℕ
number bound text = elim (read_unsigned 10 bound text) [
  | untouched ↦ error semantic
  | read n ↦ done n
  | failed n ↦ error semantic
]

-- One page of `error_page`: the code at `i` and the page at `j`.
unfoldable pub page_step : ℕ → ℕ → List Bytes → StringMap Bytes → Reply (StringMap Bytes)
page_step i j elements pages = do
  code ← at elements i
  elim (stat_code_map code) [
    | none ↦ error semantic
    | some stat ↦ elim (lookup stat pages) [
      | some old ↦ error name_dup
      | none ↦ at elements j >>= λ page. done (assign stat page pages)
    ]
  ]

-- `for (size_t i = 1; i <= elements.size() / 2; ++(++i))`, with the rounds that are left
unfoldable pub server_pages : ℕ → ℕ → List Bytes → StringMap Bytes → Reply (StringMap Bytes)
unfolding page_step
server_pages zero i elements pages = done pages
server_pages (suc rounds) i elements pages =
    page_step i (i + length elements / 2) elements pages >>= λ m.
    server_pages rounds (i + 2) elements m

-- `for (size_t i = 1; i <= line_elements.size() / 2; ++i)`
unfoldable pub location_pages : ℕ → ℕ → List Bytes → StringMap Bytes → Reply (StringMap Bytes)
unfolding page_step
location_pages zero i elements pages = done pages
location_pages (suc rounds) i elements pages =
    page_step i (i * 2) elements pages >>= λ m. location_pages rounds (i + 1) elements m

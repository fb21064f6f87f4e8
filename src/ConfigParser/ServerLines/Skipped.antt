-- ===== src/ConfigParser/ServerLines/Skipped.antt =====
-- What the loop over the pages of an `error_page` line of a server block in src/ConfigParser.cpp passes by.
use lazy_team.Base.{ℕ, List, [], ◌∷◌, none, some, ◌≡◌, refl, ap}
use lazy_team.Text.{Bytes}
use lazy_team.StringMap.{StringMap, lookup, assign}
use lazy_team.Webserv.{stat_code_map}
use lazy_team.ConfigParser.Replies.{done, at, ◌>>=◌}
use lazy_team.ConfigParser.Directives.{error_page_line, page_step, server_pages}
use lazy_team.ConfigParser.ServerLines.{ServerDraft, server_switch}

page_step_lem :
    (i j : ℕ) (es : List Bytes) (m : StringMap Bytes) (code stat page : Bytes)
    → at es i ≡ done code
    → stat_code_map code ≡ some stat
    → lookup stat m ≡ none
    → at es j ≡ done page
    → page_step i j es m ≡ done (assign stat page m)
unfolding page_step
page_step_lem i j es m code stat page a e n b = rw (page_step, a, ◌>>=◌, e, n, b) refl

-- Of a line with two codes and two pages only the first pair is kept, whatever the second one is.
pub server_switch-skips :
    (d : ServerDraft) (key code other page next stat : Bytes)
    → stat_code_map code ≡ some stat
    → lookup stat d.default_error_pages ≡ none
    → server_switch error_page_line d (key ∷ code ∷ other ∷ page ∷ next ∷ [])
      ≡ done (record d { default_error_pages = assign stat page d.default_error_pages })
unfolding server_switch server_pages at
server_switch-skips d key code other page next stat e n =
    ap (λ r. r >>= (λ m. done m) >>= λ m. done (record d { default_error_pages = m }))
      (page_step_lem 1 3 (key ∷ code ∷ other ∷ page ∷ next ∷ []) d.default_error_pages code stat
        page refl e n refl)

-- ===== src/ConfigParser/Safe/Pages.antt =====
-- The loops over the pages of an `error_page` line stay inside the line.
use lazy_team.Base.{
  ℕ, zero, suc, ◌+◌, ◌*◌, ◌/◌, ◌%◌, ◌≤◌, ◌<◌, List, Option, none, some, ◌≡◌, arith, length, All,
}
use lazy_team.Text.{Bytes}
use lazy_team.StringMap.{StringMap, lookup, assign}
use lazy_team.Webserv.{stat_code_map}
use lazy_team.ConfigParser.Replies.{done, error, at, ◌>>=◌, semantic, name_dup}
use lazy_team.ConfigParser.Directives.{page_step, server_pages, location_pages}
use lazy_team.ConfigParser.Safe.{Sound, bind-Sound, at-Sound, NonEmpty}

abbrev Any {ℓ} : {A : Type ℓ} → A → Type 0
Any a = Unit

page_step-Sound :
    (i j : ℕ) (es : List Bytes) (m : StringMap Bytes)
    → All NonEmpty es
    → i < length es
    → j < length es
    → Sound Any (page_step i j es m)
unfolding page_step
page_step-Sound i j es m h li lj =
    bind-Sound NonEmpty Any (at es i) _ (at-Sound NonEmpty es i h li)
      (λ code c. by_stat (stat_code_map code))
  where
    by_page :
        (stat : Bytes) (o : Option Bytes)
        → Sound Any (elim o [
          | some old ↦ error name_dup
          | none ↦ at es j >>= λ page. done (assign stat page m)
        ])
    by_page stat (some old) = tt
    by_page stat none =
        bind-Sound NonEmpty Any (at es j) _ (at-Sound NonEmpty es j h lj) (λ page c. tt)

    by_stat :
        (o : Option Bytes)
        → Sound Any (elim o [
          | none ↦ error semantic
          | some stat ↦ elim (lookup stat m) [
            | some old ↦ error name_dup
            | none ↦ at es j >>= λ page. done (assign stat page m)
          ]
        ])
    by_stat none = tt
    by_stat (some stat) = by_page stat (lookup stat m)

pub server_pages-Sound :
    (rounds i : ℕ) (es : List Bytes) (m : StringMap Bytes)
    → All NonEmpty es
    → length es % 2 ≡ 1
    → i + 2 * rounds ≤ length es / 2 + 2
    → Sound (λ (m : StringMap Bytes). Unit) (server_pages rounds i es m)
unfolding server_pages
server_pages-Sound zero i es m h o l = tt
server_pages-Sound (suc rounds) i es m h o l =
    bind-Sound Any Any (page_step i (i + length es / 2) es m) _
      (page_step-Sound i (i + length es / 2) es m h (omega arith) (omega arith))
      (λ m' t. server_pages-Sound rounds (i + 2) es m' h o (omega arith))

pub location_pages-Sound :
    (rounds i : ℕ) (es : List Bytes) (m : StringMap Bytes)
    → All NonEmpty es
    → length es % 2 ≡ 1
    → i + rounds ≤ length es / 2 + 1
    → Sound (λ (m : StringMap Bytes). Unit) (location_pages rounds i es m)
unfolding location_pages
location_pages-Sound zero i es m h o l = tt
location_pages-Sound (suc rounds) i es m h o l =
    bind-Sound Any Any (page_step i (i * 2) es m) _
      (page_step-Sound i (i * 2) es m h (omega arith) (omega arith))
      (λ m' t. location_pages-Sound rounds (i + 1) es m' h o (omega arith))

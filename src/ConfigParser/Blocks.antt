-- ===== src/ConfigParser/Blocks.antt =====
-- The blocks of src/ConfigParser.cpp. A block's loop makes at most one round for each byte that is
-- left and two more, since each round reads a line or meets the end of the file.
use lazy_team.Base.{
  ℕ, zero, suc, ◌+◌, true, false, List, [], ◌∷◌, ◌++◌, none, some, if◌then◌else◌, ltb, length,
  out_of_fuel, out_of_range,
}
use lazy_team.Text.{Bytes, codes, text_eq}
use lazy_team.StringMap.{lookup}
use lazy_team.Location.{Location}
use lazy_team.Server.{Server}
use lazy_team.ConfigParser.Replies.{semantic, name_match, Reply, done, error, aborted}
use lazy_team.ConfigParser.Reader.{ConfigFile, get_line_elements}
use lazy_team.ConfigParser.Directives.{server_config}
use lazy_team.ConfigParser.LocationLines.{LocationDraft, new_location, location_step, location_of}
use lazy_team.ConfigParser.ServerLines.{ServerDraft, new_server, server_switch, server_of}

-- A function of the parser reads on in the file, whatever it comes to.
abbrev pub Parser : Type 0 → Type 0
Parser A = ConfigFile → Reply A × ConfigFile

abbrev pub then_read : {A B : Type 0} → (A → Parser B) → Reply A × ConfigFile → Reply B × ConfigFile
then_read next (done a, f) = next a f
then_read next (error e, f) = (error e, f)
then_read next (aborted e, f) = (aborted e, f)

infixl 5 ◌>>=◌
abbrev pub ◌>>=◌ : {A B : Type 0} → Parser A → (A → Parser B) → Parser B
◌>>=◌ m next f = then_read next (m f)

abbrev pub reply {ℓ} : {A : Type ℓ} → Reply A → ConfigFile → Reply A × ConfigFile
reply r f = (r, f)

abbrev pub is_brace : Bytes → Reply (Unit {0})
is_brace word = if text_eq word (codes "{") then done tt else error semantic

unfoldable pub only_brace : List Bytes → Reply (Unit {0})
only_brace (word ∷ []) = is_brace word
only_brace _ = error semantic

-- `getIntoBlock` behind the read of a line.
unfoldable pub into_named : Bytes → List Bytes → Parser (Unit {0})
unfolding only_brace
into_named block_name [] = reply (aborted out_of_range)
into_named block_name (name ∷ []) =
    if text_eq block_name name
    then get_line_elements >>= (λ elements. reply (only_brace elements))
    else reply (error name_match)
into_named block_name (name ∷ word ∷ []) =
    if text_eq block_name name then reply (is_brace word) else reply (error name_match)
into_named block_name (name ∷ word ∷ other ∷ elements) = reply (error semantic)

unfoldable pub get_into_block : Bytes → List Bytes → Parser (Unit {0})
unfolding into_named
get_into_block block_name [] = get_line_elements >>= into_named block_name
get_into_block block_name (e ∷ elements) = into_named block_name (e ∷ elements)

unfoldable pub get_path : List Bytes → Parser Bytes
unfolding only_brace
get_path (k ∷ path ∷ []) =
    if text_eq k (codes "location")
    then get_line_elements >>= (λ elements. reply (only_brace elements) >>= λ _. reply (done path))
    else reply (error semantic)
get_path (k ∷ path ∷ word ∷ []) =
    if text_eq k (codes "location")
    then reply (is_brace word) >>= (λ _. reply (done path))
    else reply (error semantic)
get_path _ = reply (error semantic)

-- The last line of a block.
unfoldable pub is_end : List Bytes → Reply (Unit {0})
is_end [] = aborted out_of_range
is_end (word ∷ elements) = if text_eq word (codes "}") then done tt else error semantic

-- `do … while (line_elements.size() > 1)`
unfoldable pub location_loop : ℕ → LocationDraft → List Bytes → Parser LocationDraft
unfolding is_end
location_loop zero d elements = reply (aborted out_of_fuel)
location_loop (suc fuel) d elements = reply (location_step d elements) >>= λ d'.
    get_line_elements >>= λ next. elim (ltb 1 (length next)) [
      | true ↦ location_loop fuel d' next
      | false ↦ reply (is_end next) >>= λ _. reply (done d')
    ]

abbrev pub rounds : ConfigFile → ℕ
rounds f = length f.rest + 2

unfoldable pub location_block : List Bytes → Parser Location
unfolding location_loop
location_block elements = get_path elements >>= λ path. get_line_elements >>= λ first.
    (λ f. location_loop (rounds f) new_location first f) >>= λ d. reply (done (location_of path d))

-- A line of a server block: a directive, or else the first line of a location.
unfoldable pub server_line : ServerDraft → List Bytes → Parser ServerDraft
unfolding location_block
server_line d [] = reply (aborted out_of_range)
server_line d (name ∷ elements) = elim (lookup name server_config) [
  | none ↦ location_block (name ∷ elements) >>= λ l.
      reply (done (record d { locations = d.locations ++ l ∷ [] }))
  | some directive ↦ reply (server_switch directive d (name ∷ elements))
]

unfoldable pub server_loop : ℕ → ServerDraft → List Bytes → Parser ServerDraft
unfolding server_line is_end
server_loop zero d elements = reply (aborted out_of_fuel)
server_loop (suc fuel) d elements = server_line d elements >>= λ d'. get_line_elements >>= λ next.
    elim (ltb 1 (length next)) [
      | true ↦ server_loop fuel d' next
      | false ↦ reply (is_end next) >>= λ _. reply (done d')
    ]

unfoldable pub server_block : List Bytes → Parser (Server × List ℕ)
unfolding server_loop
server_block elements = get_into_block (codes "server") elements >>= λ _.
    get_line_elements >>= λ first.
    (λ f. server_loop (rounds f) new_server first f) >>= λ d. reply (server_of d)

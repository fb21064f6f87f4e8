-- ===== src/ConfigParser/LocationLines.antt =====
-- A line of a location block of src/ConfigParser.cpp: what it does to the values that the block
-- collects. A check of a line's length stands in the clauses' patterns.
pub mod Sound
use Prim.Native.Nat.{bit_or}
use lazy_team.Base.{
  ℕ, zero, suc, ◌+◌, ◌*◌, ◌/◌, ◌%◌, ◌^◌, Bool, true, false, List, [], ◌∷◌, ◌++◌, Option, none, some,
  ◌==◌, if◌then◌else◌, ltb, length, failed_assert,
}
use lazy_team.Text.{Bytes, codes, text_eq}
use lazy_team.StringMap.{StringMap, lookup, assign}
use lazy_team.Webserv.{stat_code_map, get_method, post_method, delete_method, has_bit}
use lazy_team.Location.{Location}
use lazy_team.ConfigParser.Replies.{
  Error, semantic, name_dup, name_match, no_entity, Reply, done, error, aborted, at, ◌>>=◌,
}
use lazy_team.ConfigParser.Directives.{
  Directive, root_line, index_line, method_allowed_line, cgi_info_line, auto_index_line,
  error_page_line, return_line, location_config, location_pages,
}

-- The variables of `locationBlock`.
pub record LocationDraft : Type 0 where
  pub root : Bytes
  pub indexes : List Bytes
  pub auto_index : Bool
  pub auto_index_check : Bool
  pub error_pages : StringMap Bytes
  pub methods_allowed : ℕ
  pub method_allowed_check : Bool
  pub cgi_infos : StringMap Bytes
  pub return_to : Bytes × Bytes

abbrev pub new_location : LocationDraft
new_location = record {
  root = [];
  indexes = [];
  auto_index = false;
  auto_index_check = false;
  error_pages = [];
  methods_allowed = 0;
  method_allowed_check = false;
  cgi_infos = [];
  return_to = ([], []);
}

location_root : LocationDraft → List Bytes → Reply LocationDraft
location_root d (k ∷ v ∷ []) =
    if ltb 0 (length d.root) then error name_dup else done (record d { root = v })
location_root d _ = error semantic

location_error_page : LocationDraft → List Bytes → Reply LocationDraft
unfolding location_pages
location_error_page d elements =
    if length elements % 2 == 0
    then error semantic
    else location_pages (length elements / 2) 1 elements d.error_pages >>= λ m.
        done (record d { error_pages = m })

location_index : LocationDraft → List Bytes → Reply LocationDraft
location_index d (k ∷ v ∷ vs) = done (record d { indexes = d.indexes ++ (v ∷ vs) })
location_index d _ = error no_entity

on_or_off : LocationDraft → List Bytes → Reply LocationDraft
on_or_off d (k ∷ v ∷ []) =
    if text_eq v (codes "on")
    then done (record d { auto_index = true; auto_index_check = true })
    else if text_eq v (codes "off")
    then done (record d { auto_index = false; auto_index_check = true })
    else error semantic
on_or_off d _ = error semantic

location_auto_index : LocationDraft → List Bytes → Reply LocationDraft
unfolding on_or_off
location_auto_index d elements = if d.auto_index_check then error name_dup else on_or_off d elements

allow : ℕ → ℕ → Reply ℕ
allow bit methods = if has_bit methods bit then error name_dup else done (bit_or methods bit)

allow_named : Bytes → ℕ → Reply ℕ
unfolding allow
allow_named name methods =
    if text_eq name (codes "GET")
    then allow get_method methods
    else if text_eq name (codes "POST")
    then allow post_method methods
    else if text_eq name (codes "DELETE")
    then allow delete_method methods
    else error semantic

-- The loop over the methods of a line.
unfoldable pub allow_all : List Bytes → ℕ → Reply ℕ
unfolding allow_named
allow_all [] methods = done methods
allow_all (name ∷ names) methods = allow_named name methods >>= λ m. allow_all names m

method_names : List Bytes → List Bytes
method_names [] = []
method_names (k ∷ names) = names

location_method_allowed : LocationDraft → List Bytes → Reply LocationDraft
unfolding allow_all method_names
location_method_allowed d elements =
    if d.method_allowed_check
    then error name_dup
    else if ltb 4 (length elements)
    then error semantic
    else allow_all (method_names elements) d.methods_allowed >>= λ m.
        done (record d { methods_allowed = m; method_allowed_check = true })

location_cgi_info : LocationDraft → List Bytes → Reply LocationDraft
location_cgi_info d (k ∷ extension ∷ binary ∷ []) = elim (lookup extension d.cgi_infos) [
  | some old ↦ error name_dup
  | none ↦ done (record d { cgi_infos = assign extension binary d.cgi_infos })
]
location_cgi_info d _ = error semantic

location_return_line : LocationDraft → List Bytes → Reply LocationDraft
location_return_line d (k ∷ code ∷ to ∷ []) = elim (stat_code_map code) [
  | none ↦ error semantic
  | some stat ↦ done (record d { return_to = (stat, to) })
]
location_return_line d _ = error semantic

location_return : LocationDraft → List Bytes → Reply LocationDraft
unfolding location_return_line
location_return d elements =
    if ltb 0 (length d.return_to.0) then error name_dup else location_return_line d elements

-- `switch (this->location_config[line_elements[0]])`
location_switch : Option Directive → LocationDraft → List Bytes → Reply LocationDraft
unfolding location_root location_error_page location_index location_auto_index
    location_method_allowed location_cgi_info location_return
location_switch (some root_line) d elements = location_root d elements
location_switch (some error_page_line) d elements = location_error_page d elements
location_switch (some index_line) d elements = location_index d elements
location_switch (some auto_index_line) d elements = location_auto_index d elements
location_switch (some method_allowed_line) d elements = location_method_allowed d elements
location_switch (some cgi_info_line) d elements = location_cgi_info d elements
location_switch (some return_line) d elements = location_return d elements
location_switch none d elements = error name_match
location_switch _ d elements = aborted failed_assert

-- A line of a location block.
unfoldable pub location_step : LocationDraft → List Bytes → Reply LocationDraft
unfolding location_switch
location_step d elements = do
  name ← at elements 0
  location_switch (lookup name location_config) d elements

-- The location at the end of its block; GET is allowed if no method is.
unfoldable pub location_of : Bytes → LocationDraft → Location
location_of path d = record {
  path = path;
  root = d.root;
  indexes = d.indexes;
  auto_index = d.auto_index;
  error_pages = d.error_pages;
  methods_allowed = if d.methods_allowed == 0 then get_method else d.methods_allowed;
  cgi_infos = d.cgi_infos;
  return_to = d.return_to;
}

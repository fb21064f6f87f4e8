-- ===== src/Location.antt =====
-- include/Location.hpp and src/Location.cpp: a block of the configuration. A getter is the field's
-- projection. A null `stat_type` is read as the empty text; no code follows one.
use lazy_team.Base.{ℕ, Bool, List, [], ◌∷◌, ◌++◌, none, some, if◌then◌else◌}
use lazy_team.Text.{Bytes, codes, text_eq}
use lazy_team.StringMap.{StringMap, lookup}

pub record Location : Type 0 where
  pub path : Bytes
  pub root : Bytes
  pub indexes : List Bytes
  pub auto_index : Bool
  pub error_pages : StringMap Bytes
  pub methods_allowed : ℕ
  pub cgi_infos : StringMap Bytes
  pub return_to : Bytes × Bytes

-- The statuses are compared as texts; the source compares the addresses of the literals, which are the
-- same where the linker merges equal literals.
unfoldable pub get_default_error_page : Location → Bytes → Bytes
get_default_error_page l code = elim (lookup code l.error_pages) [ some page ↦ page | none ↦ [] ]

-- The first entry for a dot and the extension.
binary_for : Bytes → StringMap Bytes → Bytes
binary_for extension [] = []
binary_for extension ((k, v) ∷ m) =
    if text_eq k (codes "." ++ extension) then v else binary_for extension m

unfoldable pub get_cgi_binary : Location → Bytes → Bytes
unfolding binary_for
get_cgi_binary l extension = binary_for extension l.cgi_infos

-- ===== src/ConfigParser/LocationLines/Sound.antt =====
-- The lines of a location block of src/ConfigParser.cpp: no assert fails, and only known methods are allowed.
use Prim.Native.Nat.{bit_or}
use lazy_team.Base.{
  ℕ, zero, suc, ◌/◌, ◌%◌, ◌≤◌, List, [], ◌∷◌, Option, none, some, ◌≡◌, refl, arith, length, All,
  ◌⊎◌, ◌==◌, ltb, subst, sym, inl, inr,
}
use lazy_team.Text.{Bytes, codes, text_eq}
use lazy_team.StringMap.{lookup, lookup-All}
use lazy_team.Webserv.{stat_code_map, get_method, post_method, delete_method, has_bit}
use lazy_team.Location.{Location}
use lazy_team.ConfigParser.Replies.{at}
use lazy_team.ConfigParser.Directives.{
  Directive, root_line, index_line, method_allowed_line, cgi_info_line, listen_line,
  server_name_line, auto_index_line, error_page_line, client_body_limit_line, return_line,
  location_pages, location_config,
}
use lazy_team.ConfigParser.LocationLines.{
  LocationDraft, location_root, location_error_page, location_index, on_or_off, location_auto_index,
  allow, allow_named, allow_all, method_names, location_method_allowed, location_cgi_info,
  location_return_line, location_return, location_switch, location_step, location_of,
}
use lazy_team.ConfigParser.Safe.{Sound, bind-Sound, if-Sound, option-Sound, NonEmpty, IsElements}
use lazy_team.ConfigParser.Safe.Pages.{location_pages-Sound}

-- No bit but those of GET, POST and DELETE.
abbrev pub KnownMethods : ℕ → Type 0
KnownMethods m = m ≤ 7

abbrev pub DraftAllows : LocationDraft → Type 0
DraftAllows d = KnownMethods d.methods_allowed

-- A location allows a method, and none but GET, POST and DELETE.
abbrev pub IsLocation : Location → Type 0
IsLocation l = (1 ≤ l.methods_allowed) × (l.methods_allowed ≤ 7)

pub location_of-IsLocation :
    (path : Bytes) (d : LocationDraft) → DraftAllows d → IsLocation (location_of path d)
unfolding location_of
location_of-IsLocation path d h = ground arith

-- What holds of eight numbers holds of those up to 7.
up_to_7 : (P : ℕ → Type 0) → P 0 → P 1 → P 2 → P 3 → P 4 → P 5 → P 6 → P 7 → (m : ℕ) → m ≤ 7 → P m
up_to_7 P a b c d e f g h zero l = a
up_to_7 P a b c d e f g h (suc zero) l = b
up_to_7 P a b c d e f g h (suc (suc zero)) l = c
up_to_7 P a b c d e f g h (suc (suc (suc zero))) l = d
up_to_7 P a b c d e f g h (suc (suc (suc (suc zero)))) l = e
up_to_7 P a b c d e f g h (suc (suc (suc (suc (suc zero))))) l = f
up_to_7 P a b c d e f g h (suc (suc (suc (suc (suc (suc zero)))))) l = g
up_to_7 P a b c d e f g h (suc (suc (suc (suc (suc (suc (suc zero))))))) l = h
up_to_7 P a b c d e f g h (suc (suc (suc (suc (suc (suc (suc (suc m)))))))) l = absurd (omega arith)

bit_or-KnownMethods : (m b : ℕ) → KnownMethods m → ((b ≡ 1) ⊎ (b ≡ 2)) ⊎ (b ≡ 4) → bit_or m b ≤ 7
bit_or-KnownMethods m b h (inl (inl e)) =
    subst (λ (b : ℕ). bit_or m b ≤ 7) (sym e)
      (up_to_7 (λ m. bit_or m 1 ≤ 7) (omega arith) (omega arith) (omega arith) (omega arith)
        (omega arith) (omega arith) (omega arith) (omega arith) m h)
bit_or-KnownMethods m b h (inl (inr e)) =
    subst (λ (b : ℕ). bit_or m b ≤ 7) (sym e)
      (up_to_7 (λ m. bit_or m 2 ≤ 7) (omega arith) (omega arith) (omega arith) (omega arith)
        (omega arith) (omega arith) (omega arith) (omega arith) m h)
bit_or-KnownMethods m b h (inr e) =
    subst (λ (b : ℕ). bit_or m b ≤ 7) (sym e)
      (up_to_7 (λ m. bit_or m 4 ≤ 7) (omega arith) (omega arith) (omega arith) (omega arith)
        (omega arith) (omega arith) (omega arith) (omega arith) m h)

-- A directive of `location_config`, if it is one.
abbrev IsOwn : Option Directive → Type 0
IsOwn none = Unit
IsOwn (some listen_line) = ⊥
IsOwn (some server_name_line) = ⊥
IsOwn (some client_body_limit_line) = ⊥
IsOwn (some _) = Unit

location_config-IsOwn : (name : Bytes) → IsOwn (lookup name location_config)
location_config-IsOwn name =
    lookup-All IsOwn name location_config tt (tt, (tt, (tt, (tt, (tt, (tt, (tt, tt)))))))

allow-Sound :
    (b m : ℕ) → ((b ≡ 1) ⊎ (b ≡ 2)) ⊎ (b ≡ 4) → KnownMethods m → Sound KnownMethods (allow b m)
unfolding allow
allow-Sound b m k h =
    if-Sound KnownMethods (has_bit m b) _ _ (λ e. tt) (λ e. bit_or-KnownMethods m b h k)

allow_named-Sound :
    (name : Bytes) (m : ℕ) → KnownMethods m → Sound KnownMethods (allow_named name m)
unfolding allow_named
allow_named-Sound name m h =
    if-Sound KnownMethods (text_eq name (codes "GET")) _ _
      (λ e. allow-Sound get_method m (inl (inl refl)) h)
      (λ e.
        if-Sound KnownMethods (text_eq name (codes "POST")) _ _
          (λ e. allow-Sound post_method m (inl (inr refl)) h)
          (λ e.
            if-Sound KnownMethods (text_eq name (codes "DELETE")) _ _
              (λ e. allow-Sound delete_method m (inr refl) h) (λ e. tt)))

allow_all-Sound :
    (names : List Bytes) (m : ℕ) → KnownMethods m → Sound KnownMethods (allow_all names m)
unfolding allow_all
allow_all-Sound [] m h = h
allow_all-Sound (name ∷ names) m h =
    bind-Sound KnownMethods KnownMethods (allow_named name m) _ (allow_named-Sound name m h)
      (λ m' h'. allow_all-Sound names m' h')

module _ (d : LocationDraft) (h : DraftAllows d) where
  location_root-Sound : (es : List Bytes) → Sound DraftAllows (location_root d es)
  unfolding location_root
  location_root-Sound (k ∷ v ∷ []) =
      if-Sound DraftAllows (ltb 0 (length d.root)) _ _ (λ e. tt) (λ e. h)
  location_root-Sound [] = tt
  location_root-Sound (k ∷ []) = tt
  location_root-Sound (k ∷ v ∷ w ∷ es) = tt

  location_error_page-Sound :
      (es : List Bytes) → All NonEmpty es → Sound DraftAllows (location_error_page d es)
  unfolding location_error_page
  location_error_page-Sound es a =
      if-Sound DraftAllows (length es % 2 == 0) _ _ (λ e. tt)
        (λ e.
          bind-Sound _ DraftAllows (location_pages (length es / 2) 1 es d.error_pages) _
            (location_pages-Sound (length es / 2) 1 es d.error_pages a (ground arith) (omega arith))
            (λ m t. h))

  location_index-Sound : (es : List Bytes) → Sound DraftAllows (location_index d es)
  unfolding location_index
  location_index-Sound [] = tt
  location_index-Sound (k ∷ []) = tt
  location_index-Sound (k ∷ v ∷ vs) = h

  on_or_off-Sound : (es : List Bytes) → Sound DraftAllows (on_or_off d es)
  unfolding on_or_off
  on_or_off-Sound [] = tt
  on_or_off-Sound (k ∷ []) = tt
  on_or_off-Sound (k ∷ v ∷ []) =
      if-Sound DraftAllows (text_eq v (codes "on")) _ _ (λ e. h)
        (λ e. if-Sound DraftAllows (text_eq v (codes "off")) _ _ (λ e. h) (λ e. tt))
  on_or_off-Sound (k ∷ v ∷ w ∷ es) = tt

  location_auto_index-Sound : (es : List Bytes) → Sound DraftAllows (location_auto_index d es)
  unfolding location_auto_index
  location_auto_index-Sound es =
      if-Sound DraftAllows d.auto_index_check _ _ (λ e. tt) (λ e. on_or_off-Sound es)

  location_method_allowed-Sound :
      (es : List Bytes) → Sound DraftAllows (location_method_allowed d es)
  unfolding location_method_allowed
  location_method_allowed-Sound es =
      if-Sound DraftAllows d.method_allowed_check _ _ (λ e. tt)
        (λ e.
          if-Sound DraftAllows (ltb 4 (length es)) _ _ (λ e. tt)
            (λ e.
              bind-Sound KnownMethods DraftAllows (allow_all (method_names es) d.methods_allowed) _
                (allow_all-Sound (method_names es) d.methods_allowed h) (λ m k. k)))

  location_cgi_info-Sound : (es : List Bytes) → Sound DraftAllows (location_cgi_info d es)
  unfolding location_cgi_info
  location_cgi_info-Sound [] = tt
  location_cgi_info-Sound (k ∷ []) = tt
  location_cgi_info-Sound (k ∷ x ∷ []) = tt
  location_cgi_info-Sound (k ∷ x ∷ b ∷ []) =
      option-Sound DraftAllows (lookup x d.cgi_infos) _ _ h (λ o. tt)
  location_cgi_info-Sound (k ∷ x ∷ b ∷ w ∷ es) = tt

  location_return_line-Sound : (es : List Bytes) → Sound DraftAllows (location_return_line d es)
  unfolding location_return_line
  location_return_line-Sound [] = tt
  location_return_line-Sound (k ∷ []) = tt
  location_return_line-Sound (k ∷ x ∷ []) = tt
  location_return_line-Sound (k ∷ x ∷ b ∷ []) =
      option-Sound DraftAllows (stat_code_map x) _ _ tt (λ o. h)
  location_return_line-Sound (k ∷ x ∷ b ∷ w ∷ es) = tt

  location_return-Sound : (es : List Bytes) → Sound DraftAllows (location_return d es)
  unfolding location_return
  location_return-Sound es =
      if-Sound DraftAllows (ltb 0 (length d.return_to.0)) _ _ (λ e. tt)
        (λ e. location_return_line-Sound es)

  location_switch-Sound :
      (o : Option Directive) (es : List Bytes)
      → All NonEmpty es
      → IsOwn o
      → Sound DraftAllows (location_switch o d es)
  unfolding location_switch
  location_switch-Sound (some root_line) es a i = location_root-Sound es
  location_switch-Sound (some error_page_line) es a i = location_error_page-Sound es a
  location_switch-Sound (some index_line) es a i = location_index-Sound es
  location_switch-Sound (some auto_index_line) es a i = location_auto_index-Sound es
  location_switch-Sound (some method_allowed_line) es a i = location_method_allowed-Sound es
  location_switch-Sound (some cgi_info_line) es a i = location_cgi_info-Sound es
  location_switch-Sound (some return_line) es a i = location_return-Sound es
  location_switch-Sound none es a i = tt
  location_switch-Sound (some listen_line) es a i = absurd i
  location_switch-Sound (some server_name_line) es a i = absurd i
  location_switch-Sound (some client_body_limit_line) es a i = absurd i

  pub location_step-Sound :
      (es : List Bytes) → IsElements es → Sound DraftAllows (location_step d es)
  unfolding location_step at
  location_step-Sound [] (n, a) = absurd n
  location_step-Sound (name ∷ es) (n, a) =
      location_switch-Sound (lookup name location_config) (name ∷ es) a (location_config-IsOwn name)

-- ===== src/ConfigParser/Http/Served.antt =====
-- What src/ConfigParser.cpp hands over, met by `currLocation` of src/Server.cpp.
use lazy_team.Base.{
  ℕ, Bool, true, false, ◌&&◌, List, [], ◌∷◌, none, some, ◌≡◌, refl, length, ltb, All,
}
use lazy_team.Text.{Bytes, starts_with}
use lazy_team.Location.{Location}
use lazy_team.Server.{Server}
use lazy_team.Server.Route.{curr_location, longest_from}
use lazy_team.ConfigParser.Reader.{ConfigFile}
use lazy_team.ConfigParser.Safe.{NoFormFeed, NonEmpty}
use lazy_team.ConfigParser.LocationLines.Sound.{IsLocation}
use lazy_team.ConfigParser.ServerLines.Sound.{IsServer}
use lazy_team.ConfigParser.Http.{Configs, Settings, set_data}
use lazy_team.ConfigParser.Http.Sound.{set_data-IsConfigs}

longest_from-All :
    (P : Location → Type 0) (uri : Bytes) (ls : List Location) (longest : ℕ) (res : Location)
    → All P ls
    → P res
    → P (longest_from uri ls longest res)
unfolding longest_from
longest_from-All P uri [] longest res a p = p
longest_from-All P uri (l ∷ ls) longest res (q, a) p =
    elim (starts_with l.path uri && ltb longest (length l.path))
      as (λ b. P (elim b [
        | true ↦ longest_from uri ls (length l.path) l
        | false ↦ longest_from uri ls longest res
      ])) [
        | true ↦ longest_from-All P uri ls (length l.path) l a q
        | false ↦ longest_from-All P uri ls longest res a p
      ]

-- The server has a location for the target, and it allows a method.
abbrev pub Serves : Bytes → Server × List ℕ → Type 0
Serves uri c = (l : Location) × (curr_location uri c.0.locations ≡ some l) × IsLocation l

curr_location-IsLocation :
    (uri : Bytes) (ls : List Location)
    → NonEmpty ls
    → All IsLocation ls
    → (l : Location) × (curr_location uri ls ≡ some l) × IsLocation l
unfolding curr_location
curr_location-IsLocation uri [] n a = absurd n
curr_location-IsLocation uri (l ∷ ls) n a =
    (longest_from uri (l ∷ ls) 0 l, refl, longest_from-All IsLocation uri (l ∷ ls) 0 l a a.0)

served : (uri : Bytes) (cs : Configs) → All IsServer cs → All (Serves uri) cs
served uri [] a = tt
served uri (c ∷ cs) (h, a) =
    (curr_location-IsLocation uri c.0.locations h.has_location h.locations_ok, served uri cs a)

-- Every server that `setData` hands over to a manager that had none, from a file without form feeds, has
-- a location for every target: `currLocation` gives one, and it allows a method and none but GET, POST and DELETE.
pub set_data-Serves :
    (is_used is_open : Bool) (s : Settings) (f : ConfigFile) (cs : Configs) (uri : Bytes)
    → NoFormFeed f.rest
    → s.configs ≡ none
    → (set_data is_used is_open s f).1.configs ≡ some cs
    → All (Serves uri) cs
set_data-Serves is_used is_open s f cs uri k e q =
    served uri cs (set_data-IsConfigs is_used is_open s f cs k e q).1

-- ===== src/ServerManager/Start/Registered.antt =====
-- Every server that src/ConfigParser.cpp hands over has a port in src/ServerManager.cpp.
use lazy_team.Base.{
  ℕ, zero, suc, ◌+◌, Bool, true, false, ◌||◌, List, [], ◌∷◌, ◌++◌, none, some, ◌==◌, ◌≡◌, subst,
  sym, ap, ◌∙◌, arith, All,
}
use lazy_team.Server.{Server}
use lazy_team.ConfigParser.Reader.{ConfigFile}
use lazy_team.ConfigParser.Safe.{NoFormFeed, NonEmpty}
use lazy_team.ConfigParser.ServerLines.Sound.{IsServer}
use lazy_team.ConfigParser.Http.{Configs, Settings, set_data}
use lazy_team.ConfigParser.Http.Sound.{set_data-IsConfigs}
use lazy_team.ServerManager.Tables.{get}
use lazy_team.ServerManager.Start.{sort_servers}
use lazy_team.ServerManager.Start.Sorted.{ids_of, times, listing, sort_servers-listing}

unfoldable pub has : ℕ → List ℕ → Bool
has k [] = false
has k (x ∷ xs) = x == k || has k xs

has-append_left : (k : ℕ) (xs ys : List ℕ) → has k xs ≡ true → has k (xs ++ ys) ≡ true
unfolding has
has-append_left k [] ys e = cc
has-append_left k (x ∷ xs) ys e = ground (arith, has-append_left k xs ys)

has-append_right : (k : ℕ) (xs ys : List ℕ) → has k ys ≡ true → has k (xs ++ ys) ≡ true
unfolding has
has-append_right k [] ys e = e
has-append_right k (x ∷ xs) ys e = ground (arith, has-append_right k xs ys e)

some_eq : (x y : Server × List ℕ) → some x ≡ some y → x ≡ y
some_eq x y e = cc

zero_plus : (k : ℕ) → 0 + k ≡ k
zero_plus k = omega arith

plus_zero : (i : ℕ) → i ≡ i + 0
plus_zero i = omega arith

suc_plus : (i k : ℕ) → suc i + k ≡ i + suc k
suc_plus i k = omega arith

All-get :
    (P : Server × List ℕ → Type 0) (cs : Configs) (k : ℕ) (c : Server × List ℕ)
    → All P cs
    → get cs k ≡ some c
    → P c
unfolding get
All-get P [] k c a e = cc
All-get P (d ∷ cs) zero c (p, a) e = subst P (some_eq d c e) p
All-get P (d ∷ cs) (suc k) c (p, a) e = All-get P cs k c a e

times-has : (port : ℕ) (ports : List ℕ) (i : ℕ) → has i (times port (port ∷ ports) i) ≡ true
unfolding times has
times-has port ports i = ground arith

listing-has :
    (cs : Configs) (i k port : ℕ) (srv : Server) (ports : List ℕ)
    → get cs k ≡ some (srv, port ∷ ports)
    → has (i + k) (listing port cs i) ≡ true
unfolding listing get
listing-has [] i k port srv ports e = cc
listing-has (d ∷ cs) i zero port srv ports e =
    subst (λ (j : ℕ). has j (times port d.1 i ++ listing port cs (suc i)) ≡ true) (plus_zero i)
      (has-append_left i (times port d.1 i) (listing port cs (suc i)) (
        subst (λ (c : Server × List ℕ). has i (times port c.1 i) ≡ true)
          (sym (some_eq d (srv, port ∷ ports) e)) (times-has port ports i)))
listing-has (d ∷ cs) i (suc k) port srv ports e =
    has-append_right (i + suc k) (times port d.1 i) (listing port cs (suc i)) (
      subst (λ (j : ℕ). has j (listing port cs (suc i)) ≡ true) (suc_plus i k)
        (listing-has cs (suc i) k port srv ports e))

-- The server at the position stands under some port of the sorter.
abbrev pub Registered : Configs → ℕ → Type 0
Registered cs k = (port : ℕ) × (has k (ids_of port (sort_servers cs 0 [])) ≡ true)

listed-Registered :
    (cs : Configs) (k : ℕ) (srv : Server) (ports : List ℕ)
    → NonEmpty ports
    → get cs k ≡ some (srv, ports)
    → Registered cs k
listed-Registered cs k srv [] n e = absurd n
listed-Registered cs k srv (port ∷ ports) n e = (
  port,
  ap (has k) (sort_servers-listing cs 0 port).1
      ∙ subst (λ (j : ℕ). has j (listing port cs 0) ≡ true) (zero_plus k)
          (listing-has cs 0 k port srv ports e),
)

-- From a file without form feeds: each server that `setData` hands over to a manager that had none stands, by
-- its position, under some port of the sorter of `initServerManager`.
pub set_data-Registered :
    (is_used is_open : Bool) (s : Settings) (f : ConfigFile) (cs : Configs) (k : ℕ)
    (c : Server × List ℕ)
    → NoFormFeed f.rest
    → s.configs ≡ none
    → (set_data is_used is_open s f).1.configs ≡ some cs
    → get cs k ≡ some c
    → Registered cs k
set_data-Registered is_used is_open s f cs k c h e q g =
    listed-Registered cs k c.0 c.1
      (All-get IsServer cs k c (set_data-IsConfigs is_used is_open s f cs h e q).1 g).has_port g

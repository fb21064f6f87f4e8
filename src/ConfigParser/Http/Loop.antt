-- ===== src/ConfigParser/Http/Loop.antt =====
-- The loop of `httpBlock` of src/ConfigParser.cpp.
use lazy_team.Base.{
  ℕ, zero, suc, ◌≤◌, ◌<◌, Bool, true, false, List, [], ◌∷◌, ◌++◌, Option, some, ◌≡◌, refl, ap, sym,
  ◌∙◌, arith, if◌then◌else◌, ltb, length, All, All-append, map,
}
use lazy_team.Text.{Bytes, codes, text_eq}
use lazy_team.Webserv.{size_max}
use lazy_team.Server.{Server}
use lazy_team.ConfigParser.Replies.{Reply, done, error, aborted}
use lazy_team.ConfigParser.Reader.{ConfigFile, get_line_elements}
use lazy_team.ConfigParser.Reader.Steps.{left}
use lazy_team.ConfigParser.Directives.{number}
use lazy_team.ConfigParser.Blocks.{server_block}
use lazy_team.ConfigParser.Safe.{
  Fine, Sound, NoFormFeed, NonEmpty, IsElements, Taken, get_line_elements-Fine,
}
use lazy_team.ConfigParser.Safe.Blocks.{server_block-Fine}
use lazy_team.ConfigParser.ServerLines.Sound.{IsServer, number-Sound}
use lazy_team.ConfigParser.Http.{
  Configs, Settings, HttpDraft, Told, with_name, with_server, after_server, after_send, after_recv,
  http_line, http_read, http_loop,
}
use lazy_team.ConfigParser.Http.Names.{Distinct, InStep, insert_name-InStep}

abbrev pub name_of : Server × List ℕ → Bytes
name_of c = c.0.server_name

-- Configurations that can be served: there is one, each server is fit, and no two have the same name.
abbrev pub IsConfigs : Configs → Type 0
IsConfigs cs = NonEmpty cs × All IsServer cs × Distinct (map name_of cs)

-- What holds of the variables of `httpBlock`.
abbrev pub IsHttp : HttpDraft → Type 0
IsHttp d =
    All IsServer d.configs
    × (d.server_name_vec ≡ map name_of d.configs)
    × InStep d.server_name_set d.server_name_vec

-- No abort; what is told has the property; the rest of the file has no form feed and is no longer.
abbrev pub ToldFine : {A : Type 0} → (A → Type 0) → (Settings → Type 0) → ℕ → Told A → Type 0
ToldFine P S n (done a, s, f) = P a × S s × (left f ≤ n) × NoFormFeed f.rest
ToldFine P S n (error e, s, f) = S s × (left f ≤ n) × NoFormFeed f.rest
ToldFine P S n (aborted e, s, f) = ⊥

pub ToldFine-le :
    {A : Type 0} (P : A → Type 0) (S : Settings → Type 0) (m n : ℕ) (r : Told A)
    → m ≤ n
    → ToldFine P S m r
    → ToldFine P S n r
ToldFine-le P S m n (done a, s, f) h (p, t, l, k) = (p, t, omega arith, k)
ToldFine-le P S m n (error e, s, f) h (t, l, k) = (t, omega arith, k)
ToldFine-le P S m n (aborted e, s, f) h k = absurd k

map-append :
    (cs : Configs) (c : Server × List ℕ)
    → map name_of (cs ++ c ∷ []) ≡ map name_of cs ++ name_of c ∷ []
map-append [] c = refl
map-append (d ∷ cs) c = ap (◌∷◌ (name_of d)) (map-append cs c)

with_name-IsHttp :
    (d : HttpDraft) (srv : Server) (ports : List ℕ)
    → IsHttp d
    → IsServer (srv, ports)
    → IsHttp (with_name (record d { configs = d.configs ++ (srv, ports) ∷ [] }) srv.server_name)
unfolding with_name
with_name-IsHttp d srv ports (a, e, i) h = (
  All-append IsServer d.configs ((srv, ports) ∷ []) a (h, tt),
  ap (λ (l : List Bytes). l ++ srv.server_name ∷ []) e ∙ sym (map-append d.configs (srv, ports)),
  insert_name-InStep srv.server_name d.server_name_set d.server_name_vec i,
)

NonEmpty-ltb : (s : Bytes) → NonEmpty s → ltb 0 (length s) ≡ true
NonEmpty-ltb [] h = absurd h
NonEmpty-ltb (c ∷ s) h = ground arith

if_true :
    {A : Type 0} (P : A → Type 0) (b : Bool) (x y : A) → b ≡ true → P x → P (if b then x else y)
if_true P true x y e h = h
if_true P false x y e h = cc

with_server-IsHttp :
    (d : HttpDraft) (srv : Server) (ports : List ℕ)
    → IsHttp d
    → IsServer (srv, ports)
    → IsHttp (with_server d srv ports)
unfolding with_server
with_server-IsHttp d srv ports i h =
    if_true IsHttp (ltb 0 (length srv.server_name)) _ _ (NonEmpty-ltb srv.server_name h.has_name)
      (with_name-IsHttp d srv ports i h)

pub if-ToldFine :
    {A : Type 0} (P : A → Type 0) (S : Settings → Type 0) (n : ℕ) (b : Bool) (x y : Told A)
    → ToldFine P S n x
    → ToldFine P S n y
    → ToldFine P S n (if b then x else y)
if-ToldFine P S n true x y h k = h
if-ToldFine P S n false x y h k = k

-- The same, with what the test came to.
pub split-ToldFine :
    {A : Type 0} (P : A → Type 0) (S : Settings → Type 0) (n : ℕ) (b : Bool) (x y : Told A)
    → (b ≡ true → ToldFine P S n x)
    → (b ≡ false → ToldFine P S n y)
    → ToldFine P S n (if b then x else y)
split-ToldFine P S n true x y h k = h refl
split-ToldFine P S n false x y h k = k refl

module _ (c : Option Configs) where
  module _ (n : ℕ) (again : HttpDraft → Settings → ConfigFile → Told HttpDraft)
      (ih : (d : HttpDraft) (s : Settings) (f : ConfigFile)
        → IsHttp d
        → s.configs ≡ c
        → left f < n
        → NoFormFeed f.rest
        → ToldFine IsHttp (λ s. s.configs ≡ c) (left f) (again d s f)) where
    after_server-Fine :
        (d : HttpDraft) (s : Settings) (m : ℕ) (r : Reply (Server × List ℕ) × ConfigFile)
        → IsHttp d
        → s.configs ≡ c
        → m < n
        → Fine (λ x f. IsServer x) m r
        → ToldFine IsHttp (λ s. s.configs ≡ c) m (after_server again d s r)
    unfolding after_server
    after_server-Fine d s m (done (srv, ports), f) h e l (p, q, k) =
        ToldFine-le IsHttp _ (left f) m (again (with_server d srv ports) s f) q
          (ih (with_server d srv ports) s f (with_server-IsHttp d srv ports h p) e (omega arith) k)
    after_server-Fine d s m (error x, f) h e l (q, k) = (e, q, k)
    after_server-Fine d s m (aborted x, f) h e l k = absurd k

    after_send-Fine :
        (d : HttpDraft) (s : Settings) (f : ConfigFile) (r : Reply ℕ)
        → IsHttp d
        → s.configs ≡ c
        → left f < n
        → NoFormFeed f.rest
        → Sound (λ k. k < size_max) r
        → ToldFine IsHttp (λ s. s.configs ≡ c) (left f) (after_send again d s f r)
    unfolding after_send
    after_send-Fine d s f (done x) h e l k r =
        ih (record d { send_timeout_check = true }) (record s { send_timeout = some x }) f h e l k
    after_send-Fine d s f (error x) h e l k r = (e, omega arith, k)
    after_send-Fine d s f (aborted x) h e l k r = absurd r

    after_recv-Fine :
        (d : HttpDraft) (s : Settings) (f : ConfigFile) (r : Reply ℕ)
        → IsHttp d
        → s.configs ≡ c
        → left f < n
        → NoFormFeed f.rest
        → Sound (λ k. k < size_max) r
        → ToldFine IsHttp (λ s. s.configs ≡ c) (left f) (after_recv again d s f r)
    unfolding after_recv
    after_recv-Fine d s f (done x) h e l k r =
        ih (record d { recv_timeout_check = true }) (record s { recv_timeout = some x }) f h e l k
    after_recv-Fine d s f (error x) h e l k r = (e, omega arith, k)
    after_recv-Fine d s f (aborted x) h e l k r = absurd r

    http_line-Fine :
        (d : HttpDraft) (s : Settings) (es : List Bytes) (f : ConfigFile)
        → IsHttp d
        → s.configs ≡ c
        → IsElements es
        → left f < n
        → NoFormFeed f.rest
        → ToldFine IsHttp (λ s. s.configs ≡ c) (left f) (http_line again d s es f)
    unfolding http_line
    http_line-Fine d s [] f h e t l k = absurd t.0
    http_line-Fine d s (w ∷ []) f h e t l k =
        if-ToldFine IsHttp _ (left f) (text_eq w (codes "}")) _ _ (h, e, omega arith, k)
          (e, omega arith, k)
    http_line-Fine d s (w ∷ v ∷ []) f h e t l k =
        if-ToldFine IsHttp _ (left f) (text_eq w (codes "send_timeout")) _ _
          (if-ToldFine IsHttp _ (left f) d.send_timeout_check _ _ (e, omega arith, k)
            (after_send-Fine d s f (number size_max v) h e l k (number-Sound size_max v)))
          (if-ToldFine IsHttp _ (left f) (text_eq w (codes "recv_timeout")) _ _
            (if-ToldFine IsHttp _ (left f) d.recv_timeout_check _ _ (e, omega arith, k)
              (after_recv-Fine d s f (number size_max v) h e l k (number-Sound size_max v)))
            (after_server-Fine d s (left f) (server_block (w ∷ v ∷ []) f) h e l
              (server_block-Fine (w ∷ v ∷ []) f t.1 k)))
    http_line-Fine d s (w ∷ v ∷ u ∷ es) f h e t l k =
        after_server-Fine d s (left f) (server_block (w ∷ v ∷ u ∷ es) f) h e l
          (server_block-Fine (w ∷ v ∷ u ∷ es) f t.1 k)

    http_read-Fine :
        (d : HttpDraft) (s : Settings) (r : Reply (List Bytes) × ConfigFile)
        → IsHttp d
        → s.configs ≡ c
        → Fine (Taken n) n r
        → ToldFine IsHttp (λ s. s.configs ≡ c) n (http_read again d s r)
    unfolding http_read
    http_read-Fine d s (done es, f) h e (t, l, k) =
        ToldFine-le IsHttp _ (left f) n (http_line again d s es f) l
          (http_line-Fine d s es f h e t.0 t.1 k)
    http_read-Fine d s (error x, f) h e (l, k) = (e, l, k)
    http_read-Fine d s (aborted x, f) h e k = absurd k

  pub http_loop-Fine :
      (fuel : ℕ) (d : HttpDraft) (s : Settings) (f : ConfigFile)
      → left f < fuel
      → IsHttp d
      → s.configs ≡ c
      → NoFormFeed f.rest
      → ToldFine IsHttp (λ s. s.configs ≡ c) (left f) (http_loop fuel d s f)
  unfolding http_loop
  http_loop-Fine zero d s f l h e k = absurd (omega arith)
  http_loop-Fine (suc fuel) d s f l h e k =
      http_read-Fine (left f) (λ e t g. http_loop fuel e t g)
        (λ d' s' f' h' e' l' k'. http_loop-Fine fuel d' s' f' (omega arith) h' e' k') d s
        (get_line_elements f) h e (get_line_elements-Fine f k)

-- ===== src/ConfigParser/Safe/Blocks.antt =====
-- The blocks of src/ConfigParser.cpp below `http`: no assert fails, the loops end, and a server that is
-- handed over is fit to serve.
use lazy_team.Base.{
  ℕ, zero, suc, ◌<◌, Bool, true, false, List, [], ◌∷◌, ◌++◌, Option, none, some, refl, inl, arith,
  ltb, if◌then◌else◌, length, All, All-append,
}
use lazy_team.Text.{Bytes, codes, text_eq}
use lazy_team.StringMap.{lookup}
use lazy_team.ConfigParser.Replies.{Reply, done, error, aborted}
use lazy_team.ConfigParser.Reader.{ConfigFile, get_line_elements}
use lazy_team.ConfigParser.Reader.Steps.{left}
use lazy_team.ConfigParser.Directives.{Directive, server_config}
use lazy_team.ConfigParser.LocationLines.{LocationDraft, new_location, location_step}
use lazy_team.ConfigParser.LocationLines.Sound.{
  DraftAllows, IsLocation, location_step-Sound, location_of-IsLocation,
}
use lazy_team.ConfigParser.ServerLines.{ServerDraft, new_server, server_switch, server_of}
use lazy_team.ConfigParser.ServerLines.Sound.{
  IsDraft, IsServer, IsOwn, server_switch-Sound, server_of-Sound, server_config-IsOwn,
}
use lazy_team.ConfigParser.Blocks.{
  Parser, then_read, ◌>>=◌, reply, is_brace, only_brace, into_named, get_into_block, get_path,
  is_end, location_loop, rounds, location_block, server_line, server_loop, server_block,
}
use lazy_team.ConfigParser.Safe.{
  Fine, Sound, NoFormFeed, IsElements, Taken, NonEmpty, reply-Fine, then_read-Fine, Fine-le,
  if-Sound, get_line_elements-Fine,
}

abbrev pub Any {ℓ} : {A : Type ℓ} → A → ConfigFile → Type 0
Any a f = Unit

-- A reply that reads nothing, and what follows it.
reply_then-Fine :
    {A B : Type 0} (P : A → Type 0) (Q : B → ConfigFile → Type 0) (r : Reply A)
    (next : A → Parser B) (f : ConfigFile)
    → Sound P r
    → NoFormFeed f.rest
    → ((a : A) → P a → Fine Q (left f) (next a f))
    → Fine Q (left f) (then_read next (r, f))
reply_then-Fine P Q (done a) next f h n k = k a h
reply_then-Fine P Q (error e) next f h n k = (omega arith, n)
reply_then-Fine P Q (aborted e) next f h n k = absurd h

-- A line, and what follows it in the rest of the file.
line_then-Fine :
    {B : Type 0} (Q : B → ConfigFile → Type 0) (next : List Bytes → Parser B) (f : ConfigFile)
    → NoFormFeed f.rest
    → ((es : List Bytes) (g : ConfigFile)
        → IsElements es
        → left g < left f
        → NoFormFeed g.rest
        → Fine Q (left g) (next es g))
    → Fine Q (left f) (then_read next (get_line_elements f))
line_then-Fine Q next f n k =
    then_read-Fine (Taken (left f)) Q (left f) (get_line_elements f) next
      (get_line_elements-Fine f n)
      (λ es g t l m. Fine-le Q (left g) (left f) (next es g) l (k es g t.0 t.1 m))

is_brace-Sound : (word : Bytes) → Sound (λ u. Unit) (is_brace word)
is_brace-Sound word = if-Sound (λ u. Unit) (text_eq word (codes "{")) _ _ (λ e. tt) (λ e. tt)

only_brace-Sound : (es : List Bytes) → Sound (λ u. Unit) (only_brace es)
unfolding only_brace
only_brace-Sound [] = tt
only_brace-Sound (word ∷ []) = is_brace-Sound word
only_brace-Sound (word ∷ v ∷ es) = tt

is_end-Sound : (es : List Bytes) → IsElements es → Sound (λ u. Unit) (is_end es)
unfolding is_end
is_end-Sound [] h = absurd h.0
is_end-Sound (word ∷ es) h = if-Sound (λ u. Unit) (text_eq word (codes "}")) _ _ (λ e. tt) (λ e. tt)

-- A case split on a test of the parsers.
if-Fine :
    {A : Type 0} (P : A → ConfigFile → Type 0) (n : ℕ) (b : Bool) (x y : Parser A) (f : ConfigFile)
    → Fine P n (x f)
    → Fine P n (y f)
    → Fine P n ((if b then x else y) f)
if-Fine P n true x y f h k = h
if-Fine P n false x y f h k = k

pub into_named-Fine :
    (name : Bytes) (es : List Bytes) (f : ConfigFile)
    → IsElements es
    → NoFormFeed f.rest
    → Fine Any (left f) (into_named name es f)
unfolding into_named
into_named-Fine name [] f h n = absurd h.0
into_named-Fine name (k ∷ []) f h n =
    if-Fine Any (left f) (text_eq name k) _ _ f
      (line_then-Fine Any (λ es. reply (only_brace es)) f n
        (λ es g t l m. reply-Fine Any (only_brace es) g (only_brace-Sound es) m))
      (omega arith, n)
into_named-Fine name (k ∷ word ∷ []) f h n =
    if-Fine Any (left f) (text_eq name k) _ _ f
      (reply-Fine Any (is_brace word) f (is_brace-Sound word) n) (omega arith, n)
into_named-Fine name (k ∷ word ∷ v ∷ es) f h n = (omega arith, n)

get_path-Fine :
    (es : List Bytes) (f : ConfigFile) → NoFormFeed f.rest → Fine Any (left f) (get_path es f)
unfolding get_path
get_path-Fine [] f n = (omega arith, n)
get_path-Fine (k ∷ []) f n = (omega arith, n)
get_path-Fine (k ∷ path ∷ []) f n =
    if-Fine Any (left f) (text_eq k (codes "location")) _ _ f
      (line_then-Fine Any (λ es. reply (only_brace es) >>= λ u. reply (done path)) f n
        (λ es g t l m.
          reply_then-Fine (λ u. Unit) Any (only_brace es) (λ u. reply (done path)) g
            (only_brace-Sound es) m (λ u t. (tt, omega arith, m))))
      (omega arith, n)
get_path-Fine (k ∷ path ∷ word ∷ []) f n =
    if-Fine Any (left f) (text_eq k (codes "location")) _ _ f
      (reply_then-Fine (λ u. Unit) Any (is_brace word) (λ u. reply (done path)) f
        (is_brace-Sound word) n (λ u t. (tt, omega arith, n)))
      (omega arith, n)
get_path-Fine (k ∷ path ∷ word ∷ v ∷ es) f n = (omega arith, n)

-- The end of a round of a block: another line of it, or its last line.
round_end-Fine :
    {A : Type 0} (P : A → Type 0) (b : Bool) (es : List Bytes) (a : A) (again : Parser A)
    (g : ConfigFile)
    → IsElements es
    → P a
    → NoFormFeed g.rest
    → Fine (λ a f. P a) (left g) (again g)
    → Fine
        (λ a f. P a)
        (left g)
        ((elim b as (λ b. Parser A) [
          | true ↦ again
          | false ↦ reply (is_end es) >>= λ u. reply (done a)
        ])
          g)
round_end-Fine P true es a again g t p n k = k
round_end-Fine P false es a again g t p n k =
    reply_then-Fine (λ u. Unit) (λ a f. P a) (is_end es) (λ u. reply (done a)) g (is_end-Sound es t)
      n (λ u t. (p, omega arith, n))

location_loop-Fine :
    (fuel : ℕ) (d : LocationDraft) (es : List Bytes) (f : ConfigFile)
    → left f < fuel
    → DraftAllows d
    → IsElements es
    → NoFormFeed f.rest
    → Fine (λ d g. DraftAllows d) (left f) (location_loop fuel d es f)
unfolding location_loop
location_loop-Fine zero d es f l a t n = absurd (omega arith)
location_loop-Fine (suc fuel) d es f l a t n =
    reply_then-Fine DraftAllows _ (location_step d es) _ f (location_step-Sound d a es t) n
      (λ d' a'. line_then-Fine _ _ f n (λ next g t' l' n'.
        round_end-Fine DraftAllows (ltb 1 (length next)) next d' (location_loop fuel d' next) g t'
          a' n' (location_loop-Fine fuel d' next g (omega arith) a' t' n')))

location_block-Fine :
    (es : List Bytes) (f : ConfigFile)
    → NoFormFeed f.rest
    → Fine (λ l g. IsLocation l) (left f) (location_block es f)
unfolding location_block
location_block-Fine es f n =
    then_read-Fine Any _ (left f) (get_path es f) _ (get_path-Fine es f n) (λ path g _ l m.
      Fine-le _ (left g) (left f) _ l (
        line_then-Fine _ _ g m (λ first h t l' m'.
          then_read-Fine (λ d g. DraftAllows d) _ (left h)
            (location_loop (rounds h) new_location first h) _
            (location_loop-Fine (rounds h) new_location first h (ground arith) (omega arith) t m')
            (λ d k a l'' m''. (location_of-IsLocation path d a, l'', m'')))))

server_line-Fine :
    (d : ServerDraft) (es : List Bytes) (f : ConfigFile)
    → IsDraft d
    → IsElements es
    → NoFormFeed f.rest
    → Fine (λ d g. IsDraft d) (left f) (server_line d es f)
unfolding server_line
server_line-Fine d [] f h t n = absurd t.0
server_line-Fine d (name ∷ es) f h t n =
    by_name (lookup name server_config) (server_config-IsOwn name)
  where
    by_name :
        (o : Option Directive)
        → IsOwn o
        → Fine
            (λ d g. IsDraft d)
            (left f)
            ((elim o as (λ o. Parser ServerDraft) [
              | none ↦ location_block (name ∷ es) >>= λ l.
                  reply (done (record d { locations = d.locations ++ l ∷ [] }))
              | some directive ↦ reply (server_switch directive d (name ∷ es))
            ])
              f)
    by_name none i =
        then_read-Fine (λ l g. IsLocation l) _ (left f) (location_block (name ∷ es) f) _
          (location_block-Fine (name ∷ es) f n)
          (λ l g a r m.
            ((h.0, h.1, h.2, h.3, All-append IsLocation d.locations (l ∷ []) h.4 (a, tt)), r, m))
    by_name (some x) i =
        reply-Fine (λ d g. IsDraft d) (server_switch x d (name ∷ es)) f
          (server_switch-Sound d h x (name ∷ es) t.1 i) n

server_loop-Fine :
    (fuel : ℕ) (d : ServerDraft) (es : List Bytes) (f : ConfigFile)
    → left f < fuel
    → IsDraft d
    → IsElements es
    → NoFormFeed f.rest
    → Fine (λ d g. IsDraft d) (left f) (server_loop fuel d es f)
unfolding server_loop
server_loop-Fine zero d es f l h t n = absurd (omega arith)
server_loop-Fine (suc fuel) d es f l h t n =
    then_read-Fine (λ d g. IsDraft d) _ (left f) (server_line d es f) _
      (server_line-Fine d es f h t n)
      (λ d' g h' l' m. Fine-le _ (left g) (left f) _ l' (
        line_then-Fine _ _ g m (λ next k t' l'' n'.
          round_end-Fine IsDraft (ltb 1 (length next)) next d' (server_loop fuel d' next) k t' h' n'
            (server_loop-Fine fuel d' next k (omega arith) h' t' n'))))

pub get_into_block-Fine :
    (name : Bytes) (es : List Bytes) (f : ConfigFile)
    → All NonEmpty es
    → NoFormFeed f.rest
    → Fine Any (left f) (get_into_block name es f)
unfolding get_into_block
get_into_block-Fine name [] f a n =
    line_then-Fine Any (into_named name) f n (λ es g t l m. into_named-Fine name es g t m)
get_into_block-Fine name (e ∷ es) f a n = into_named-Fine name (e ∷ es) f (tt, a) n

pub server_block-Fine :
    (es : List Bytes) (f : ConfigFile)
    → All NonEmpty es
    → NoFormFeed f.rest
    → Fine (λ c g. IsServer c) (left f) (server_block es f)
unfolding server_block
server_block-Fine es f a n =
    then_read-Fine Any _ (left f) (get_into_block (codes "server") es f) _
      (get_into_block-Fine (codes "server") es f a n)
      (λ u g _ l m. Fine-le _ (left g) (left f) _ l (
        line_then-Fine _ _ g m (λ first h t l' m'.
          then_read-Fine (λ d g. IsDraft d) _ (left h) (server_loop (rounds h) new_server first h) _
            (server_loop-Fine (rounds h) new_server first h (ground arith)
              (inl refl, tt, tt, omega arith, tt) t m')
            (λ d k h' l'' m''.
              Fine-le _ (left k) (left h) _ l''
                (reply-Fine (λ c g. IsServer c) (server_of d) k (server_of-Sound d h') m'')))))

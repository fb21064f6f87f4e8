-- ===== src/ConfigParser/Http/Sound.antt =====
-- `setData` of src/ConfigParser.cpp: it comes to an end, and what it hands over can be served.
use lazy_team.Base.{
  ℕ, Bool, true, false, List, [], ◌∷◌, Option, none, some, ◌≡◌, ◌≢◌, ◌⊎◌, inl, inr, refl, subst,
  sym, ◌∙◌, arith, ◌==◌, length,
}
use lazy_team.Text.{codes}
use lazy_team.ConfigParser.Replies.{Reply, done, error, aborted}
use lazy_team.ConfigParser.Reader.{ConfigFile, Line, got, ended, failed, stuck, get_semantic_line}
use lazy_team.ConfigParser.Reader.Steps.{left, IsSemantic, get_semantic_line-IsSemantic}
use lazy_team.ConfigParser.Blocks.{get_into_block, rounds}
use lazy_team.ConfigParser.Safe.{Fine, Sound, NoFormFeed, NonEmpty}
use lazy_team.ConfigParser.Safe.Blocks.{Any, get_into_block-Fine}
use lazy_team.ConfigParser.Http.{
  Configs, Settings, HttpDraft, new_http, Told, http_loop, http_end, in_http, http_block, at_end,
  behind_http, set_data,
}
use lazy_team.ConfigParser.Http.Names.{Distinct, InStep-Distinct}
use lazy_team.ConfigParser.Http.Loop.{
  IsConfigs, IsHttp, ToldFine, ToldFine-le, if-ToldFine, split-ToldFine, http_loop-Fine,
}

length-NonEmpty : {A : Type 0} (xs : List A) → (length xs == 0) ≡ false → NonEmpty xs
length-NonEmpty [] e = cc
length-NonEmpty (x ∷ xs) e = tt

same : (m n : ℕ) → (m == n) ≡ true → m ≡ n
same m n e = ground arith

fit :
    (d : HttpDraft)
    → IsHttp d
    → (length d.configs == 0) ≡ false
    → (length d.server_name_set == length d.server_name_vec) ≡ true
    → IsConfigs d.configs
fit d (a, e, i) z q = (
  length-NonEmpty d.configs z,
  a,
  subst Distinct e (InStep-Distinct d.server_name_set d.server_name_vec i (same _ _ q)),
)

some_eq : (a b : Configs) → some a ≡ some b → a ≡ b
some_eq a b e = cc

module _ (c : Option Configs) where
  -- Nothing new, or configurations that can be served.
  TellsFit : Settings → Type 0
  TellsFit s = (s.configs ≡ c) ⊎ ((cs : Configs) × (s.configs ≡ some cs) × IsConfigs cs)

  http_end-Fine :
      (n : ℕ) (r : Told HttpDraft)
      → ToldFine IsHttp (λ s. s.configs ≡ c) n r
      → ToldFine (λ u. Unit) TellsFit n (http_end r)
  unfolding http_end TellsFit
  http_end-Fine n (done d, s, f) (h, e, l, k) =
      split-ToldFine _ TellsFit n (length d.configs == 0) _ _ (λ z. (inl e, l, k))
        (λ z.
          split-ToldFine _ TellsFit n (length d.server_name_set == length d.server_name_vec) _ _
            (λ q. (tt, inr (d.configs, refl, fit d h z q), l, k)) (λ q. (inl e, l, k)))
  http_end-Fine n (error x, s, f) (e, l, k) = (inl e, l, k)
  http_end-Fine n (aborted x, s, f) h = absurd h

  in_http-Fine :
      (n : ℕ) (s : Settings) (r : Reply (Unit {0}) × ConfigFile)
      → s.configs ≡ c
      → Fine Any n r
      → ToldFine (λ u. Unit) TellsFit n (in_http s r)
  unfolding in_http TellsFit
  in_http-Fine n s (done u, f) e (t, l, k) =
      ToldFine-le _ _ (left f) n (http_end (http_loop (rounds f) new_http s f)) l (
        http_end-Fine (left f) (http_loop (rounds f) new_http s f) (
          http_loop-Fine c (rounds f) new_http s f (ground arith)
            (tt, refl, inr (refl, tt, λ x. refl)) e k))
  in_http-Fine n s (error x, f) e (l, k) = (inl e, l, k)
  in_http-Fine n s (aborted x, f) e h = absurd h

  at_end-Fine :
      (n : ℕ) (s : Settings) (r : Line × ConfigFile)
      → TellsFit s
      → IsSemantic (λ b. b ≢ 12) n r
      → ToldFine (λ u. Unit) TellsFit n (at_end s r)
  unfolding at_end
  at_end-Fine n s (ended [], f) t (l, k) = (tt, t, l, k)
  at_end-Fine n s (ended (b ∷ line), f) t (l, k) = (t, l, k)
  at_end-Fine n s (got [], f) t h = absurd h
  at_end-Fine n s (got (b ∷ line), f) t (l, w, a, k) = (t, omega arith, k)
  at_end-Fine n s (failed, f) t (l, k) = (t, l, k)
  at_end-Fine n s (stuck, f) t h = absurd h

  behind_http-Fine :
      (n : ℕ) (r : Told (Unit {0}))
      → ToldFine (λ u. Unit) TellsFit n r
      → ToldFine (λ u. Unit) TellsFit n (behind_http r)
  unfolding behind_http
  behind_http-Fine n (done u, s, f) (t, e, l, k) =
      ToldFine-le _ _ (left f) n (at_end s (get_semantic_line f)) l (
        at_end-Fine (left f) s (get_semantic_line f) e
          (get_semantic_line-IsSemantic (λ b. b ≢ 12) f k))
  behind_http-Fine n (error x, s, f) (e, l, k) =
      ToldFine-le _ _ (left f) n (at_end s (get_semantic_line f)) l (
        at_end-Fine (left f) s (get_semantic_line f) e
          (get_semantic_line-IsSemantic (λ b. b ≢ 12) f k))
  behind_http-Fine n (aborted x, s, f) h = absurd h

  set_data-Fine :
      (is_used is_open : Bool) (s : Settings) (f : ConfigFile)
      → s.configs ≡ c
      → NoFormFeed f.rest
      → ToldFine (λ u. Unit) TellsFit (left f) (set_data is_used is_open s f)
  unfolding set_data http_block TellsFit
  set_data-Fine is_used is_open s f e k =
      if-ToldFine _ TellsFit (left f) is_used _ _ (inl e, omega arith, k)
        (if-ToldFine _ TellsFit (left f) is_open _ _
          (behind_http-Fine (left f) (http_block s f) (
            in_http-Fine (left f) s (get_into_block (codes "http") [] f) e
              (get_into_block-Fine (codes "http") [] f tt k)))
          (inl e, omega arith, k))

-- Whatever the file holds, but for form feeds: `setData` comes to an end with OK or ERROR. No loop goes
-- on without end, no assert fails, and no word is read that is not in its line.
pub set_data-Sound :
    (is_used is_open : Bool) (s : Settings) (f : ConfigFile)
    → NoFormFeed f.rest
    → Sound (λ u. Unit) (set_data is_used is_open s f).0
set_data-Sound is_used is_open s f k =
    ended_fine (set_data is_used is_open s f) (set_data-Fine s.configs is_used is_open s f refl k)
  where
    ended_fine :
        (r : Told (Unit {0}))
        → ToldFine (λ u. Unit) (TellsFit s.configs) (left f) r
        → Sound (λ u. Unit) r.0
    ended_fine (done u, t, g) h = tt
    ended_fine (error x, t, g) h = tt
    ended_fine (aborted x, t, g) h = h

-- If a file without form feeds makes `setData` hand over servers, to a manager that had none: there is at
-- least one; no two have the same name; each has a name and at least one location, each of which
-- allows a method and none but GET, POST and DELETE; each listens on at least one port; and ports and
-- body limits fit their types.
pub set_data-IsConfigs :
    (is_used is_open : Bool) (s : Settings) (f : ConfigFile) (cs : Configs)
    → NoFormFeed f.rest
    → s.configs ≡ none
    → (set_data is_used is_open s f).1.configs ≡ some cs
    → IsConfigs cs
unfolding TellsFit
set_data-IsConfigs is_used is_open s f cs k e q =
    told_fine (set_data is_used is_open s f) (set_data-Fine none is_used is_open s f e k) q
  where
    by_told : (t : Settings) → TellsFit none t → t.configs ≡ some cs → IsConfigs cs
    by_told t (inl x) y = cc
    by_told t (inr (ds, x, h)) y = subst IsConfigs (some_eq ds cs (sym x ∙ y)) h

    told_fine :
        (r : Told (Unit {0}))
        → ToldFine (λ u. Unit) (TellsFit none) (left f) r
        → r.1.configs ≡ some cs
        → IsConfigs cs
    told_fine (done u, t, g) h y = by_told t h.1 y
    told_fine (error x, t, g) h y = by_told t h.0 y
    told_fine (aborted x, t, g) h y = absurd h

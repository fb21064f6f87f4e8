-- ===== src/ServerManager/Tables/Fit.antt =====
-- What it means for the tables of src/ServerManager.cpp to fit: a descriptor that stands for a port has its manager, one that stands
-- for a client its client, if that was not dropped, and one that stands for a resource a pointer.
use lazy_team.Base.{
  ℕ, zero, suc, List, [], ◌∷◌, Bool, true, false, if◌then◌else◌, Option, none, some, ◌≡◌, ◌≢◌, ◌⊎◌,
  inl, inr, refl, subst, sym, arith, Bool-cases, ◌==◌,
}
use lazy_team.Webserv.{FdType, blank, port_fd, client_fd, resource_fd, std_out_err_fd, cgi_input}
use lazy_team.ServerManager.State.{Slot, null, freed, live, Port, Guest, Re3Ref, ServerManager}
use lazy_team.ServerManager.Tables.{set_at, get, placed, free_slot, free_owned}
use lazy_team.ServerManager.Tables.Entries.{
  get-set_at, get-set_at_other, Kept, get-placed, get-placed-Kept,
}

-- An object that was not deleted.
abbrev pub IsThere {ℓ} : {A : Type ℓ} → Option (Slot A) → Type 0
IsThere (some (live x)) = Unit
IsThere _ = ⊥

-- A pointer to an object that was deleted.
abbrev pub IsFreed {ℓ} : {A : Type ℓ} → Option (Slot A) → Type 0
IsFreed (some freed) = Unit
IsFreed _ = ⊥

-- A pointer that is not NULL.
abbrev pub IsPut {ℓ} : {A : Type ℓ} → Option (Slot A) → Type 0
IsPut (some (live x)) = Unit
IsPut (some freed) = Unit
IsPut _ = ⊥

-- A client that is there, or that was deleted, if `G`.
abbrev pub Held : Type 0 → Option (Slot Guest) → Type 0
Held G c = IsThere c ⊎ (G × IsFreed c)

-- The entries of one descriptor in the four tables.
abbrev pub Entry :
    Type 0
    → Option FdType
    → Option (Slot Port)
    → Option (Slot Guest)
    → Option (Slot Re3Ref)
    → Type 0
Entry G (some port_fd) p c r = IsThere p
Entry G (some client_fd) p c r = Held G c
Entry G (some resource_fd) p c r = IsPut r
Entry G _ p c r = Unit

-- The descriptor is in the list of those whose clients were dropped.
abbrev pub IsGone : ℕ → List ℕ → Type 0
IsGone fd [] = ⊥
IsGone fd (x ∷ xs) = (fd ≡ x) ⊎ IsGone fd xs

abbrev pub FitAt :
    List ℕ → ℕ → List FdType → List (Slot Port) → List (Slot Guest) → List (Slot Re3Ref) → Type 0
FitAt gone fd ts ps cs rs = Entry (IsGone fd gone) (get ts fd) (get ps fd) (get cs fd) (get rs fd)

abbrev pub IsFit : List ℕ → ServerManager → Type 0
IsFit gone m = (fd : ℕ) → FitAt gone fd m.types m.managers m.clients m.re3s

module _ {A : Type 0} (P : Option (Slot A) → Type 0) (h : ¬ (P none)) where
  Kept-holds : (old new : Option (Slot A)) → Kept null old new → P old → P new
  Kept-holds old new (inl e) k = subst P (sym e) k
  Kept-holds old new (inr (o, e)) k = absurd (h (subst P o k))

-- New entries of types are blank.
Entry-next :
    (G G' : Type 0) (t t' : Option FdType) (p p' : Option (Slot Port)) (c c' : Option (Slot Guest))
    (r r' : Option (Slot Re3Ref))
    → Kept blank t t'
    → (IsThere p → IsThere p')
    → (Held G c → Held G' c')
    → (IsPut r → IsPut r')
    → Entry G t p c r
    → Entry G' t' p' c' r'
Entry-next G G' t t' p p' c c' r r' (inr (o, e)) kp kc kr h =
    subst (λ x. Entry G' x p' c' r') (sym e) tt
Entry-next G G' t t' p p' c c' r r' (inl e) kp kc kr h =
    subst (λ x. Entry G' x p' c' r') (sym e) (go t h)
  where
    go : (t : Option FdType) → Entry G t p c r → Entry G' t p' c' r'
    go none h = tt
    go (some blank) h = tt
    go (some port_fd) h = kp h
    go (some client_fd) h = kc h
    go (some resource_fd) h = kr h
    go (some std_out_err_fd) h = tt
    go (some cgi_input) h = tt

same_or_not : (a b : ℕ) → (a ≡ b) ⊎ (a ≢ b)
same_or_not a b = elim (Bool-cases (a == b)) [
  | inl e ↦ inl (ground arith)
  | inr e ↦ inr (λ h. ground arith)
]

-- What one table keeps for a descriptor that a change does not concern.
module _ (fd i : ℕ) (n : fd ≢ i) where
  placed-IsThere :
      (p : Port) (ps : List (Slot Port))
      → IsThere (get ps i)
      → IsThere (get (placed fd (live p) null ps) i)
  placed-IsThere p ps =
      Kept-holds (λ (o : Option (Slot Port)). IsThere o) (λ b. b) (get ps i) _
        (get-placed-Kept fd i (live p) null ps n)

  placed-Held :
      (G : Type 0) (g : Guest) (cs : List (Slot Guest))
      → Held G (get cs i)
      → Held G (get (placed fd (live g) null cs) i)
  placed-Held G g cs =
      Kept-holds (λ o. Held G o) (λ b. elim b [ inl x ↦ x | inr (y, x) ↦ x ]) (get cs i) _
        (get-placed-Kept fd i (live g) null cs n)

  placed-IsPut :
      (x : Re3Ref) (rs : List (Slot Re3Ref))
      → IsPut (get rs i)
      → IsPut (get (placed fd (live x) null rs) i)
  placed-IsPut x rs =
      Kept-holds (λ (o : Option (Slot Re3Ref)). IsPut o) (λ b. b) (get rs i) _
        (get-placed-Kept fd i (live x) null rs n)

  set_at-Held :
      (G : Type 0) (g : Slot Guest) (cs : List (Slot Guest))
      → Held G (get cs i)
      → Held G (get (set_at fd g cs) i)
  set_at-Held G g cs h = subst (λ o. Held G o) (sym (get-set_at_other fd i g cs n)) h

-- Destroyed transactions leave pointers that are not NULL.
pub get-free_owned-IsPut :
    (o i : ℕ) (rs : List (Slot Re3Ref)) → IsPut (get rs i) → IsPut (get (free_owned o rs) i)
unfolding get free_owned free_slot
get-free_owned-IsPut o i [] h = absurd h
get-free_owned-IsPut o zero (null ∷ rs) h = absurd h
get-free_owned-IsPut o zero (freed ∷ rs) h = tt
get-free_owned-IsPut o zero (live x ∷ rs) h = go (x.owner == o)
  where
    go : (b : Bool) → IsPut (some (if b then freed else live x))
    go true = tt
    go false = tt
get-free_owned-IsPut o (suc i) (x ∷ rs) h = get-free_owned-IsPut o i rs h

-- A change at one descriptor.
module _ (fd : ℕ) (gone : List ℕ) (m : ServerManager) (fit : IsFit gone m) where
  pub guest-IsFit :
      (g : Guest)
      → IsFit gone (record m {
        types = placed fd client_fd blank m.types;
        clients = placed fd (live g) null m.clients;
      })
  guest-IsFit g i = elim (same_or_not fd i) [
    | inl e ↦
        subst
          (λ j.
            FitAt gone j (placed fd client_fd blank m.types) m.managers
              (placed fd (live g) null m.clients) m.re3s)
          e
          (subst
            (λ t.
              Entry (IsGone fd gone) t (get m.managers fd)
                (get (placed fd (live g) null m.clients) fd) (get m.re3s fd))
            (sym (get-placed fd client_fd blank m.types))
            (inl (subst IsThere (sym (get-placed fd (live g) null m.clients)) tt)))
    | inr n ↦
        Entry-next (IsGone i gone) (IsGone i gone) (get m.types i) _ (get m.managers i) _
          (get m.clients i) _ (get m.re3s i) _ (get-placed-Kept fd i client_fd blank m.types n)
          (λ h. h) (placed-Held fd i n (IsGone i gone) g m.clients) (λ h. h) (fit i)
  ]

  pub port-IsFit :
      (p : Port)
      → IsFit gone (record m {
        types = placed fd port_fd blank m.types;
        managers = placed fd (live p) null m.managers;
      })
  port-IsFit p i = elim (same_or_not fd i) [
    | inl e ↦
        subst
          (λ j.
            FitAt gone j (placed fd port_fd blank m.types) (placed fd (live p) null m.managers)
              m.clients m.re3s)
          e
          (subst
            (λ t.
              Entry (IsGone fd gone) t (get (placed fd (live p) null m.managers) fd)
                (get m.clients fd) (get m.re3s fd))
            (sym (get-placed fd port_fd blank m.types))
            (subst IsThere (sym (get-placed fd (live p) null m.managers)) tt))
    | inr n ↦
        Entry-next (IsGone i gone) (IsGone i gone) (get m.types i) _ (get m.managers i) _
          (get m.clients i) _ (get m.re3s i) _ (get-placed-Kept fd i port_fd blank m.types n)
          (placed-IsThere fd i n p m.managers) (λ h. h) (λ h. h) (fit i)
  ]

  pub re3-IsFit :
      (r : Re3Ref)
      → IsFit gone (record m {
        types = placed fd resource_fd blank m.types;
        re3s = placed fd (live r) null m.re3s;
      })
  re3-IsFit r i = elim (same_or_not fd i) [
    | inl e ↦
        subst
          (λ j.
            FitAt gone j (placed fd resource_fd blank m.types) m.managers m.clients
              (placed fd (live r) null m.re3s))
          e
          (subst
            (λ t.
              Entry (IsGone fd gone) t (get m.managers fd) (get m.clients fd)
                (get (placed fd (live r) null m.re3s) fd))
            (sym (get-placed fd resource_fd blank m.types))
            (subst IsPut (sym (get-placed fd (live r) null m.re3s)) tt))
    | inr n ↦
        Entry-next (IsGone i gone) (IsGone i gone) (get m.types i) _ (get m.managers i) _
          (get m.clients i) _ (get m.re3s i) _ (get-placed-Kept fd i resource_fd blank m.types n)
          (λ h. h) (λ h. h) (placed-IsPut fd i n r m.re3s) (fit i)
  ]

  -- A client's object changes in its place.
  pub again-IsFit :
      (g h : Guest)
      → get m.clients fd ≡ some (live g)
      → IsFit gone (record m { clients = set_at fd (live h) m.clients })
  again-IsFit g h e i = elim (same_or_not fd i) [
    | inl s ↦
        subst (λ j. FitAt gone j m.types m.managers (set_at fd (live h) m.clients) m.re3s) s
          (Entry-next (IsGone fd gone) (IsGone fd gone) (get m.types fd) _ (get m.managers fd) _
            (get m.clients fd) _ (get m.re3s fd) _ (inl refl) (λ x. x)
            (λ x. inl (subst IsThere (sym (get-set_at fd (live h) (live g) m.clients e)) tt))
            (λ x. x) (fit fd))
    | inr n ↦
        Entry-next (IsGone i gone) (IsGone i gone) (get m.types i) _ (get m.managers i) _
          (get m.clients i) _ (get m.re3s i) _ (inl refl) (λ x. x)
          (set_at-Held fd i n (IsGone i gone) (live h) m.clients) (λ x. x) (fit i)
  ]

  -- A client is deleted and its descriptor keeps its type.
  pub drop-IsFit :
      (g : Guest) (o : ℕ)
      → get m.clients fd ≡ some (live g)
      → IsFit
          (fd ∷ gone)
          (record m { clients = set_at fd freed m.clients; re3s = free_owned o m.re3s })
  drop-IsFit g o e i = elim (same_or_not fd i) [
    | inl s ↦
        subst
          (λ j.
            FitAt (fd ∷ gone) j m.types m.managers (set_at fd freed m.clients)
              (free_owned o m.re3s))
          s
          (Entry-next (IsGone fd gone) (IsGone fd (fd ∷ gone)) (get m.types fd) _
            (get m.managers fd) _ (get m.clients fd) _ (get m.re3s fd) _ (inl refl) (λ x. x)
            (λ x. inr (inl refl, subst IsFreed (sym (get-set_at fd freed (live g) m.clients e)) tt))
            (get-free_owned-IsPut o fd m.re3s) (fit fd))
    | inr n ↦
        Entry-next (IsGone i gone) (IsGone i (fd ∷ gone)) (get m.types i) _ (get m.managers i) _
          (get m.clients i) _ (get m.re3s i) _ (inl refl) (λ x. x)
          (λ x.
            set_at-Held fd i n (IsGone i (fd ∷ gone)) freed m.clients
              (elim x [ inl y ↦ inl y | inr (y, z) ↦ inr (inr y, z) ]))
          (get-free_owned-IsPut o i m.re3s) (fit i)
  ]

  -- A descriptor that is blank, whatever its own pointers become.
  pub blank-IsFit :
      (t : FdType) (ps : List (Slot Port)) (cs : List (Slot Guest)) (rs : List (Slot Re3Ref))
      → get m.types fd ≡ some t
      → ((i : ℕ) → fd ≢ i → get ps i ≡ get m.managers i)
      → ((i : ℕ) → fd ≢ i → get cs i ≡ get m.clients i)
      → ((i : ℕ) → IsPut (get m.re3s i) → IsPut (get rs i))
      → IsFit gone
          (record m { types = set_at fd blank m.types; managers = ps; clients = cs; re3s = rs })
  blank-IsFit t ps cs rs e hp hc hr i = elim (same_or_not fd i) [
    | inl s ↦
        subst (λ j. FitAt gone j (set_at fd blank m.types) ps cs rs) s
          (subst (λ t. Entry (IsGone fd gone) t (get ps fd) (get cs fd) (get rs fd))
            (sym (get-set_at fd blank t m.types e)) tt)
    | inr n ↦
        Entry-next (IsGone i gone) (IsGone i gone) (get m.types i) _ (get m.managers i) _
          (get m.clients i) _ (get m.re3s i) _ (inl (get-set_at_other fd i blank m.types n))
          (λ x. subst IsThere (sym (hp i n)) x)
          (λ x. subst (λ o. Held (IsGone i gone) o) (sym (hc i n)) x) (hr i) (fit i)
  ]

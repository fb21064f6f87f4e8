-- ===== src/ServerManager/Tables/Destroyed.antt =====
-- The destructor of src/ServerManager.cpp on tables that fit, with no client dropped.
use lazy_team.Base.{
  ℕ, suc, ◌+◌, List, [], ◌∷◌, Option, none, some, inl, inr, ◌≡◌, ◌≢◌, refl, subst, sym, arith,
  Outcome, ok, fault, out_of_range, null_pointer, ◌>>=◌,
}
use lazy_team.Webserv.{FdType, blank, port_fd, client_fd, resource_fd, std_out_err_fd, cgi_input}
use lazy_team.ServerManager.State.{
  Slot, null, freed, live, Port, Guest, Re3Ref, ServerManager, Sockets,
}
use lazy_team.ServerManager.Tables.{
  set_at, get, free_owned, delete, delete_manager, destroy_at, destroy_from, destroy,
}
use lazy_team.ServerManager.Tables.Entries.{get-set_at_other}
use lazy_team.ServerManager.Tables.Fit.{IsThere, Entry, IsFit}

-- It comes to a value with the property.
abbrev pub Yields : {A : Type 0} → (A → Type 0) → Outcome A → Type 0
Yields P (ok a) = P a
Yields P (fault e) = ⊥

Yields-bind :
    {A B : Type 0} (P : A → Type 0) (Q : B → Type 0) (o : Outcome A) (f : A → Outcome B)
    → Yields P o
    → ((a : A) → P a → Yields Q (f a))
    → Yields Q (o >>= f)
Yields-bind P Q (ok a) f h k = k a h
Yields-bind P Q (fault e) f h k = absurd h

-- One table is changed at one descriptor only.
abbrev Same : {A : Type 0} → ℕ → List A → List A → Type 0
Same k xs ys = (i : ℕ) → k ≢ i → get ys i ≡ get xs i

delete-Yields :
    (k : ℕ) (cs : List (Slot Guest)) (rs : List (Slot Re3Ref))
    → IsThere (get cs k)
    → Yields (λ (r : List (Slot Guest) × List (Slot Re3Ref)). Same k cs r.0) (delete cs rs k)
unfolding delete
delete-Yields k cs rs h = go (get cs k) h
  where
    go :
        (o : Option (Slot Guest))
        → IsThere o
        → Yields
            (λ (r : List (Slot Guest) × List (Slot Re3Ref)). Same k cs r.0)
            (elim o as (λ o. Outcome (List (Slot Guest) × List (Slot Re3Ref))) [
              | none ↦ fault out_of_range
              | some null ↦ ok (cs, rs)
              | some freed ↦ fault null_pointer
              | some (live c) ↦ ok (set_at k freed cs, free_owned c.client.client_fd rs)
            ])
    go (some (live c)) h = λ i n. get-set_at_other k i freed cs n
    go (some null) h = absurd h
    go (some freed) h = absurd h
    go none h = absurd h

delete_manager-Yields :
    (k : ℕ) (ps : List (Slot Port))
    → IsThere (get ps k)
    → Yields (λ (qs : List (Slot Port)). Same k ps qs) (delete_manager ps k)
unfolding delete_manager
delete_manager-Yields k ps h = go (get ps k) h
  where
    go :
        (o : Option (Slot Port))
        → IsThere o
        → Yields
            (λ (qs : List (Slot Port)). Same k ps qs)
            (elim o [
              | none ↦ fault out_of_range
              | some null ↦ ok ps
              | some freed ↦ fault null_pointer
              | some (live p) ↦ ok (set_at k freed ps)
            ])
    go (some (live p)) h = λ i n. get-set_at_other k i freed ps n
    go (some null) h = absurd h
    go (some freed) h = absurd h
    go none h = absurd h

plus_zero : (k : ℕ) → k + 0 ≡ k
plus_zero k = omega arith

zero_plus : (i : ℕ) → i ≡ 0 + i
zero_plus i = omega arith

plus_suc : (k i : ℕ) → k + suc i ≡ suc k + i
plus_suc k i = omega arith

-- The object that the destructor deletes for a descriptor.
abbrev Owned : Option FdType → Option (Slot Port) → Option (Slot Guest) → Type 0
Owned (some port_fd) p c = IsThere p
Owned (some client_fd) p c = IsThere c
Owned _ p c = Unit

Entry-Owned :
    (t : Option FdType) (p : Option (Slot Port)) (c : Option (Slot Guest))
    (r : Option (Slot Re3Ref))
    → Entry ⊥ t p c r
    → Owned t p c
Entry-Owned none p c r h = tt
Entry-Owned (some blank) p c r h = tt
Entry-Owned (some port_fd) p c r h = h
Entry-Owned (some client_fd) p c r h = elim h [ inl x ↦ x | inr (g, x) ↦ absurd g ]
Entry-Owned (some resource_fd) p c r h = tt
Entry-Owned (some std_out_err_fd) p c r h = tt
Entry-Owned (some cgi_input) p c r h = tt

module _ {S : Type 0} (net : Sockets S) where
  -- What a round leaves for the others.
  abbrev Others : ℕ → ServerManager → ServerManager × S → Type 0
  Others k m r = Same k m.managers r.0.managers × Same k m.clients r.0.clients

  destroy_at-Yields :
      (t : FdType) (k : ℕ) (m : ServerManager) (s : S)
      → Owned (some t) (get m.managers k) (get m.clients k)
      → Yields (Others k m) (destroy_at net t k m s)
  unfolding destroy_at
  destroy_at-Yields port_fd k m s h =
      Yields-bind (λ (qs : List (Slot Port)). Same k m.managers qs) (Others k m)
        (delete_manager m.managers k) _ (delete_manager-Yields k m.managers h)
        (λ qs e. (e, (λ i n. refl)))
  destroy_at-Yields client_fd k m s h =
      Yields-bind (λ (r : List (Slot Guest) × List (Slot Re3Ref)). Same k m.clients r.0)
        (Others k m) (delete m.clients m.re3s k) _ (delete-Yields k m.clients m.re3s h)
        (λ ds e. ((λ i n. refl), e))
  destroy_at-Yields blank k m s h = ((λ i n. refl), (λ i n. refl))
  destroy_at-Yields resource_fd k m s h = ((λ i n. refl), (λ i n. refl))
  destroy_at-Yields std_out_err_fd k m s h = ((λ i n. refl), (λ i n. refl))
  destroy_at-Yields cgi_input k m s h = ((λ i n. refl), (λ i n. refl))

  -- The descriptors from `k` on, whose types are `ts`, have their objects.
  abbrev OwnedFrom : ℕ → List FdType → ServerManager → Type 0
  OwnedFrom k ts m = (i : ℕ) → Owned (get ts i) (get m.managers (k + i)) (get m.clients (k + i))

  OwnedFrom-next :
      (t : FdType) (k : ℕ) (ts : List FdType) (m : ServerManager) (r : ServerManager × S)
      → OwnedFrom k (t ∷ ts) m
      → Others k m r
      → OwnedFrom (suc k) ts r.0
  unfolding get
  OwnedFrom-next t k ts m r h (p, c) i =
      let n : k ≢ suc k + i = λ z. absurd (omega arith) in
      let old =
        subst (λ j. Owned (get ts i) (get m.managers j) (get m.clients j)) (plus_suc k i)
          (h (suc i)) in
      subst (λ o. Owned (get ts i) o (get r.0.clients (suc k + i))) (sym (p (suc k + i) n))
        (subst (λ o. Owned (get ts i) (get m.managers (suc k + i)) o) (sym (c (suc k + i) n)) old)

  destroy_from-Yields :
      (ts : List FdType) (k : ℕ) (m : ServerManager) (s : S)
      → OwnedFrom k ts m
      → Yields (λ r. Unit) (destroy_from net ts k m s)
  unfolding destroy_from get
  destroy_from-Yields [] k m s h = tt
  destroy_from-Yields (t ∷ ts) k m s h =
      Yields-bind (Others k m) (λ r. Unit) (destroy_at net t k m s) _
        (destroy_at-Yields t k m s
          (subst (λ j. Owned (some t) (get m.managers j) (get m.clients j)) (plus_zero k) (h 0)))
        (λ r o. destroy_from-Yields ts (suc k) r.0 r.1 (OwnedFrom-next t k ts m r h o))

  -- If the tables fit and no client was dropped, the destructor comes to its end: it deletes no object twice.
  pub destroy-Yields :
      (m : ServerManager) (s : S) → IsFit [] m → Yields (λ r. Unit) (destroy net m s)
  unfolding destroy
  destroy-Yields m s h = destroy_from-Yields m.types 0 m s (λ i.
      subst (λ j. Owned (get m.types i) (get m.managers j) (get m.clients j)) (zero_plus i)
        (Entry-Owned (get m.types i) _ _ (get m.re3s i) (h i)))

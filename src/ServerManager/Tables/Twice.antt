-- ===== src/ServerManager/Tables/Twice.antt =====
-- What is left in the tables of src/ServerManager.cpp behind a deleted client: a pointer to the client that keeps
-- its type, and pointers to its transactions.
use lazy_team.Base.{
  ℕ, zero, suc, ◌+◌, List, [], ◌∷◌, Option, none, some, ◌≡◌, ◌≢◌, refl, sym, subst, ap, ◌∙◌, arith,
  Outcome, ok, fault, out_of_range, null_pointer, ◌>>=◌,
}
use lazy_team.Webserv.{FdType, blank, port_fd, client_fd, resource_fd, std_out_err_fd, cgi_input}
use lazy_team.System.{World}
use lazy_team.ServerManager.State.{Slot, null, freed, live, Guest, Re3Ref, ServerManager, Sockets}
use lazy_team.ServerManager.Tables.{
  set_at, get, free_slot, free_owned, delete, delete_manager, blanked, client_socket_close,
  drop_client, destroy_at, destroy_from, destroy,
}
use lazy_team.ServerManager.Tables.Entries.{get-set_at, get-set_at_other}
use lazy_team.ServerManager.Tables.Keeps.{
  Gives, Gives-any, Gives-bind, Gives-ok, delete-Gives, Left,
}

-- It comes to no value.
abbrev pub Faults : {A : Type 0} → Outcome A → Type 0
Faults (ok a) = ⊥
Faults (fault e) = Unit

bind-Faults :
    {A B : Type 0} (P : A → Type 0) (o : Outcome A) (f : A → Outcome B)
    → Gives P o
    → ((a : A) → P a → Faults (f a))
    → Faults (o >>= f)
bind-Faults P (ok a) f h k = k a h
bind-Faults P (fault e) f h k = tt

delete-freed :
    (cs : List (Slot Guest)) (rs : List (Slot Re3Ref)) (fd : ℕ)
    → get cs fd ≡ some freed
    → delete cs rs fd ≡ fault null_pointer
unfolding delete
delete-freed cs rs fd e = rw (delete, e) refl

delete-live :
    (cs : List (Slot Guest)) (rs : List (Slot Re3Ref)) (fd : ℕ) (g : Guest)
    → get cs fd ≡ some (live g)
    → delete cs rs fd ≡ ok (set_at fd freed cs, free_owned g.client.client_fd rs)
unfolding delete
delete-live cs rs fd g e = rw (delete, e) refl

get-free_owned-owned :
    (o i : ℕ) (rs : List (Slot Re3Ref)) (x : Re3Ref)
    → get rs i ≡ some (live x)
    → x.owner ≡ o
    → get (free_owned o rs) i ≡ some freed
unfolding get free_owned free_slot
get-free_owned-owned o i [] x e h = cc
get-free_owned-owned o zero (null ∷ rs) x e h = cc
get-free_owned-owned o zero (freed ∷ rs) x e h = cc
get-free_owned-owned o zero (live y ∷ rs) x e h = ground arith
get-free_owned-owned o (suc i) (y ∷ rs) x e h = get-free_owned-owned o i rs x e h

module _ {S : Type 0} (net : Sockets S) where
  -- A round concerns one client.
  abbrev SameGuests : ℕ → ServerManager → ServerManager × S → Type 0
  SameGuests k m r = (i : ℕ) → k ≢ i → get r.0.clients i ≡ get m.clients i

  destroy_at-Gives :
      (t : FdType) (k : ℕ) (m : ServerManager) (s : S)
      → Gives (SameGuests k m) (destroy_at net t k m s)
  unfolding destroy_at
  destroy_at-Gives port_fd k m s =
      Gives-bind (λ ps. Unit) (SameGuests k m) (delete_manager m.managers k) _
        (Gives-any (delete_manager m.managers k)) (λ ps t i n. refl)
  destroy_at-Gives client_fd k m s =
      Gives-bind (Left k m.clients m.re3s) (SameGuests k m) (delete m.clients m.re3s k) _
        (delete-Gives k m.clients m.re3s) (λ ds l. l.0)
  destroy_at-Gives blank k m s = λ i n. refl
  destroy_at-Gives resource_fd k m s = λ i n. refl
  destroy_at-Gives std_out_err_fd k m s = λ i n. refl
  destroy_at-Gives cgi_input k m s = λ i n. refl

  destroy_at-freed :
      (t : FdType) (k : ℕ) (m : ServerManager) (s : S)
      → t ≡ client_fd
      → get m.clients k ≡ some freed
      → destroy_at net t k m s ≡ fault null_pointer
  unfolding destroy_at
  destroy_at-freed t k m s e h =
      subst (λ u. destroy_at net u k m s ≡ fault null_pointer) (sym e)
        (rw (delete-freed m.clients m.re3s k h) refl)

  destroy_from-Faults :
      (ts : List FdType) (k i : ℕ) (m : ServerManager) (s : S)
      → get ts i ≡ some client_fd
      → get m.clients (k + i) ≡ some freed
      → Faults (destroy_from net ts k m s)
  unfolding destroy_from get
  destroy_from-Faults [] k i m s e h = absurd cc
  destroy_from-Faults (t ∷ ts) k zero m s e h =
      let here : k + 0 ≡ k = omega arith in
      let same : t ≡ client_fd = cc in
      rw (destroy_at-freed t k m s same (subst (λ j. get m.clients j ≡ some freed) here h)) tt
  destroy_from-Faults (t ∷ ts) k (suc i) m s e h =
      let next : k + suc i ≡ suc k + i = omega arith in
      let n : k ≢ suc k + i = λ z. absurd (omega arith) in
      bind-Faults (SameGuests k m) (destroy_at net t k m s) _ (destroy_at-Gives t k m s) (λ r o.
        destroy_from-Faults ts (suc k) i r.0 r.1 e
          (o (suc k + i) n ∙ subst (λ j. get m.clients j ≡ some freed) next h))

  -- What `drop_client` leaves at the descriptor.
  abbrev Dangling : ℕ → ServerManager → ServerManager × World S → Type 0
  Dangling fd m r = (r.0.types ≡ m.types) × (get r.0.clients fd ≡ some freed)

  drop_client-Dangling :
      (fd : ℕ) (m : ServerManager) (w : World S) → Gives (Dangling fd m) (drop_client net fd m w)
  unfolding drop_client
  drop_client-Dangling fd m w = go (get m.clients fd) refl
    where
      go :
          (o : Option (Slot Guest))
          → get m.clients fd ≡ o
          → Gives (Dangling fd m) (elim o as (λ o. Outcome (ServerManager × World S)) [
            | none ↦ fault out_of_range
            | some null ↦ fault null_pointer
            | some freed ↦ fault null_pointer
            | some (live g) ↦ ok (
              record m {
                clients = set_at fd freed m.clients;
                re3s = free_owned g.client.client_fd m.re3s;
              },
              record w { system = net.close w.system g.client.client_fd },
            )
          ])
      go none e = tt
      go (some null) e = tt
      go (some freed) e = tt
      go (some (live g)) e = (refl, get-set_at fd freed (live g) m.clients e)

  -- From any state in which a descriptor stands for a client: if `clientReadEvent` drops the client because its
  -- request cannot be read, the destructor of the manager it leaves never comes to its end, but
  -- faults.
  pub drop_client-destroy :
      (fd : ℕ) (m : ServerManager) (w : World S) (r : ServerManager × World S) (s : S)
      → get m.types fd ≡ some client_fd
      → drop_client net fd m w ≡ ok r
      → Faults (destroy net r.0 s)
  unfolding destroy
  drop_client-destroy fd m w r s t e =
      let left : Dangling fd m r =
        Gives-ok (Dangling fd m) (drop_client net fd m w) r e (drop_client-Dangling fd m w) in
      destroy_from-Faults r.0.types 0 fd r.0 s (ap (λ (ts : List FdType). get ts fd) left.0 ∙ t)
        (subst (λ j. get r.0.clients j ≡ some freed) (zero_plus fd) left.1)
    where
      zero_plus : (i : ℕ) → i ≡ 0 + i
      zero_plus i = omega arith

  -- If `clientSocketClose` deletes a client while a resource of one of its transactions is open, it comes to its end,
  -- and the descriptor of the resource keeps its type with a pointer to a destroyed transaction.
  pub client_socket_close-resource :
      (fd i : ℕ) (m : ServerManager) (w : World S) (g : Guest) (x : Re3Ref)
      → get m.types fd ≡ some client_fd
      → get m.clients fd ≡ some (live g)
      → get m.types i ≡ some resource_fd
      → get m.re3s i ≡ some (live x)
      → x.owner ≡ g.client.client_fd
      → (r : ServerManager × World S) × (client_socket_close net fd m w ≡ ok r)
        × (get r.0.types i ≡ some resource_fd)
        × (get r.0.re3s i ≡ some freed)
  unfolding client_socket_close blanked
  client_socket_close-resource fd i m w g x t c u p o =
      let other : fd ≢ i = λ z. differ (sym t ∙ ap (λ (j : ℕ). get m.types j) z ∙ u) in
      (
        (
          record m {
            clients = set_at fd freed m.clients;
            re3s = free_owned g.client.client_fd m.re3s;
            types = set_at fd blank m.types;
          },
          record w { system = net.close w.system fd },
        ),
        rw (delete-live m.clients m.re3s fd g c, ◌>>=◌) (rw (t, ◌>>=◌) refl),
        get-set_at_other fd i blank m.types other ∙ u,
        get-free_owned-owned g.client.client_fd i m.re3s x p o,
      )
    where
      differ : some client_fd ≢ some resource_fd
      differ = λ e. cc

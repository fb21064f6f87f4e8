-- ===== src/ServerManager/Tables/Keeps.antt =====
-- What `makeClient`, `clientSocketClose` and the branches of `processEvent` of src/ServerManager.cpp that close or
-- delete a descriptor's object leave of tables that fit.
use lazy_team.Base.{
  ℕ, Bool, true, false, List, ◌∷◌, Option, none, some, ◌≡◌, ◌≢◌, inl, inr, refl, subst, sym, ◌∙◌,
  Outcome, ok, fault, out_of_range, null_pointer, ◌>>=◌, Option-cases,
}
use lazy_team.Webserv.{FdType, blank, Code, ok_code, error_code}
use lazy_team.Text.{codes}
use lazy_team.TermPrinter.{put_err}
use lazy_team.System.{World}
use lazy_team.ServerManager.State.{
  Slot, null, freed, live, Port, Guest, Re3Ref, ServerManager, Sockets,
}
use lazy_team.ServerManager.Tables.{
  set_at, get, set_event, delete, delete_manager, blanked, with_client, accepted, refused, send_set,
  recv_set, make_client, client_socket_close, close_resource, manager_of, port_event, port_error,
  client_error, drop_client, free_owned,
}
use lazy_team.ServerManager.Tables.Entries.{get-set_at_other}
use lazy_team.ServerManager.Tables.Fit.{
  IsPut, IsFit, guest-IsFit, blank-IsFit, drop-IsFit, get-free_owned-IsPut,
}

-- An outcome that is a value has the property.
abbrev pub Gives : {A : Type 0} → (A → Type 0) → Outcome A → Type 0
Gives P (ok a) = P a
Gives P (fault e) = Unit

pub Gives-any : {A : Type 0} (o : Outcome A) → Gives (λ a. Unit) o
Gives-any (ok a) = tt
Gives-any (fault e) = tt

pub Gives-bind :
    {A B : Type 0} (P : A → Type 0) (Q : B → Type 0) (o : Outcome A) (f : A → Outcome B)
    → Gives P o
    → ((a : A) → P a → Gives Q (f a))
    → Gives Q (o >>= f)
Gives-bind P Q (ok a) f h k = k a h
Gives-bind P Q (fault e) f h k = tt

pub Gives-ok : {A : Type 0} (P : A → Type 0) (o : Outcome A) (a : A) → o ≡ ok a → Gives P o → P a
Gives-ok P o a e h = subst (Gives P) e h

-- What is left of the two tables behind the deletion of a client.
abbrev pub Left :
    ℕ → List (Slot Guest) → List (Slot Re3Ref) → List (Slot Guest) × List (Slot Re3Ref) → Type 0
Left fd cs rs r =
    ((i : ℕ) → fd ≢ i → get r.0 i ≡ get cs i) × ((i : ℕ) → IsPut (get rs i) → IsPut (get r.1 i))

-- What is deleted or blanked concerns one descriptor.
pub delete-Gives :
    (fd : ℕ) (cs : List (Slot Guest)) (rs : List (Slot Re3Ref))
    → Gives (Left fd cs rs) (delete cs rs fd)
unfolding delete
delete-Gives fd cs rs = go (get cs fd)
  where
    go :
        (o : Option (Slot Guest))
        → Gives (Left fd cs rs) (elim o as (λ o. Outcome (List (Slot Guest) × List (Slot Re3Ref))) [
          | none ↦ fault out_of_range
          | some null ↦ ok (cs, rs)
          | some freed ↦ fault null_pointer
          | some (live c) ↦ ok (set_at fd freed cs, free_owned c.client.client_fd rs)
        ])
    go none = tt
    go (some null) = ((λ i n. refl), (λ i h. h))
    go (some freed) = tt
    go (some (live c)) =
        ((λ i n. get-set_at_other fd i freed cs n), (λ i h. get-free_owned-IsPut _ i rs h))

delete_manager-Gives :
    (fd : ℕ) (ps : List (Slot Port))
    → Gives
        (λ (qs : List (Slot Port)). (i : ℕ) → fd ≢ i → get qs i ≡ get ps i)
        (delete_manager ps fd)
unfolding delete_manager
delete_manager-Gives fd ps = go (get ps fd)
  where
    go :
        (o : Option (Slot Port))
        → Gives
            (λ (qs : List (Slot Port)). (i : ℕ) → fd ≢ i → get qs i ≡ get ps i)
            (elim o [
              | none ↦ fault out_of_range
              | some null ↦ ok ps
              | some freed ↦ fault null_pointer
              | some (live c) ↦ ok (set_at fd freed ps)
            ])
    go none = tt
    go (some null) = λ i n. refl
    go (some freed) = tt
    go (some (live c)) = λ i n. get-set_at_other fd i freed ps n

blanked-Gives :
    (fd : ℕ) (ts : List FdType)
    → Gives
        (λ (us : List FdType). (us ≡ set_at fd blank ts) × ((t : FdType) × (get ts fd ≡ some t)))
        (blanked ts fd)
unfolding blanked
blanked-Gives fd ts = elim (Option-cases (get ts fd)) [
  | inl e ↦ rw (blanked, e) tt
  | inr (t, e) ↦ rw (blanked, e) (refl, (t, refl))
]

module _ {S : Type 0} (net : Sockets S) where
  abbrev pub Fine : List ℕ → ServerManager × World S → Type 0
  Fine gone r = IsFit gone r.0

  module _ (gone : List ℕ) where
    accepted-Gives :
        (p : Port) (m : ServerManager) (w : World S) (fd : Option ℕ)
        → IsFit gone m
        → Gives (λ (r : Code × ServerManager × World S). IsFit gone r.1) (accepted net p m w fd)
    unfolding accepted with_client set_event
    accepted-Gives p m w none h = tt
    accepted-Gives p m w (some fd) h = guest-IsFit fd gone m h _

    send_set-Gives :
        (p : Port) (m : ServerManager) (w : World S) (fd : Option ℕ) (r : Bool × S)
        → IsFit gone m
        → Gives (λ (r : Code × ServerManager × World S). IsFit gone r.1) (send_set net p m w fd r)
    unfolding send_set refused
    send_set-Gives p m w fd (true, s) h = accepted-Gives p m (record w { system = s }) fd h
    send_set-Gives p m w fd (false, s) h = h

    recv_set-Gives :
        (p : Port) (m : ServerManager) (w : World S) (fd : Option ℕ) (r : Bool × S)
        → IsFit gone m
        → Gives (λ (r : Code × ServerManager × World S). IsFit gone r.1) (recv_set net p m w fd r)
    unfolding recv_set refused
    recv_set-Gives p m w fd (true, s) h =
        send_set-Gives p m w fd (net.set_send s fd m.send_timeout) h
    recv_set-Gives p m w fd (false, s) h = h

    pub port_event-Gives :
        (fd : ℕ) (m : ServerManager) (w : World S)
        → IsFit gone m
        → Gives (Fine gone) (port_event net fd m w)
    unfolding port_event make_client
    port_event-Gives fd m w h =
        Gives-bind (λ p. Unit) (Fine gone) (manager_of net m.managers fd) _
          (Gives-any (manager_of net m.managers fd))
          (λ p t.
            Gives-bind (λ (r : Code × ServerManager × World S). IsFit gone r.1) (Fine gone)
              (make_client net p m w) _ (recv_set-Gives p m w _ _ h) (λ r k. by_code r.0 r.1 r.2 k))
      where
        by_code :
            (c : Code) (n : ServerManager) (v : World S)
            → IsFit gone n
            → IsFit gone (
                (elim c as (λ c. ServerManager × World S) [
                  | ok_code ↦ (n, v)
                  | error_code ↦
                      (n, record v { terminal = (put_err v.terminal (codes "Recv error\n")).0 })
                ]).0)
        by_code ok_code n v k = k
        by_code error_code n v k = k

    pub client_socket_close-Gives :
        (fd : ℕ) (m : ServerManager) (w : World S)
        → IsFit gone m
        → Gives (Fine gone) (client_socket_close net fd m w)
    unfolding client_socket_close
    client_socket_close-Gives fd m w h =
        Gives-bind (Left fd m.clients m.re3s) (Fine gone) (delete m.clients m.re3s fd) _
          (delete-Gives fd m.clients m.re3s)
          (λ ds k.
            Gives-bind
              (λ (us : List FdType).
                (us ≡ set_at fd blank m.types) × ((t : FdType) × (get m.types fd ≡ some t)))
              (Fine gone) (blanked m.types fd) _ (blanked-Gives fd m.types)
              (λ us e.
                subst (λ ts. IsFit gone (record m { types = ts; clients = ds.0; re3s = ds.1 }))
                  (sym e.0)
                  (blank-IsFit fd gone m h e.1.0 m.managers ds.0 ds.1 e.1.1 (λ i n. refl) k.0 k.1)))

    pub close_resource-Gives :
        (fd : ℕ) (m : ServerManager) (w : World S)
        → IsFit gone m
        → Gives (Fine gone) (close_resource net fd m w)
    unfolding close_resource
    close_resource-Gives fd m w h =
        Gives-bind
          (λ (us : List FdType).
            (us ≡ set_at fd blank m.types) × ((t : FdType) × (get m.types fd ≡ some t)))
          (Fine gone) (blanked m.types fd) _ (blanked-Gives fd m.types)
          (λ us e.
            subst (λ ts. IsFit gone (record m { types = ts })) (sym e.0)
              (blank-IsFit fd gone m h e.1.0 m.managers m.clients m.re3s e.1.1 (λ i n. refl)
                (λ i n. refl) (λ i k. k)))

    pub port_error-Gives :
        (fd : ℕ) (m : ServerManager) (w : World S)
        → IsFit gone m
        → Gives (Fine gone) (port_error net fd m w)
    unfolding port_error
    port_error-Gives fd m w h =
        Gives-bind (λ (qs : List (Slot Port)). (i : ℕ) → fd ≢ i → get qs i ≡ get m.managers i)
          (Fine gone) (delete_manager m.managers fd) _ (delete_manager-Gives fd m.managers)
          (λ qs k.
            Gives-bind
              (λ (us : List FdType).
                (us ≡ set_at fd blank m.types) × ((t : FdType) × (get m.types fd ≡ some t)))
              (Fine gone) (blanked m.types fd) _ (blanked-Gives fd m.types)
              (λ us e.
                subst (λ ts. IsFit gone (record m { managers = set_at fd null qs; types = ts }))
                  (sym e.0)
                  (blank-IsFit fd gone m h e.1.0 (set_at fd null qs) m.clients m.re3s e.1.1
                    (λ i n. get-set_at_other fd i null qs n ∙ k i n) (λ i n. refl) (λ i k. k))))

    pub client_error-Gives :
        (fd : ℕ) (m : ServerManager) (w : World S)
        → IsFit gone m
        → Gives (Fine gone) (client_error net fd m w)
    unfolding client_error
    client_error-Gives fd m w h = client_socket_close-Gives fd m _ h

    -- The client is no longer there, and its descriptor is one of those that were dropped.
    pub drop_client-Gives :
        (fd : ℕ) (m : ServerManager) (w : World S)
        → IsFit gone m
        → Gives (Fine (fd ∷ gone)) (drop_client net fd m w)
    unfolding drop_client
    drop_client-Gives fd m w h = go (get m.clients fd) refl
      where
        go :
            (o : Option (Slot Guest))
            → get m.clients fd ≡ o
            → Gives (Fine (fd ∷ gone)) (elim o as (λ o. Outcome (ServerManager × World S)) [
              | none ↦ fault out_of_range
              | some null ↦ fault null_pointer
              | some freed ↦ fault null_pointer
              | some (live g) ↦ ok (
                record m {
                  clients = set_at fd freed m.clients;
                  re3s = free_owned g.client.client_fd m.re3s;
                },
                record w { system = net.close w.system g.client.client_fd },
              )
            ])
        go none e = tt
        go (some null) e = tt
        go (some freed) e = tt
        go (some (live g)) e = drop-IsFit fd gone m h g _ e

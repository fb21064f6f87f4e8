-- ===== src/Server/Choice.antt =====
-- What `currLocation` and `requestValidCheck` of src/Server.cpp choose.
use Prim.Native.Nat.{bit_and}
use lazy_team.Base.{
  ℕ, ◌≤◌, ◌<◌, true, false, ◌&&◌, ◌||◌, List, [], ◌∷◌, some, ltb, ◌==◌, ◌≡◌, refl, sym, subst, ◌⊎◌,
  inl, inr, ◌≢◌, length, All, arith, Bool-cases,
}
use lazy_team.Text.{Bytes, codes, starts_with, read_unsigned, into}
use lazy_team.Webserv.{size_max}
use lazy_team.Message.{Request, get_header_value}
use lazy_team.Location.{Location}
use lazy_team.Server.State.{Server}
use lazy_team.Server.Route.{longest_from, curr_location, request_valid_check}

-- One of the list.
abbrev pub Among : Location → List Location → Type 0
Among r [] = ⊥
Among r (l ∷ ls) = (r ≡ l) ⊎ Among r ls

-- No location of the list that the target begins with has a path longer than `n`.
abbrev pub NoLonger : Bytes → ℕ → List Location → Type 0
NoLonger uri n = All (λ l. (starts_with l.path uri ≡ false) ⊎ (length l.path ≤ n))

-- Where the loop stands after a choice: with `res`, or with a better one of the list.
abbrev pub Best : Bytes → ℕ → Location → List Location → Location → Type 0
Best uri longest res ls r =
    ((r ≡ res) × NoLonger uri longest ls)
    ⊎ (Among r ls
        × (starts_with r.path uri ≡ true)
        × (longest < length r.path)
        × NoLonger uri (length r.path) ls)

longest_from-over :
    (uri : Bytes) (l : Location) (ls : List Location) (longest : ℕ) (res : Location)
    → (starts_with l.path uri && ltb longest (length l.path)) ≡ true
    → longest_from uri (l ∷ ls) longest res ≡ longest_from uri ls (length l.path) l
unfolding longest_from
longest_from-over uri l ls longest res e = rw (e, longest_from)

longest_from-stay :
    (uri : Bytes) (l : Location) (ls : List Location) (longest : ℕ) (res : Location)
    → (starts_with l.path uri && ltb longest (length l.path)) ≡ false
    → longest_from uri (l ∷ ls) longest res ≡ longest_from uri ls longest res
unfolding longest_from
longest_from-stay uri l ls longest res e = rw (e, longest_from)

unmatched :
    (uri : Bytes) (longest : ℕ) (l : Location)
    → (starts_with l.path uri && ltb longest (length l.path)) ≡ false
    → (starts_with l.path uri ≡ false) ⊎ (length l.path ≤ longest)
unmatched uri longest l e = elim (Bool-cases (starts_with l.path uri)) [
  | inl m ↦ inr (ground arith)
  | inr m ↦ inl m
]

beyond :
    (uri : Bytes) (longest n : ℕ) (l : Location)
    → (starts_with l.path uri && ltb longest (length l.path)) ≡ false
    → longest ≤ n
    → (starts_with l.path uri ≡ false) ⊎ (length l.path ≤ n)
beyond uri longest n l e le = elim (unmatched uri longest l e) [
  | inl m ↦ inl m
  | inr k ↦ inr (omega arith)
]

goes_over :
    (uri : Bytes) (ls : List Location) (longest : ℕ) (l res : Location) (r : Location)
    → (starts_with l.path uri && ltb longest (length l.path)) ≡ true
    → Best uri (length l.path) l ls r
    → Best uri longest res (l ∷ ls) r
goes_over uri ls longest l res r e (inl (same, none_longer)) =
    let begins : starts_with l.path uri ≡ true = ground arith in
    let longer : longest < length l.path = ground arith in
    inr (
      inl same,
      rw same begins,
      rw same longer,
      subst (λ (x : Location). NoLonger uri (length x.path) (l ∷ ls)) (sym same)
          (inr (omega arith), none_longer),
    )
goes_over uri ls longest l res r e (inr (among, begins, longer, none_longer)) =
    let more : longest < length l.path = ground arith in
    inr (inr among, begins, omega arith, (inr (omega arith), none_longer))

stays :
    (uri : Bytes) (ls : List Location) (longest : ℕ) (l res : Location) (r : Location)
    → (starts_with l.path uri && ltb longest (length l.path)) ≡ false
    → Best uri longest res ls r
    → Best uri longest res (l ∷ ls) r
stays uri ls longest l res r e (inl (same, none_longer)) =
    inl (same, (unmatched uri longest l e, none_longer))
stays uri ls longest l res r e (inr (among, begins, longer, none_longer)) =
    inr (
      inr among,
      begins,
      longer,
      (beyond uri longest (length r.path) l e (omega arith), none_longer),
    )

longest_from-Best :
    (uri : Bytes) (ls : List Location) (longest : ℕ) (res : Location)
    → Best uri longest res ls (longest_from uri ls longest res)
unfolding longest_from
longest_from-Best uri [] longest res = inl (refl, tt)
longest_from-Best uri (l ∷ ls) longest res =
    elim (Bool-cases (starts_with l.path uri && ltb longest (length l.path))) [
      | inl e ↦
          subst (λ (r : Location). Best uri longest res (l ∷ ls) r)
            (sym (longest_from-over uri l ls longest res e))
            (goes_over uri ls longest l res _ e (longest_from-Best uri ls (length l.path) l))
      | inr e ↦
          subst (λ (r : Location). Best uri longest res (l ∷ ls) r)
            (sym (longest_from-stay uri l ls longest res e))
            (stays uri ls longest l res _ e (longest_from-Best uri ls longest res))
    ]

curr_location-longest_from :
    (uri : Bytes) (l : Location) (ls : List Location)
    → curr_location uri (l ∷ ls) ≡ some (longest_from uri (l ∷ ls) 0 l)
unfolding curr_location
curr_location-longest_from uri l ls = refl

-- What the choice is from the start of the loop.
abbrev pub Chosen : Bytes → Location → List Location → Location → Type 0
Chosen uri l ls r =
    ((starts_with r.path uri ≡ true) × NoLonger uri (length r.path) (l ∷ ls))
    ⊎ ((r ≡ l) × NoLonger uri 0 (l ∷ ls))

Best-kind :
    (uri : Bytes) (l : Location) (ls : List Location) (r : Location)
    → Best uri 0 l (l ∷ ls) r
    → Among r (l ∷ ls) × Chosen uri l ls r
Best-kind uri l ls r (inl (same, none_longer)) = (inl same, inr (same, none_longer))
Best-kind uri l ls r (inr (among, begins, longer, none_longer)) = (among, inl (begins, none_longer))

-- `currLocation` finds a location as soon as there is one: it is one of the list, and no location that the
-- target begins with has a longer path; it matches the target itself, or else it is the first of the list, and then every
-- location that matches has the empty path.
pub curr_location-Best :
    (uri : Bytes) (l : Location) (ls : List Location)
    → (r : Location) × (curr_location uri (l ∷ ls) ≡ some r) × Among r (l ∷ ls) × Chosen uri l ls r
curr_location-Best uri l ls =
    let r = longest_from uri (l ∷ ls) 0 l in
    let (among, kind) = Best-kind uri l ls r (longest_from-Best uri (l ∷ ls) 0 l) in
    (r, curr_location-longest_from uri l ls, among, kind)

-- The three answers and when each is given.
abbrev pub Checked : ℕ → Server → Request → Location → Type 0
Checked undef s r l =
    let named = get_header_value r (codes "content-length") in
    let len = into (read_unsigned 10 size_max named) undef in
    ((bit_and r.method l.methods_allowed ≡ 0)
      × (request_valid_check undef s r l ≡ codes "405 Method Not Allowed"))
    ⊎ ((bit_and r.method l.methods_allowed ≢ 0)
        × (s.client_body_limit ≢ 0)
        × (length named ≢ 0)
        × (s.client_body_limit < len)
        × (request_valid_check undef s r l ≡ codes "413 Request Entity Too Large"))
    ⊎ ((bit_and r.method l.methods_allowed ≢ 0)
        × ((s.client_body_limit ≡ 0) ⊎ (length named ≡ 0) ⊎ (len ≤ s.client_body_limit))
        × (request_valid_check undef s r l ≡ codes "200 OK"))

-- Which answer `requestValidCheck` gives: 405 if the method is none of the location's; otherwise 413 if the server has a
-- limit, the request names a length, and the length that is read is above the limit; otherwise 200.
pub request_valid_check-answer :
    (undef : ℕ) (s : Server) (r : Request) (l : Location) → Checked undef s r l
unfolding request_valid_check
request_valid_check-answer undef s r l =
    let named = get_header_value r (codes "content-length") in
    let len = into (read_unsigned 10 size_max named) undef in
    elim (Bool-cases (bit_and r.method l.methods_allowed == 0)) [
      | inl e ↦ inl (ground arith, rw e)
      | inr e ↦ inr (elim (Bool-cases (s.client_body_limit == 0 || length named == 0)) [
        | inl f ↦ inr (ground arith, ground arith, rw e (rw f))
        | inr f ↦ elim (Bool-cases (ltb s.client_body_limit len)) [
          | inl g ↦ inl (ground arith, ground arith, ground arith, ground arith, rw e (rw f (rw g)))
          | inr g ↦ inr (ground arith, inr (inr (ground arith)), rw e (rw f (rw g)))
        ]
      ])
    ]

-- ===== src/Client/Receive/Total.antt =====
-- `recvRequest` of src/Client.cpp comes to an end on every input.
use lazy_team.Base.{
  IsReal, Ends, Ends-bind, Ensures, Ensures-bind, ℕ, zero, suc, ◌+◌, ◌≤◌, ◌<◌, true, false, [], ◌∷◌,
  Option, none, some, ◌≡◌, refl, ap, length, Outcome, ok, fault, arith, ◌>>=◌, Bool-cases, inl, inr,
  ◌⊎◌, ◌==◌, deref,
}
use lazy_team.Text.{Bytes}
use lazy_team.Webserv.{
  Code, ok_code, error_code, Status, is_status, finished, nothing, ServerStatus,
}
use lazy_team.Message.{Request, new_request}
use lazy_team.Re3.{Re3}
use lazy_team.Client.State.{Client}
use lazy_team.Client.Parse.{Parsed, req_line_parser}
use lazy_team.Client.Parse.Shrink.{
  Shrinks, Shrinks-mono, Takes, chunked_parser-Shrinks, header_parser-Shrinks,
  req_line_parser-Takes, length_parser-le,
}
use lazy_team.Client.Receive.{
  body_parser, line_stage, header_stage, body_stage, after_req_line, init_parser, Receiving,
  recv_loop, recv_request, pass_finished, pass_error, with_request, begin_next, after_parse,
  parse_last, stored, start, fuel_for,
}

body_parser-Shrinks :
    (undef : ℕ) (buff : Bytes) (r : Request) → Shrinks (length buff) (body_parser undef buff r)
unfolding body_parser
body_parser-Shrinks undef buff r =
    ground (arith, chunked_parser-Shrinks buff r, length_parser-le undef buff r)

Takes-Shrinks : (n : ℕ) (o : Outcome Parsed) → Takes n o → Shrinks n o
Takes-Shrinks n (ok p) h = h.0
Takes-Shrinks n (fault e) h = h

header_stage-Shrinks : (buff : Bytes) (r : Request) → Shrinks (length buff) (header_stage buff r)
unfolding header_stage
header_stage-Shrinks buff r = ground (arith, header_parser-Shrinks buff r)

body_stage-Shrinks : (undef : ℕ) (p : Parsed) → Shrinks (length p.read_buff) (body_stage undef p)
unfolding body_stage
body_stage-Shrinks undef p = ground (arith, body_parser-Shrinks undef p.read_buff p.request)

Shrinks-then :
    (n : ℕ) (m : Outcome Parsed) (f : Parsed → Outcome Parsed)
    → Shrinks n m
    → ((p : Parsed) → Shrinks (length p.read_buff) (f p))
    → Shrinks n (m >>= f)
Shrinks-then n (ok p) f h k = Shrinks-mono (length p.read_buff) n (f p) h (k p)
Shrinks-then n (fault e) f h k = h

after_req_line-Shrinks :
    (undef : ℕ) (p : Parsed) → Shrinks (length p.read_buff) (after_req_line undef p)
unfolding after_req_line
after_req_line-Shrinks undef p = ground (
  arith,
  Shrinks-then (length p.read_buff) (header_stage p.read_buff p.request) (body_stage undef)
      (header_stage-Shrinks p.read_buff p.request) (body_stage-Shrinks undef),
)

line_stage-Shrinks : (buff : Bytes) (r : Request) → Shrinks (length buff) (line_stage buff r)
unfolding line_stage
line_stage-Shrinks buff r =
    ground
      (arith, Takes-Shrinks (length buff) (req_line_parser buff r) (req_line_parser-Takes buff r))

-- On a fresh request the parser takes bytes from the buffer, if it finishes the request.
abbrev Finishes : ℕ → Outcome Parsed → Type 0
Finishes n (ok p) =
    p.code ≡ ok_code → is_status p.request.status finished ≡ true → length p.read_buff < n
Finishes n (fault e) = IsReal e

Finishes-Shrinks : (m n : ℕ) (o : Outcome Parsed) → Shrinks m o → m < n → Finishes n o
Finishes-Shrinks m n (ok p) h k = λ _ _. omega arith
Finishes-Shrinks m n (fault e) h k = h

Code-cases : (c : Code) → (c ≡ ok_code) ⊎ (c ≡ error_code)
Code-cases ok_code = inl refl
Code-cases error_code = inr refl

after_req_line_error :
    (undef : ℕ) (p : Parsed) → p.code ≡ error_code → after_req_line undef p ≡ ok p
unfolding after_req_line
after_req_line_error undef p e = ground arith

after_req_line-Finishes :
    (undef n : ℕ) (p : Parsed)
    → (p.code ≡ ok_code → length p.read_buff < n)
    → Finishes n (after_req_line undef p)
after_req_line-Finishes undef n p h = elim (Code-cases p.code) [
  | inl e ↦ Finishes-Shrinks (length p.read_buff) n _ (after_req_line-Shrinks undef p) (h e)
  | inr e ↦ rw (after_req_line_error undef p e) (λ x _. cc)
]

Finishes-then :
    (undef n : ℕ) (m : Outcome Parsed) → Takes n m → Finishes n (m >>= after_req_line undef)
Finishes-then undef n (ok p) h = after_req_line-Finishes undef n p h.1
Finishes-then undef n (fault e) h = h

line_stage-nothing :
    (buff : Bytes) (r : Request) → r.status ≡ nothing → line_stage buff r ≡ req_line_parser buff r
unfolding line_stage
line_stage-nothing buff r e = ground arith

is_status-nothing : (s : Status) → s ≡ nothing → is_status s finished ≡ true → ⊥
is_status-nothing s e f = ground arith

init_parser-Finishes :
    (undef : ℕ) (buff : Bytes) (r : Request)
    → r.status ≡ nothing
    → Finishes (length buff) (init_parser undef buff r)
unfolding init_parser
init_parser-Finishes undef [] r e = λ _ f. absurd (is_status-nothing r.status e f)
init_parser-Finishes undef (c ∷ buff) r e =
    rw (line_stage-nothing (c ∷ buff) r e)
      (Finishes-then undef _ _ (req_line_parser-Takes (c ∷ buff) r))

init_parser-Ends :
    (undef : ℕ) (buff : Bytes) (r : Request) → Shrinks (length buff) (init_parser undef buff r)
unfolding init_parser
init_parser-Ends undef [] r = omega arith
init_parser-Ends undef (c ∷ buff) r =
    Shrinks-then _ _ _ (line_stage-Shrinks (c ∷ buff) r) (after_req_line-Shrinks undef)

deref-Ensures : {A : Type 0} (o : Option A) → Ensures (λ a. o ≡ some a) (deref o)
deref-Ensures none = tt
deref-Ensures (some a) = refl

-- The last request is fresh.
abbrev IsFresh : Re3 → Type 0
IsFresh t = (r : Request) × (t.req_ptr ≡ some r) × (r.status ≡ nothing)

-- What the parser does to a buffer of `n` bytes: it is no longer, and it is shorter if the request was
-- fresh and is now finished.
abbrev Parses : ℕ → Type 0 → Parsed → Type 0
Parses n fresh p =
    (length p.read_buff ≤ n)
    × (fresh
        → p.code ≡ ok_code
        → is_status p.request.status finished ≡ true
        → length p.read_buff < n)

Parses-join :
    (n : ℕ) (fresh : Type 0) (o : Outcome Parsed)
    → Shrinks n o
    → (fresh → Finishes n o)
    → Ensures (Parses n fresh) o
Parses-join n fresh (ok p) h k = (h, k)
Parses-join n fresh (fault e) h k = h

abbrev Step : {W : Type 0} → Receiving W → Receiving W × Parsed → Type 0
Step s (s', p) = Parses (length s.read_buff) (IsFresh s.last) p × (s' ≡ stored s p)

parse_last-Step : {W : Type 0} (undef : ℕ) (s : Receiving W) → Ensures (Step s) (parse_last undef s)
unfolding parse_last
parse_last-Step undef s =
    Ensures-bind (λ r. s.last.req_ptr ≡ some r) (Step s) _ _ (deref-Ensures s.last.req_ptr)
      λ r e.
        Ensures-bind (Parses (length s.read_buff) (IsFresh s.last)) (Step s) _ _
          (Parses-join (length s.read_buff) (IsFresh s.last) _
            (init_parser-Ends undef s.read_buff r)
            (λ f. init_parser-Finishes undef s.read_buff r (let (q, a, b) = f in cc)))
          (λ p h. (h, refl))

with_request-new : (fd : ℕ) → (with_request fd).req_ptr ≡ some new_request
unfolding with_request
with_request-new fd = refl

Ends-Ensures : {A : Type 0} (o : Outcome A) → Ensures (λ _. Unit) o → Ends o
Ends-Ensures (ok a) h = tt
Ends-Ensures (fault e) h = h

Ensures-Ends : {A : Type 0} (o : Outcome A) → Ends o → Ensures (λ _. Unit) o
Ensures-Ends (ok a) h = tt
Ensures-Ends (fault e) h = h

module _ {W : Type 0} (pass_request : Re3 → W → Outcome (Re3 × ServerStatus × W))
    (answers : (t : Re3) (w : W) → Ends (pass_request t w)) where
  pass_error-Ends : (s : Receiving W) → Ends (pass_error pass_request s)
  unfolding pass_error
  pass_error-Ends s = Ends-bind _ _ (answers s.last s.world) (λ a. tt)

  after_parse-Ends :
      (again : Receiving W → Outcome (Receiving W)) (s : Receiving W) (p : Parsed)
      → (p.code ≡ ok_code → is_status p.request.status finished ≡ true → Ends (again s))
      → Ends (after_parse pass_request again s p)
  unfolding after_parse
  after_parse-Ends again s p h = ground (arith, pass_error-Ends s)

  -- After the first step of a round the buffer is as it was, and the last request is fresh if it was finished.
  abbrev Begun : Receiving W → Receiving W → Type 0
  Begun s s' =
      (s'.read_buff ≡ s.read_buff)
      × ((r : Request)
          → s.last.req_ptr ≡ some r
          → is_status r.status finished ≡ true
          → IsFresh s'.last)

  pass_finished-Begun :
      (fd : ℕ) (s : Receiving W) (r : Request)
      → s.last.req_ptr ≡ some r
      → Ensures (Begun s) (pass_finished pass_request fd r.status s)
  unfolding pass_finished
  pass_finished-Begun fd s r e = elim (Bool-cases (is_status r.status finished)) [
    | inl f ↦
        rw (f, pass_finished)
          (Ensures-bind (λ _. Unit) (Begun s) _ _ (Ensures-Ends _ (answers s.last s.world))
            (λ a _. (refl, λ _ _ _. (new_request, with_request-new fd, refl))))
    | inr f ↦ rw (f, pass_finished) (refl, λ q e' f'. absurd (still q e' f' f))
  ]
    where
      still :
          (q : Request)
          → s.last.req_ptr ≡ some q
          → is_status q.status finished ≡ true
          → is_status r.status finished ≡ false
          → ⊥
      still q e' f' f =
          let same : r ≡ q = cc in let g : is_status r.status finished ≡ true = rw same f' in cc

  begin_next-Begun : (fd : ℕ) (s : Receiving W) → Ensures (Begun s) (begin_next pass_request fd s)
  unfolding begin_next
  begin_next-Begun fd s =
      Ensures-bind (λ r. s.last.req_ptr ≡ some r) (Begun s) _ _ (deref-Ensures s.last.req_ptr)
        (λ r e. pass_finished-Begun fd s r e)

  -- A finished request behind it saves a round.
  abbrev Rounds : ℕ → Receiving W → Type 0
  Rounds fuel s =
      (length s.read_buff + 1 < fuel)
      ⊎ ((length s.read_buff < fuel)
          × ((r : Request) × (s.last.req_ptr ≡ some r) × (is_status r.status finished ≡ true)))

  more-Rounds :
      (fuel : ℕ) (s s' s'' : Receiving W) (p : Parsed)
      → Rounds (suc fuel) s
      → Begun s s'
      → Step s' (s'', p)
      → p.code ≡ ok_code
      → is_status p.request.status finished ≡ true
      → Rounds fuel s''
  more-Rounds fuel s s' s'' p h b st c f =
      inr (fewer h, (p.request, ap (λ (x : Receiving W). x.last.req_ptr) st.1, f))
    where
      kept : length s''.read_buff ≡ length p.read_buff
      kept = ap (λ (x : Receiving W). length x.read_buff) st.1

      same : length s'.read_buff ≡ length s.read_buff
      same = ap length b.0

      fewer : Rounds (suc fuel) s → length s''.read_buff < fuel
      fewer (inl k) = omega (arith, kept, same, st.0.0)
      fewer (inr (k, (r, e, g))) = omega (arith, kept, same, st.0.1 (b.1 r e g) c f)

  recv_loop-Ends :
      (fuel undef fd : ℕ) (s : Receiving W)
      → Rounds fuel s
      → Ends (recv_loop pass_request fuel undef fd s)
  unfolding recv_loop
  recv_loop-Ends zero undef fd s (inl h) = elim h [ ]
  recv_loop-Ends zero undef fd s (inr h) = absurd (omega (arith, h.0))
  recv_loop-Ends (suc fuel) undef fd s h = Ends-Ensures _ (
      Ensures-bind (Begun s) (λ _. Unit) _ _ (begin_next-Begun fd s)
        λ s' b.
          Ensures-bind (Step s') (λ _. Unit) _ _ (parse_last-Step undef s')
            λ (s'', p) st. Ensures-Ends _ (
              after_parse-Ends (λ x. recv_loop pass_request fuel undef fd x) s'' p
                (λ c f. recv_loop-Ends fuel undef fd s'' (more-Rounds fuel s s' s'' p h b st c f))))

  -- Whatever was received, `recvRequest` ends: its loop makes at most two rounds more than there are bytes
  -- in the buffer, and the loops of the parsers end too. This holds if the port manager ends.
  pub recv_request-Ends :
      (undef : ℕ) (c : Client) (raw : Bytes) (w : W)
      → Ends (recv_request pass_request undef c raw w)
  unfolding recv_request
  recv_request-Ends undef c raw w = elim (Bool-cases (length raw == 0)) [
    | inl e ↦ rw e tt
    | inr e ↦ rw e (
        Ends-bind _ _
          (recv_loop-Ends (fuel_for (start c raw w).read_buff) undef c.client_fd (start c raw w)
            (inl (omega arith)))
          (λ s. tt))
  ]

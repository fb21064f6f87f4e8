-- ===== src/Client/Receive/Pipeline.antt =====
-- Requests that arrive together: `recvRequest` of src/Client.cpp passes each on, in order.
use lazy_team.Base.{
  ℕ, zero, suc, ◌+◌, ◌≤◌, false, List, [], ◌∷◌, ◌++◌, some, ◌≡◌, refl, sym, ap, ◌∙◌, length, All,
  Outcome, ok, arith, length-append, ◌>>=◌, ◌==◌, append-nil, ◌⊎◌, append_assoc, inl, inr,
}
use lazy_team.Text.{Bytes}
use lazy_team.Webserv.{ServerStatus}
use lazy_team.Message.{new_request}
use lazy_team.Re3.{Re3}
use lazy_team.Client.State.{Client}
use lazy_team.Client.Parse.{Parsed}
use lazy_team.Client.Receive.{
  init_parser, with_request, Claims, Receiving, stored, parse_last, begin_next, after_parse,
  recv_loop, recv_request, start, deque_parts, begin_loop, fuel_for,
}
use lazy_team.Client.Receive.Written.{
  Written, written, parsed, IsLegible, IsFramed, init_parser-written, length-written,
}

abbrev pub all_written : List Written → Bytes
all_written [] = []
all_written (q ∷ qs) = written q ++ all_written qs

-- The transaction of a request that was read, before it is answered.
unfoldable pub asked : ℕ → Written → Re3
asked fd q = record (with_request fd) { req_ptr = some (parsed q) }

length-concat : {A : Type 0} (xs : List A) (x : A) → length (xs ++ x ∷ []) ≡ suc (length xs)
length-concat xs x = omega (arith, length-append {0} xs (x ∷ []))

length-all_written : (qs : List Written) → length qs ≤ length (all_written qs)
length-all_written [] = omega arith
length-all_written (q ∷ qs) =
    omega (
      arith,
      length-all_written qs,
      length-append {0} (written q) (all_written qs),
      length-written q,
    )

-- A client with an empty buffer that waits for a request behind the transactions `earlier`.
pub record IsIdle (c : Client) (earlier : List Re3) : Type 0 where
  pub no_bytes : c.read_buff ≡ []
  pub waits :
      ((c.re3_deque ≡ []) × (earlier ≡ []))
      ⊎ (c.re3_deque ≡ earlier ++ with_request c.client_fd ∷ [])

begin_loop-concat :
    (front ts : List Re3) (t x : Re3) → begin_loop front (ts ++ x ∷ []) t ≡ (front ++ t ∷ ts, x)
unfolding begin_loop
begin_loop-concat front [] t x = refl
begin_loop-concat front (u ∷ ts) t x =
    begin_loop-concat (front ++ t ∷ []) ts u x
    ∙ ap (λ (l : List Re3). (l, x)) (append_assoc front (t ∷ []) (u ∷ ts))

deque_parts-concat : (fd : ℕ) (ts : List Re3) (x : Re3) → deque_parts fd (ts ++ x ∷ []) ≡ (ts, x)
unfolding deque_parts begin_loop
deque_parts-concat fd [] x = refl
deque_parts-concat fd (t ∷ ts) x = begin_loop-concat [] ts t x

deque_parts-nil : (fd : ℕ) → deque_parts fd [] ≡ ([], with_request fd)
unfolding deque_parts
deque_parts-nil fd = refl

deque_parts-idle :
    (c : Client) (earlier : List Re3)
    → IsIdle c earlier
    → deque_parts c.client_fd c.re3_deque ≡ (earlier, with_request c.client_fd)
deque_parts-idle c earlier h = go h.waits
  where
    go :
        ((c.re3_deque ≡ []) × (earlier ≡ []))
          ⊎ (c.re3_deque ≡ earlier ++ with_request c.client_fd ∷ [])
        → deque_parts c.client_fd c.re3_deque ≡ (earlier, with_request c.client_fd)
    go (inl (none_yet, e)) =
        ap (deque_parts c.client_fd) none_yet
        ∙ deque_parts-nil c.client_fd
        ∙ ap (λ (l : List Re3). (l, with_request c.client_fd)) (sym e)
    go (inr e) = ap (deque_parts c.client_fd) e ∙ deque_parts-concat c.client_fd earlier _

module _ {W : Type 0} (serve : Re3 → W → Re3 × ServerStatus × W) where
  -- A port manager that answers every request.
  abbrev pub pass : Re3 → W → Outcome (Re3 × ServerStatus × W)
  pass t w = ok (serve t w)

  -- The answers to some requests, each in the world that the ones before it left: the transactions,
  -- what the server said of them, and the world.
  abbrev pub transactions : ℕ → List Written → W → List Re3
  transactions fd [] w = []
  transactions fd (q ∷ qs) w =
      (serve (asked fd q) w).0 ∷ transactions fd qs (serve (asked fd q) w).2

  abbrev pub claims_from : ℕ → ℕ → List Written → W → Claims
  claims_from n fd [] w = []
  claims_from n fd (q ∷ qs) w =
      (n, (serve (asked fd q) w).1) ∷ claims_from (suc n) fd qs (serve (asked fd q) w).2

  abbrev pub world_after : ℕ → List Written → W → W
  world_after fd [] w = w
  world_after fd (q ∷ qs) w = world_after fd qs (serve (asked fd q) w).2

  -- The loop's variables when requests were answered behind others and the buffer is `rest`.
  answered : ℕ → Receiving W → List Written → Receiving W
  answered fd s qs = record {
    earlier = s.earlier ++ transactions fd qs s.world;
    last = with_request fd;
    read_buff = [];
    rsc_claim = s.rsc_claim ++ claims_from (length s.earlier) fd qs s.world;
    world = world_after fd qs s.world;
  }

  abbrev at_asked : ℕ → Receiving W → Written → Bytes → Receiving W
  at_asked fd s q rest = record s { last = asked fd q; read_buff = rest }

  unfoldable pub one_more : ℕ → Receiving W → Written → Receiving W
  one_more fd s q = record s {
    earlier = s.earlier ++ (serve (asked fd q) s.world).0 ∷ [];
    rsc_claim = s.rsc_claim ++ (length s.earlier, (serve (asked fd q) s.world).1) ∷ [];
    world = (serve (asked fd q) s.world).2;
  }

  abbrev pub fresh_at : ℕ → Receiving W → Bytes → Receiving W
  fresh_at fd s b = record s { last = with_request fd; read_buff = b }

  begin_next-asked :
      (fd : ℕ) (s : Receiving W) (q : Written) (rest : Bytes)
      → begin_next pass fd (at_asked fd s q rest) ≡ ok (fresh_at fd (one_more fd s q) rest)
  unfolding begin_next asked one_more
  begin_next-asked fd s q rest = refl

  begin_next-fresh :
      (fd : ℕ) (s : Receiving W) (b : Bytes)
      → begin_next pass fd (fresh_at fd s b) ≡ ok (fresh_at fd s b)
  unfolding begin_next with_request
  begin_next-fresh fd s b = refl

  pub parse_fresh :
      (undef fd : ℕ) (s : Receiving W) (b : Bytes)
      → parse_last undef (fresh_at fd s b)
        ≡ (init_parser undef b new_request >>= λ p. ok (stored (fresh_at fd s b) p, p))
  unfolding parse_last with_request
  parse_fresh undef fd s b = refl

  -- What is left to do from a fresh request.
  unfoldable pub from_fresh : ℕ → ℕ → ℕ → Receiving W → Bytes → Outcome (Receiving W)
  from_fresh fuel undef fd s b = parse_last undef (fresh_at fd s b) >>= λ (t, p).
      after_parse pass (recv_loop pass fuel undef fd) t p

  pub from_fresh-written :
      (fuel undef fd : ℕ) (s : Receiving W) (q : Written) (rest : Bytes)
      → IsLegible q
      → IsFramed q
      → from_fresh fuel undef fd s (written q ++ rest)
        ≡ recv_loop pass fuel undef fd (at_asked fd s q rest)
  unfolding from_fresh after_parse asked
  from_fresh-written fuel undef fd s q rest h f =
      ap
        (λ (o : Outcome (Receiving W × Parsed)).
          o >>= λ (t, p). after_parse pass (recv_loop pass fuel undef fd) t p)
        (parse_fresh undef fd s (written q ++ rest)
          ∙ ap
              (λ (o : Outcome Parsed).
                o >>= λ p. ok (stored (fresh_at fd s (written q ++ rest)) p, p))
              (init_parser-written undef q rest h f))

  from_fresh-nil :
      (fuel undef fd : ℕ) (s : Receiving W) → from_fresh fuel undef fd s [] ≡ ok (fresh_at fd s [])
  unfolding from_fresh after_parse parse_last with_request init_parser
  from_fresh-nil fuel undef fd s = refl

  pub recv_loop-asked :
      (fuel undef fd : ℕ) (s : Receiving W) (q : Written) (rest : Bytes)
      → recv_loop pass (suc fuel) undef fd (at_asked fd s q rest)
        ≡ from_fresh fuel undef fd (one_more fd s q) rest
  unfolding recv_loop from_fresh
  recv_loop-asked fuel undef fd s q rest =
      ap
        (λ (o : Outcome (Receiving W)). o >>= λ s'.
          parse_last undef s' >>= λ (t, p). after_parse pass (recv_loop pass fuel undef fd) t p)
        (begin_next-asked fd s q rest)

  pub recv_loop-fresh :
      (fuel undef fd : ℕ) (s : Receiving W) (b : Bytes)
      → recv_loop pass (suc fuel) undef fd (fresh_at fd s b) ≡ from_fresh fuel undef fd s b
  unfolding recv_loop from_fresh
  recv_loop-fresh fuel undef fd s b =
      ap
        (λ (o : Outcome (Receiving W)). o >>= λ s'.
          parse_last undef s' >>= λ (t, p). after_parse pass (recv_loop pass fuel undef fd) t p)
        (begin_next-fresh fd s b)

  answered-one_more :
      (fd : ℕ) (s : Receiving W) (q : Written) (qs : List Written)
      → answered fd (one_more fd s q) qs ≡ answered fd s (q ∷ qs)
  unfolding answered one_more
  answered-one_more fd s q qs =
      rw (length-concat s.earlier (serve (asked fd q) s.world).0) (simp append_assoc)

  answered-nil : (fd : ℕ) (s : Receiving W) → answered fd s [] ≡ fresh_at fd s []
  unfolding answered
  answered-nil fd s = simp append-nil

  abbrev pub IsSent : Written → Type 0
  IsSent q = IsLegible q × IsFramed q

  from_fresh-All :
      (qs : List Written) (fuel undef fd : ℕ) (s : Receiving W)
      → All IsSent qs
      → length qs ≤ fuel
      → from_fresh fuel undef fd s (all_written qs) ≡ ok (answered fd s qs)
  from_fresh-All [] fuel undef fd s h k =
      from_fresh-nil fuel undef fd s ∙ ap ok (sym (answered-nil fd s))
  from_fresh-All (q ∷ qs) zero undef fd s h k = absurd (omega arith)
  from_fresh-All (q ∷ qs) (suc fuel) undef fd s ((l, f), h) k =
      from_fresh-written (suc fuel) undef fd s q (all_written qs) l f
      ∙ recv_loop-asked fuel undef fd s q (all_written qs)
      ∙ from_fresh-All qs fuel undef fd (one_more fd s q) h (omega arith)
      ∙ ap ok (answered-one_more fd s q qs)

  -- The client when the requests are answered, with what it tells the event loop.
  abbrev pub all_answered : Client → List Re3 → List Written → W → Client × Claims × W
  all_answered c earlier qs w = (
    record c {
      re3_deque = (earlier ++ transactions c.client_fd qs w) ++ with_request c.client_fd ∷ [];
      read_buff = [];
    },
    claims_from (length earlier) c.client_fd qs w,
    world_after c.client_fd qs w,
  )

  pub start-idle :
      (c : Client) (earlier : List Re3) (raw : Bytes) (w : W)
      → IsIdle c earlier
      → start c raw w ≡ record {
        earlier = earlier;
        last = with_request c.client_fd;
        read_buff = raw;
        rsc_claim = [];
        world = w;
      }
  unfolding start
  start-idle c earlier raw w h = rw (deque_parts-idle c earlier h, h.no_bytes)

  -- The end of `recvRequest` behind its loop.
  abbrev pub after_loop : Client → Receiving W → Outcome (Client × Claims × W)
  after_loop c e = ok (
    record c { re3_deque = e.earlier ++ e.last ∷ []; read_buff = e.read_buff },
    e.rsc_claim,
    e.world,
  )

  pub recv_request_loop :
      (undef : ℕ) (c : Client) (raw : Bytes) (w : W)
      → (length raw == 0) ≡ false
      → recv_request pass undef c raw w ≡ (
          recv_loop pass (fuel_for (start c raw w).read_buff) undef c.client_fd (start c raw w)
          >>= after_loop c)
  unfolding recv_request
  recv_request_loop undef c raw w e = rw e refl

  recv_request-nil :
      (undef : ℕ) (c : Client) (w : W)
      → recv_request pass undef c [] w
        ≡ ok (record c { re3_deque = (start c [] w).earlier ++ (start c [] w).last ∷ [] }, [], w)
  unfolding recv_request
  recv_request-nil undef c w = refl

  loop-answered :
      (undef fd : ℕ) (s : Receiving W) (qs : List Written)
      → All IsSent qs
      → recv_loop pass (fuel_for (all_written qs)) undef fd (fresh_at fd s (all_written qs))
        ≡ ok (answered fd s qs)
  loop-answered undef fd s qs h =
      let rounds : length (all_written qs) + 2 ≡ suc (length (all_written qs) + 1) = omega arith in
      ap (λ (n : ℕ). recv_loop pass n undef fd (fresh_at fd s (all_written qs))) rounds
      ∙ recv_loop-fresh _ undef fd s (all_written qs)
      ∙ from_fresh-All qs _ undef fd s h (omega (arith, length-all_written qs))

  written-some : (q : Written) (qs : List Written) → (length (all_written (q ∷ qs)) == 0) ≡ false
  written-some q qs = ground (arith, length-append (written q) (all_written qs), length-written q)

  -- Any number of legible and framed requests that arrive in one piece at a client that waits for a
  -- request: if the port manager answers every request, each is passed on once, in the order of
  -- arrival and in the world that the ones before it left; the event loop is told of every one under its
  -- place in the deque; and the client waits for a request again, with an empty buffer.
  pub recv_request-all_written :
      (undef : ℕ) (c : Client) (earlier : List Re3) (qs : List Written) (w : W)
      → IsIdle c earlier
      → All IsSent qs
      → recv_request pass undef c (all_written qs) w ≡ ok (all_answered c earlier qs w)
  unfolding answered
  recv_request-all_written undef c earlier [] w idle h =
      recv_request-nil undef c w
      ∙ ap (λ (s : Receiving W). ok (record c { re3_deque = s.earlier ++ s.last ∷ [] }, [], w))
          (start-idle c earlier [] w idle)
      ∙ ap
          (λ (b : Bytes). ok (
            record c { re3_deque = earlier ++ with_request c.client_fd ∷ []; read_buff = b },
            [],
            w,
          ))
          idle.no_bytes
      ∙ ap
          (λ (l : List Re3).
            ok (record c { re3_deque = l ++ with_request c.client_fd ∷ []; read_buff = [] }, [], w))
          (sym (append-nil earlier))
  recv_request-all_written undef c earlier (q ∷ qs) w idle h =
      recv_request_loop undef c (all_written (q ∷ qs)) w (written-some q qs)
      ∙ ap
          (λ (s : Receiving W).
            recv_loop pass (fuel_for s.read_buff) undef c.client_fd s >>= after_loop c)
          (start-idle c earlier (all_written (q ∷ qs)) w idle)
      ∙ ap (λ (o : Outcome (Receiving W)). o >>= after_loop c)
          (loop-answered undef c.client_fd
            (record {
              earlier = earlier;
              last = with_request c.client_fd;
              read_buff = [];
              rsc_claim = [];
              world = w;
            })
            (q ∷ qs) h)

-- ===== src/Client/Receive/Dropped.antt =====
-- A request with an error behind another one, in `recvRequest` of src/Client.cpp.
use lazy_team.Base.{
  ℕ, suc, ◌+◌, false, List, [], ◌∷◌, ◌++◌, some, ◌≡◌, ap, ◌∙◌, length, Outcome, ok, arith,
  length-append, ◌>>=◌, ◌==◌,
}
use lazy_team.Text.{Bytes}
use lazy_team.Webserv.{ServerStatus, error_code}
use lazy_team.Message.{Request, new_request}
use lazy_team.Re3.{Re3}
use lazy_team.Client.State.{Client}
use lazy_team.Client.Parse.{Parsed}
use lazy_team.Client.Receive.{
  init_parser, with_request, Claims, Receiving, stored, after_parse, pass_error, recv_loop,
  recv_request, fuel_for,
}
use lazy_team.Client.Receive.Written.{Written, written, length-written}
use lazy_team.Client.Receive.Pipeline.{
  asked, IsIdle, IsSent, pass, fresh_at, one_more, from_fresh, parse_fresh, from_fresh-written,
  recv_loop-asked, recv_loop-fresh, start-idle, recv_request_loop, after_loop,
}

module _ {W : Type 0} (serve : Re3 → W → Re3 × ServerStatus × W) where
  abbrev failed : Bytes → Request → Parsed
  failed b r = record { code = error_code; read_buff = b; request = r }

  from_fresh-failed :
      (fuel undef fd : ℕ) (s : Receiving W) (bad b : Bytes) (r : Request)
      → init_parser undef bad new_request ≡ ok (failed b r)
      → from_fresh serve fuel undef fd s bad
        ≡ pass_error (pass serve) (stored (fresh_at serve fd s bad) (failed b r))
  unfolding from_fresh after_parse
  from_fresh-failed fuel undef fd s bad b r e =
      ap
        (λ (o : Outcome (Receiving W × Parsed)).
          o >>= λ (t, p). after_parse (pass serve) (recv_loop (pass serve) fuel undef fd) t p)
        (parse_fresh serve undef fd s bad
          ∙ ap (λ (o : Outcome Parsed). o >>= λ p. ok (stored (fresh_at serve fd s bad) p, p)) e)

  -- The transaction of the request with the error.
  abbrev pub refused : ℕ → Request → Re3
  refused fd r = record (with_request fd) { req_ptr = some r }

  -- The client when both are answered, with what it tells the event loop.
  abbrev pub both_answered : Client → List Re3 → Written → Bytes → Request → W → Client × Claims × W
  both_answered c earlier q b r w =
      let first = serve (asked c.client_fd q) w in
      let second = serve (refused c.client_fd r) first.2 in
      (
        record c { re3_deque = (earlier ++ first.0 ∷ []) ++ second.0 ∷ []; read_buff = b },
        (length (earlier ++ first.0 ∷ []), second.1) ∷ [],
        second.2,
      )

  loop-failed :
      (fuel undef : ℕ) (c : Client) (earlier : List Re3) (q : Written) (bad b : Bytes) (r : Request)
      (w : W)
      → IsSent serve q
      → init_parser undef bad new_request ≡ ok (failed b r)
      → (recv_loop (pass serve) (suc (suc fuel)) undef c.client_fd (record {
        earlier = earlier;
        last = with_request c.client_fd;
        read_buff = written q ++ bad;
        rsc_claim = [];
        world = w;
      })
          >>= after_loop serve c)
        ≡ ok (both_answered c earlier q b r w)
  unfolding pass_error one_more
  loop-failed fuel undef c earlier q bad b r w h e =
      let s : Receiving W = record {
        earlier = earlier;
        last = with_request c.client_fd;
        read_buff = [];
        rsc_claim = [];
        world = w;
      } in
      ap (λ (o : Outcome (Receiving W)). o >>= after_loop serve c)
        (recv_loop-fresh serve (suc fuel) undef c.client_fd s (written q ++ bad)
          ∙ from_fresh-written serve (suc fuel) undef c.client_fd s q bad h.0 h.1
          ∙ recv_loop-asked serve fuel undef c.client_fd s q bad
          ∙ from_fresh-failed fuel undef c.client_fd (one_more serve c.client_fd s q) bad b r e)

  behind-some : (q : Written) (bad : Bytes) → (length (written q ++ bad) == 0) ≡ false
  behind-some q bad = ground (arith, length-append (written q) bad, length-written q)

  -- A legible and framed request, with bytes behind it that the parser reports as an error, arrives at a client that waits
  -- for a request: if the port manager answers every request, both are passed to it and both transactions stay in the deque, but the event
  -- loop is told only of the one with the error.
  pub recv_request-refused :
      (undef : ℕ) (c : Client) (earlier : List Re3) (q : Written) (bad b : Bytes) (r : Request)
      (w : W)
      → IsIdle c earlier
      → IsSent serve q
      → init_parser undef bad new_request
        ≡ ok (record { code = error_code; read_buff = b; request = r })
      → recv_request (pass serve) undef c (written q ++ bad) w
        ≡ ok (both_answered c earlier q b r w)
  recv_request-refused undef c earlier q bad b r w idle h e =
      let rounds : length (written q ++ bad) + 2 ≡ suc (suc (length (written q ++ bad))) =
        omega arith in
      recv_request_loop serve undef c (written q ++ bad) w (behind-some q bad)
      ∙ ap
          (λ (s : Receiving W).
            recv_loop (pass serve) (fuel_for s.read_buff) undef c.client_fd s
            >>= after_loop serve c)
          (start-idle serve c earlier (written q ++ bad) w idle)
      ∙ ap
          (λ (n : ℕ).
            recv_loop (pass serve) n undef c.client_fd (record {
              earlier = earlier;
              last = with_request c.client_fd;
              read_buff = written q ++ bad;
              rsc_claim = [];
              world = w;
            })
            >>= after_loop serve c)
          rounds
      ∙ loop-failed (length (written q ++ bad)) undef c earlier q bad b r w h e

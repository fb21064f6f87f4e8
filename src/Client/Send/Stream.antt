-- ===== src/Client/Send/Stream.antt =====
-- What `passResponse` sends, as one stream of bytes.
use lazy_team.Base.{
  ℕ, zero, suc, ◌+◌, ◌*◌, true, false, not, ◌&&◌, List, [], ◌∷◌, ◌++◌, none, some, ◌≡◌, refl, sym,
  ap, ◌∙◌, ltb, ◌==◌, length, take, drop, Outcome, ok, fault, arith, Bool-cases, Option-cases, inl,
  inr,
}
use lazy_team.Text.{Bytes}
use lazy_team.Webserv.{finished, is_status, network_buff}
use lazy_team.Message.{Response}
use lazy_team.Re3.{Re3}
use lazy_team.Client.State.{Client}
use lazy_team.Client.Send.{put_rsp_into_buff, send_loop, send_from, pass_response, with_response}
use lazy_team.Client.Send.Wire.{
  wire, Sent, put_parts, Sent-cong, nil_of_length, Enough, Sent-stop, Sent-nil, round_stop,
  round_head, round_body, round_last, round_pop_none, round_pop,
}

wire-cons :
    (t : Re3) (r : Response) (rest : List Re3)
    → is_status r.status finished ≡ true
    → wire (with_response t r ∷ rest) ≡ r.head ++ (r.body ++ wire rest)
wire-cons t r rest e = rw e

is_fin :
    (left : ℕ) (r : Response)
    → (not (left == 0) && is_status r.status finished) ≡ true
    → is_status r.status finished ≡ true
is_fin left r more = ground arith

module _ (fuel left : ℕ) (out : Bytes) (r : Response) (rest : List Re3)
    (more : (not (left == 0) && is_status r.status finished) ≡ true)
    (enough : Enough (suc fuel) left r rest) where
  Enough-head :
      ltb 0 (length r.head) ≡ true
      → let p = put_rsp_into_buff left out r.head in
        Enough fuel p.network_buff_left (record r { head = p.left_over }) rest
  unfolding put_rsp_into_buff
  Enough-head h = ground arith

  Enough-body :
      ltb 0 (length r.body) ≡ true
      → let p = put_rsp_into_buff left out r.body in
        Enough fuel p.network_buff_left (record r { body = p.left_over }) rest
  unfolding put_rsp_into_buff
  Enough-body h = ground arith

Enough-pop :
    (fuel left : ℕ) (r : Response) (t' : Re3) (r' : Response) (rest : List Re3)
    → (not (left == 0) && is_status r.status finished) ≡ true
    → Enough (suc fuel) left r (t' ∷ rest)
    → Enough fuel left r' rest
Enough-pop fuel left r t' r' rest more enough = ground arith

module _ (t : Re3) (r : Response) (rest : List Re3) (fin : is_status r.status finished ≡ true)
    (no_head : ltb 0 (length r.head) ≡ false) where
  wire_no_head : wire (with_response t r ∷ rest) ≡ r.body ++ wire rest
  wire_no_head =
      wire-cons t r rest fin
      ∙ ap (λ (h : Bytes). h ++ (r.body ++ wire rest)) (nil_of_length r.head no_head)

  wire_empty : ltb 0 (length r.body) ≡ false → wire (with_response t r ∷ rest) ≡ wire rest
  wire_empty b = wire_no_head ∙ ap (λ (h : Bytes). h ++ wire rest) (nil_of_length r.body b)

Sent-stream :
    (l : ℕ) (o s s' : Bytes) (res : Outcome (List Re3 × Bytes))
    → s' ≡ s
    → Sent l o s res
    → Sent l o s' res
Sent-stream l o s s' res e h = rw e h

module _ (fuel left : ℕ) (out : Bytes) (t : Re3) (r : Response) (rest : List Re3)
    (more : (not (left == 0) && is_status r.status finished) ≡ true) where
  head-Sent :
      ltb 0 (length r.head) ≡ true
      → let p = put_rsp_into_buff left out r.head in
        let r' = record r { head = p.left_over } in
        Sent p.network_buff_left p.to_be_sent
          (wire (with_response t r' ∷ rest))
          (send_loop fuel p.network_buff_left p.to_be_sent t r' rest)
        → Sent left out (wire (with_response t r ∷ rest)) (send_loop (suc fuel) left out t r rest)
  head-Sent h ih =
      let fin = is_fin left r more in
      let (sent, stays) = put_parts left out r.head (r.body ++ wire rest) in
      rw (round_head fuel left out t r rest more h)
        (rw fin (Sent-cong _ _ _ _ _ _ _ sent stays (rw fin at ih)))

  body-Sent :
      ltb 0 (length r.head) ≡ false
      → ltb 0 (length r.body) ≡ true
      → let p = put_rsp_into_buff left out r.body in
        let r' = record r { body = p.left_over } in
        Sent p.network_buff_left p.to_be_sent
          (wire (with_response t r' ∷ rest))
          (send_loop fuel p.network_buff_left p.to_be_sent t r' rest)
        → Sent left out (wire (with_response t r ∷ rest)) (send_loop (suc fuel) left out t r rest)
  body-Sent h b ih =
      let fin = is_fin left r more in
      let p = put_rsp_into_buff left out r.body in
      let (sent, stays) = put_parts left out r.body (wire rest) in
      rw (round_body fuel left out t r rest more h b) (
        Sent-stream left out _ _ _ (wire_no_head t r rest fin h) (
          Sent-cong _ _ _ _ _ _ _ sent stays (
            Sent-stream _ _ _ _ _
              (sym (wire_no_head t (record r { body = p.left_over }) rest fin h)) ih)))

wire-none : (t : Re3) (rest : List Re3) → t.rsp_ptr ≡ none → wire (t ∷ rest) ≡ []
wire-none t rest e = rw e

wire-some :
    (t : Re3) (r : Response) (rest : List Re3)
    → t.rsp_ptr ≡ some r
    → wire (t ∷ rest) ≡ wire (with_response t r ∷ rest)
wire-some t r rest e = rw e

-- Past an empty response the loop goes on with the next one, if that is there.
pop-Sent :
    (rest : List Re3) (fuel left : ℕ) (out : Bytes) (t : Re3) (r : Response)
    → (not (left == 0) && is_status r.status finished) ≡ true
    → ltb 0 (length r.head) ≡ false
    → ltb 0 (length r.body) ≡ false
    → Enough (suc fuel) left r rest
    → ((t' : Re3) (r' : Response) (rest' : List Re3)
        → Enough fuel left r' rest'
        → Sent left out (wire (with_response t' r' ∷ rest')) (send_loop fuel left out t' r' rest'))
    → Sent left out (wire rest) (send_loop (suc fuel) left out t r rest)
pop-Sent [] fuel left out t r e h b enough next =
    rw (round_last fuel left out t r e h b) (Sent-nil left out [] refl)
pop-Sent (t' ∷ rest') fuel left out t r e h b enough next = elim (Option-cases t'.rsp_ptr) [
  | inl n ↦ rw (round_pop_none fuel left out t r t' rest' e h b n) (
      Sent-stream left out _ _ (ok (t' ∷ rest', out)) (wire-none t' rest' n)
        (Sent-nil left out (t' ∷ rest') (wire-none t' rest' n)))
  | inr (r', s) ↦ rw (round_pop fuel left out t r t' r' rest' e h b s) (
      Sent-stream left out _ _ _ (wire-some t' r' rest' s)
        (next t' r' rest' (Enough-pop fuel left r t' r' rest' e enough)))
]

-- With enough rounds, what is sent and what stays make up the stream.
send_loop-Sent :
    (fuel left : ℕ) (out : Bytes) (t : Re3) (r : Response) (rest : List Re3)
    → Enough fuel left r rest
    → Sent left out (wire (with_response t r ∷ rest)) (send_loop fuel left out t r rest)
send_loop-Sent zero left out t r rest enough = elim enough [ ]
send_loop-Sent (suc fuel) left out t r rest enough =
    elim (Bool-cases (not (left == 0) && is_status r.status finished)) [
      | inr e ↦ rw (round_stop fuel left out t r rest e) (Sent-stop left out t r rest e)
      | inl e ↦ elim (Bool-cases (ltb 0 (length r.head))) [
        | inl h ↦
            head-Sent fuel left out t r rest e h
              (send_loop-Sent fuel _ _ t _ rest (Enough-head fuel left out r rest e enough h))
        | inr h ↦ elim (Bool-cases (ltb 0 (length r.body))) [
          | inl b ↦
              body-Sent fuel left out t r rest e h b
                (send_loop-Sent fuel _ _ t _ rest (Enough-body fuel left out r rest e enough b))
          | inr b ↦ Sent-stream left out _ _ _ (wire_empty t r rest (is_fin left r e) h b) (
              pop-Sent rest fuel left out t r e h b enough
                (λ t' r' rest' en. send_loop-Sent fuel left out t' r' rest' en))
        ]
      ]
    ]

send_from-send_loop :
    (t : Re3) (r : Response) (rest : List Re3)
    → t.rsp_ptr ≡ some r
    → send_from (t ∷ rest) ≡ send_loop (3 * length (t ∷ rest) + 1) network_buff [] t r rest
unfolding send_from
send_from-send_loop t r rest e = ground arith

Sent-total :
    (l : ℕ) (s : Bytes) (res : Outcome (List Re3 × Bytes))
    → Sent l [] s res
    → (q : List Re3) × (res ≡ ok (q, take l s)) × (wire q ≡ drop l s)
Sent-total l s (fault e) h = absurd h
Sent-total l s (ok (q, out)) h = (q, ap (λ (o : Bytes). ok (q, o)) h.0, h.1)

send_from-wire :
    (t : Re3) (r : Response) (rest : List Re3)
    → t.rsp_ptr ≡ some r
    → (q : List Re3) × (send_from (t ∷ rest) ≡ ok (q, take network_buff (wire (t ∷ rest))))
      × (wire q ≡ drop network_buff (wire (t ∷ rest)))
send_from-wire t r rest e = Sent-total network_buff _ _ (
    rw (send_from-send_loop t r rest e) (
      Sent-stream network_buff [] _ _ _ (wire-some t r rest e)
        (send_loop-Sent _ network_buff [] t r rest (ground arith))))

-- For a client whose first transaction has a response, `passResponse` returns, sends the first
-- `NETWORK_BUFF` bytes of the ready responses (all of them, if they are fewer), and the responses that
-- it leaves in the deque hold exactly the bytes behind those, in the same order.
pub pass_response-wire :
    (c : Client) (t : Re3) (r : Response) (rest : List Re3)
    → c.re3_deque ≡ t ∷ rest
    → t.rsp_ptr ≡ some r
    → (c' : Client) × (pass_response c ≡ ok (c', take network_buff (wire c.re3_deque)))
      × (wire c'.re3_deque ≡ drop network_buff (wire c.re3_deque))
unfolding pass_response
pass_response-wire c t r rest d e =
    let (q, sent, stays) = send_from-wire t r rest e in
    (record c { re3_deque = q }, rw (d, sent), rw d stays)

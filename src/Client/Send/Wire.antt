-- ===== src/Client/Send/Wire.antt =====
-- The stream of bytes of a client's responses, and one round of the loop of `passResponse` of src/Client.cpp.
use lazy_team.Base.{
  ℕ, zero, suc, ◌+◌, ◌-◌, ◌*◌, ◌<◌, true, false, not, ◌&&◌, List, [], ◌∷◌, ◌++◌, none, some, ◌≡◌,
  refl, sym, ◌∙◌, leb, ltb, ◌==◌, if◌then◌else◌, length, take, drop, Outcome, ok, fault, arith,
  Bool-cases, inl, inr, ◌⊎◌, take-append, drop-append, take-append_le, drop-append_le, append_assoc,
  append-nil,
}
use lazy_team.Text.{Bytes}
use lazy_team.Webserv.{finished, is_status}
use lazy_team.Message.{Response}
use lazy_team.Re3.{Re3}
use lazy_team.Client.Send.{put_rsp_into_buff, send_loop, with_response}

-- The bytes that are ready to go: the heads and bodies of the finished responses in front of the
-- first transaction that has none.
abbrev pub wire : List Re3 → Bytes
wire [] = []
wire (t ∷ ts) = elim t.rsp_ptr [
  | none ↦ []
  | some r ↦ if is_status r.status finished then r.head ++ (r.body ++ wire ts) else []
]

-- A piece that goes out leaves the rest of the stream behind it.
abbrev pub Sent : ℕ → Bytes → Bytes → Outcome (List Re3 × Bytes) → Type 0
Sent left out stream (fault e) = ⊥
Sent left out stream (ok (deque, sent)) =
    (sent ≡ out ++ take left stream) × (wire deque ≡ drop left stream)

-- The rounds that a response still takes.
abbrev pub rounds : Response → ℕ
rounds r = (if ltb 0 (length r.head) then 1 else 0) + (if ltb 0 (length r.body) then 1 else 0) + 1

pub put_parts :
    (left : ℕ) (out bytes stream : Bytes)
    → let p = put_rsp_into_buff left out bytes in
      (p.to_be_sent ++ take p.network_buff_left (p.left_over ++ stream)
        ≡ out ++ take left (bytes ++ stream))
      × (drop p.network_buff_left (p.left_over ++ stream) ≡ drop left (bytes ++ stream))
unfolding put_rsp_into_buff
put_parts left out bytes stream = elim (Bool-cases (leb (length bytes) left)) [
  | inl fits ↦ rw fits (
      ground (
        arith,
        take-append left bytes stream,
        drop-append left bytes stream,
        append_assoc out bytes (take (left - length bytes) stream),
      ))
  | inr over ↦ rw over (
      ground (
        arith,
        take-append_le left bytes stream,
        drop-append_le left bytes stream,
        append-nil (out ++ take left bytes),
      ))
]

pub put_progress :
    (left : ℕ) (out bytes : Bytes)
    → let p = put_rsp_into_buff left out bytes in (p.left_over ≡ []) ⊎ (p.network_buff_left ≡ 0)
unfolding put_rsp_into_buff
put_progress left out bytes = ground arith

pub Sent-cong :
    (l l' : ℕ) (o o' s s' : Bytes) (res : Outcome (List Re3 × Bytes))
    → (o ++ take l s ≡ o' ++ take l' s')
    → (drop l s ≡ drop l' s')
    → Sent l o s res
    → Sent l' o' s' res
Sent-cong l l' o o' s s' (fault e) p q h = h
Sent-cong l l' o o' s s' (ok (deque, sent)) p q h = (h.0 ∙ p, h.1 ∙ q)

pub nil_of_length : (s : Bytes) → ltb 0 (length s) ≡ false → s ≡ []
nil_of_length [] h = refl
nil_of_length (c ∷ s) h = absurd (ground arith)

-- Enough rounds for the first response and those behind it; one if the buffer is full.
abbrev pub Enough : ℕ → ℕ → Response → List Re3 → Type 0
Enough fuel left r rest = (if left == 0 then 0 else rounds r + 3 * length rest) < fuel

pub Sent-stop :
    (left : ℕ) (out : Bytes) (t : Re3) (r : Response) (rest : List Re3)
    → (not (left == 0) && is_status r.status finished) ≡ false
    → Sent left out (wire (with_response t r ∷ rest)) (ok (with_response t r ∷ rest, out))
Sent-stop zero out t r rest h = (sym (append-nil out), refl)
Sent-stop (suc n) out t r rest h =
    let e : is_status r.status finished ≡ false = ground arith in rw e (sym (append-nil out), refl)

pub Sent-nil :
    (left : ℕ) (out : Bytes) (deque : List Re3)
    → wire deque ≡ []
    → Sent left out [] (ok (deque, out))
Sent-nil zero out deque e = (sym (append-nil out), e)
Sent-nil (suc n) out deque e = (sym (append-nil out), e)

-- One round of the loop, by what there is to send.
module _ (fuel left : ℕ) (out : Bytes) (t : Re3) (r : Response) where
  abbrev pub More : Type 0
  More = (not (left == 0) && is_status r.status finished) ≡ true

  pub round_stop :
      (rest : List Re3)
      → (not (left == 0) && is_status r.status finished) ≡ false
      → send_loop (suc fuel) left out t r rest ≡ ok (with_response t r ∷ rest, out)
  unfolding send_loop
  round_stop rest more = ground arith

  pub round_head :
      (rest : List Re3)
      → More
      → ltb 0 (length r.head) ≡ true
      → let p = put_rsp_into_buff left out r.head in
        send_loop (suc fuel) left out t r rest
        ≡ send_loop fuel p.network_buff_left p.to_be_sent t (record r { head = p.left_over }) rest
  unfolding send_loop
  round_head rest more h = ground arith

  pub round_body :
      (rest : List Re3)
      → More
      → ltb 0 (length r.head) ≡ false
      → ltb 0 (length r.body) ≡ true
      → let p = put_rsp_into_buff left out r.body in
        send_loop (suc fuel) left out t r rest
        ≡ send_loop fuel p.network_buff_left p.to_be_sent t (record r { body = p.left_over }) rest
  unfolding send_loop
  round_body rest more h b = ground arith

  pub round_last :
      More
      → ltb 0 (length r.head) ≡ false
      → ltb 0 (length r.body) ≡ false
      → send_loop (suc fuel) left out t r [] ≡ ok ([], out)
  unfolding send_loop
  round_last more h b = ground arith

  pub round_pop_none :
      (t' : Re3) (rest : List Re3)
      → More
      → ltb 0 (length r.head) ≡ false
      → ltb 0 (length r.body) ≡ false
      → t'.rsp_ptr ≡ none
      → send_loop (suc fuel) left out t r (t' ∷ rest) ≡ ok (t' ∷ rest, out)
  unfolding send_loop
  round_pop_none t' rest more h b n = ground arith

  pub round_pop :
      (t' : Re3) (r' : Response) (rest : List Re3)
      → More
      → ltb 0 (length r.head) ≡ false
      → ltb 0 (length r.body) ≡ false
      → t'.rsp_ptr ≡ some r'
      → send_loop (suc fuel) left out t r (t' ∷ rest) ≡ send_loop fuel left out t' r' rest
  unfolding send_loop
  round_pop t' r' rest more h b s = ground arith

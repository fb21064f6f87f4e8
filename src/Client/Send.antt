-- ===== src/Client/Send.antt =====
-- `putRspIntoBuff` and `passResponse` of src/Client.cpp.
pub mod Wire
pub mod Stream
use lazy_team.Base.{
  ℕ, zero, suc, ◌+◌, ◌-◌, ◌*◌, Bool, true, false, not, ◌&&◌, List, [], ◌∷◌, ◌++◌, Option, none,
  some, ◌≡◌, refl, leb, ltb, ◌==◌, if◌then◌else◌, length, take, drop, Outcome, ok, fault,
  out_of_fuel, failed_assert, null_pointer, ◌>>=◌,
}
use lazy_team.Text.{Bytes}
use lazy_team.Webserv.{Status, finished, is_status, network_buff}
use lazy_team.Message.{Response}
use lazy_team.Re3.{Re3}
use lazy_team.Client.State.{Client}

-- The bytes that go, and those that stay.
pub record Put : Type 0 where
  pub network_buff_left : ℕ
  pub to_be_sent : Bytes
  pub left_over : Bytes

unfoldable pub put_rsp_into_buff : ℕ → Bytes → Bytes → Put
put_rsp_into_buff left out bytes =
    if leb (length bytes) left
    then record {
      network_buff_left = left - length bytes;
      to_be_sent = out ++ bytes;
      left_over = [];
    }
    else record {
      network_buff_left = 0;
      to_be_sent = out ++ take left bytes;
      left_over = drop left bytes;
    }

abbrev with_response : Re3 → Response → Re3
with_response t r = record t { rsp_ptr = some r }

-- The loop, with the response `r` of the first transaction `t`.
unfoldable pub send_loop : ℕ → ℕ → Bytes → Re3 → Response → List Re3 → Outcome (List Re3 × Bytes)
unfolding put_rsp_into_buff
send_loop zero left out t r rest = fault out_of_fuel
send_loop (suc fuel) left out t r rest = elim (not (left == 0) && is_status r.status finished) [
  | false ↦ ok (with_response t r ∷ rest, out)
  | true ↦ elim (ltb 0 (length r.head)) [
    | true ↦
        let p = put_rsp_into_buff left out r.head in
        send_loop fuel p.network_buff_left p.to_be_sent t (record r { head = p.left_over }) rest
    | false ↦ elim (ltb 0 (length r.body)) [
      | true ↦
          let p = put_rsp_into_buff left out r.body in
          send_loop fuel p.network_buff_left p.to_be_sent t (record r { body = p.left_over }) rest
      | false ↦ elim rest [
        | [] ↦ ok ([], out)
        | t' ∷ rest' ↦ elim t'.rsp_ptr [
          | none ↦ ok (t' ∷ rest', out)
          | some r' ↦ send_loop fuel left out t' r' rest'
        ]
      ]
    ]
  ]
]

unfoldable pub send_from : List Re3 → Outcome (List Re3 × Bytes)
unfolding send_loop
send_from [] = fault null_pointer
send_from (t ∷ rest) = elim t.rsp_ptr [
  | none ↦ fault failed_assert
  | some r ↦ send_loop (3 * length (t ∷ rest) + 1) network_buff [] t r rest
]

unfoldable pub pass_response : Client → Outcome (Client × Bytes)
unfolding send_from
pass_response c = do (deque, out) ← send_from c.re3_deque; ok (record c { re3_deque = deque }, out)

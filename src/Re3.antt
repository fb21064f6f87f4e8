-- ===== src/Re3.antt =====
-- include/Re3.hpp and src/Re3.cpp: a transaction, which owns its request, response and resource by
-- pointers that may be null. Each pointer is set once: a second call reports ERROR and changes nothing.
use lazy_team.Base.{Option-cases, inl, inr, ℕ, Option, none, some, ◌≡◌, refl, arith}
use lazy_team.Webserv.{Code, ok_code, error_code}
use lazy_team.Message.{Request, Response, Resource}

pub record Re3 : Type 0 where
  pub req_ptr : Option Request
  pub rsp_ptr : Option Response
  pub rsc_ptr : Option Resource
  pub client_id : ℕ
  pub port_manager_id : ℕ

-- `Re3(client_fd)`; the port is STDOUT until `setPortId`.
abbrev pub new_re3 : ℕ → Re3
new_re3 client_fd = record {
  req_ptr = none;
  rsp_ptr = none;
  rsc_ptr = none;
  client_id = client_fd;
  port_manager_id = 1;
}

set_req_cases : Re3 → Option Request → Request → Re3 × Code
set_req_cases t none r = (record t { req_ptr = some r }, ok_code)
set_req_cases t (some old) r = (t, error_code)

unfoldable pub set_req_ptr : Re3 → Request → Re3 × Code
unfolding set_req_cases
set_req_ptr t r = set_req_cases t t.req_ptr r

set_rsp_cases : Re3 → Option Response → Response → Re3 × Code
set_rsp_cases t none r = (record t { rsp_ptr = some r }, ok_code)
set_rsp_cases t (some old) r = (t, error_code)

unfoldable pub set_rsp_ptr : Re3 → Response → Re3 × Code
unfolding set_rsp_cases
set_rsp_ptr t r = set_rsp_cases t t.rsp_ptr r

set_rsc_cases : Re3 → Option Resource → Resource → Re3 × Code
set_rsc_cases t none r = (record t { rsc_ptr = some r }, ok_code)
set_rsc_cases t (some old) r = (t, error_code)

unfoldable pub set_rsc_ptr : Re3 → Resource → Re3 × Code
unfolding set_rsc_cases
set_rsc_ptr t r = set_rsc_cases t t.rsc_ptr r

-- A first response is taken, and nothing else changes.
pub set_rsp_ptr-none :
    (t : Re3) (r : Response)
    → t.rsp_ptr ≡ none
    → (set_rsp_ptr t r).0 ≡ record t { rsp_ptr = some r }
unfolding set_rsp_ptr set_rsp_cases
set_rsp_ptr-none t r e = ground arith

-- A first resource is taken, and nothing else changes.
pub set_rsc_ptr-none :
    (t : Re3) (x : Resource)
    → t.rsc_ptr ≡ none
    → (set_rsc_ptr t x).0 ≡ record t { rsc_ptr = some x }
unfolding set_rsc_ptr set_rsc_cases
set_rsc_ptr-none t x e = rw (e, set_rsc_cases) refl

pub set_rsc_ptr-rsp_ptr : (t : Re3) (r : Resource) → (set_rsc_ptr t r).0.rsp_ptr ≡ t.rsp_ptr
unfolding set_rsc_ptr set_rsc_cases
set_rsc_ptr-rsp_ptr t r = elim (Option-cases t.rsc_ptr) [
  | inl e ↦ rw (e, set_rsc_cases) refl
  | inr (old, e) ↦ rw (e, set_rsc_cases) refl
]

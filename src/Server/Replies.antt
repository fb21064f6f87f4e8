-- ===== src/Server/Replies.antt =====
-- What the event loop may rely on when src/Server.cpp has answered.
pub mod Methods
pub mod Complete
use lazy_team.Base.{
  ℕ, ◌+◌, Bool, true, false, not, ◌&&◌, ◌||◌, List, [], ◌∷◌, Option, none, some, ◌≡◌, refl, ◌⊎◌,
  inl, inr, ◌==◌, if◌then◌else◌, ltb, length, Outcome, ok, fault, deref, assert, ◌>>=◌, ◌>>◌, Ends,
  IsReal, Ensures, Ensures-bind, Ends-Ensures-bind, Ends-bind, deref-Ends, assert-Ensures,
  if-Ensures, arith, ap, ◌∙◌, sym, subst,
}
use lazy_team.Text.{Bytes, codes, substr, text_eq, decimal}
use lazy_team.StringMap.{StringMap, assign}
use lazy_team.Webserv.{
  Status, nothing, finished, reading, writing, is_status, ServerStatus, resource_write_init,
  resource_read_init, resource_write_waiting, resource_read_waiting, response_making_done,
  response_error, process_waiting, FileType, file, directory, not_found, has_bit, read_fail,
  disconnect, cgi_fail, read_done, write_done,
}
use lazy_team.Message.{
  Request, Response, Resource, new_response, new_response-status, get_header_value,
}
use lazy_team.Re3.{Re3, set_rsp_ptr, set_rsp_ptr-none}
use lazy_team.Location.{Location, get_default_error_page}
use lazy_team.System.{System}
use lazy_team.Server.Respond.{
  Answer, respond, html_response, make_redirect_response, error_page, make_error_response, opened,
  is_none, dated,
}

-- A finished response is there as soon as the event loop is told so, and not before; a failed
-- response is never reported.
abbrev pub Replied : Re3 → ServerStatus → Type 0
Replied t response_making_done = (r : Response) × (t.rsp_ptr ≡ some r) × (r.status ≡ finished)
Replied t response_error = ⊥
Replied t resource_write_init = t.rsp_ptr ≡ none
Replied t resource_read_init = t.rsp_ptr ≡ none
Replied t resource_write_waiting = t.rsp_ptr ≡ none
Replied t resource_read_waiting = t.rsp_ptr ≡ none
Replied t process_waiting = t.rsp_ptr ≡ none

-- No response is there yet, and what is left behind, each if the flag is set. With the flag unset,
-- what is left is only that the code comes to an end.
abbrev pub IsNew : Bool → Re3 → Type 0
IsNew b t = b ≡ true → t.rsp_ptr ≡ none

abbrev pub Reply : Bool → Re3 → ServerStatus → Type 0
Reply b t a = b ≡ true → Replied t a

-- The answer is a value of which this holds, or a fault of the program.
pub record Gives {S : Type 0} (P : Re3 → ServerStatus → Type 0) (m : Answer S) : Type 0 where
  pub holds : Ensures (λ (t, a, s). P t a) m

module _ {S : Type 0} {P : Re3 → ServerStatus → Type 0} where
  pub gives : (t : Re3) (a : ServerStatus) (s : S) → P t a → Gives P (ok (t, a, s))
  gives t a s h = record { holds = h }

  pub if-Gives : (b : Bool) (m n : Answer S) → Gives P m → Gives P n → Gives P (if b then m else n)
  if-Gives true m n h k = h
  if-Gives false m n h k = k

  pub bind-Gives :
      {A : Type 0} (m : Outcome A) (f : A → Answer S)
      → Ends m
      → ((a : A) → Gives P (f a))
      → Gives P (m >>= f)
  bind-Gives (ok a) f h k = k a
  bind-Gives (fault e) f h k = record { holds = h }

  pub Ensures-Gives :
      {A : Type 0} (Q : A → Type 0) (m : Outcome A) (f : A → Answer S)
      → Ensures Q m
      → ((a : A) → Q a → Gives P (f a))
      → Gives P (m >>= f)
  Ensures-Gives Q (ok a) f h k = k a h
  Ensures-Gives Q (fault e) f h k = record { holds = h }

  pub assert-Gives : (b : Bool) (m : Answer S) → Gives P m → Gives P (assert b >> m)
  assert-Gives true m h = h
  assert-Gives false m h = record { holds = tt }

  pub deref-Gives :
      {A : Type 0} (o : Option A) (f : A → Answer S)
      → ((a : A) → Gives P (f a))
      → Gives P (deref o >>= f)
  deref-Gives o f k = bind-Gives (deref o) f (deref-Ends o) k

abbrev pub Replies : {S : Type 0} → Bool → Answer S → Type 0
Replies b = Gives (Reply b)

-- With the flag set; and with any flag, the code comes to an end.
pub Replied-Gives : {S : Type 0} (m : Answer S) → Replies true m → Gives Replied m
Replied-Gives (ok (t, a, s)) h = record { holds = h.holds refl }
Replied-Gives (fault e) h = record { holds = h.holds }

pub Replies-Ends : {S : Type 0} {b : Bool} (m : Answer S) → Replies b m → Ends m
Replies-Ends (ok a) h = tt
Replies-Ends (fault e) h = h.holds

pub set_rsp-Replied :
    (t : Re3) (code : Bytes) (headers : StringMap Bytes) (body version : Bytes)
    → t.rsp_ptr ≡ none
    → Replied
        (set_rsp_ptr t (new_response finished code headers body version)).0
        response_making_done
set_rsp-Replied t code headers body version e =
    let r = new_response finished code headers body version in
    (
      r,
      ap (λ (u : Re3). u.rsp_ptr) (set_rsp_ptr-none t r e),
      new_response-status finished code headers body version,
    )

pub set_rsp-Reply :
    {b : Bool} (t : Re3) (code : Bytes) (headers : StringMap Bytes) (body version : Bytes)
    → IsNew b t
    → Reply b
        (set_rsp_ptr t (new_response finished code headers body version)).0
        response_making_done
set_rsp-Reply t code headers body version e = λ x. set_rsp-Replied t code headers body version (e x)

pub respond-Replies :
    {S : Type 0} {b : Bool} (t : Re3) (code : Bytes) (headers : StringMap Bytes) (body : Bytes)
    (s : S)
    → IsNew b t
    → Replies b (respond t code headers body s)
unfolding respond
respond-Replies t code headers body s e = assert-Gives (is_none t.rsp_ptr) _ (
    deref-Gives t.req_ptr _
      (λ (req : Request). gives _ _ s (set_rsp-Reply t code headers body req.version e)))

module _ {S : Type 0} {b : Bool} (sys : System S) where
  pub html_response-Replies :
      (t : Re3) (code : Bytes) (headers : StringMap Bytes) (body : Bytes) (s : S)
      → IsNew b t
      → Replies b (html_response sys t code headers body s)
  unfolding html_response
  html_response-Replies t code headers body s e = respond-Replies t code _ body s e

  pub make_redirect_response-Replies :
      (t : Re3) (to : Bytes × Bytes) (s : S)
      → IsNew b t
      → Replies b (make_redirect_response sys t to s)
  unfolding make_redirect_response
  make_redirect_response-Replies t (code, to) s e = html_response-Replies t code _ _ s e

  error_page-Replies :
      (t : Re3) (code : Bytes) (o : Option ℕ) (s : S)
      → IsNew b t
      → Replies b (error_page sys t code o s)
  unfolding error_page opened
  error_page-Replies t code none s e = html_response-Replies t code _ _ s e
  error_page-Replies t code (some fd) s e = deref-Gives t.rsc_ptr _ (λ (rsc : Resource).
      assert-Gives (is_status rsc.status nothing) _
        (gives (opened t rsc reading fd) resource_read_init s e))

  pub make_error_response-Replies :
      (t : Re3) (l : Location) (code : Bytes) (s : S)
      → IsNew b t
      → Replies b (make_error_response sys t l code s)
  unfolding make_error_response
  make_error_response-Replies t l code s e =
      let page = get_default_error_page l code in
      let f = sys.open_read s page in
      if-Gives (length page == 0) _ _ (error_page-Replies t code none s e)
        (error_page-Replies t code f.0 f.1 e)

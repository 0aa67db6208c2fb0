-- ===== src/Submit/Laws.antt =====
-- One request leaves a form, whatever becomes of it.
use testkit_service.Prelude.{
  String, false, Option, none, some, List, ◌∷◌, ◌≡◌, ◌⊎◌, inl, inr, refl, arith, has_prefix,
  Bool-cases,
}
use testkit_service.Browser.{
  Browser, Outcome, ok, err, Effect, sent, assigned, toasted, success, error, Failure, Request,
}
use testkit_service.Request.{Server, call}
use testkit_service.Request.Laws.{IsSettled, call-IsSettled, after_send, logged_out, carried}
use testkit_service.Submit.{report, try_send, send_plain, requests}

pub requests-logged_out : (w : Browser) → requests (logged_out w).log ≡ requests w.log
unfolding requests
requests-logged_out w = elim (Bool-cases (has_prefix w.pathname "/user/login")) [
  | inl at ↦ simp at refl
  | inr away ↦ simp away refl
]

-- The request as it leaves.
abbrev pub sent_request : Browser → Request → Request
sent_request w req = record req { headers = carried w req.headers }

module _ {A P : Type 0} (server : Server A) (req : Request) (done : A → String) (take : A → P → P)
    (failed : Failure → Option String) (page : P) (w : Browser) where
  -- A response is taken and its message shown, or the failure's message is shown and the page kept; one
  -- request has left.
  abbrev pub IsTried : Outcome P × Browser → Type 0
  IsTried r =
      (requests r.1.log ≡ sent_request w req ∷ requests w.log)
      × (((a : A) × (log : List Effect) × (r.0 ≡ ok (take a page))
            × (r.1.log ≡ toasted success (done a) ∷ log))
          ⊎ ((e : Failure) × (log : List Effect) × (r.0 ≡ ok page)
              × ((text : String) → failed e ≡ some text → r.1.log ≡ toasted error text ∷ log)))

  reported :
      (e : Failure) (v : Browser)
      → requests v.log ≡ sent_request w req ∷ requests w.log
      → (o : Option String) → failed e ≡ o
      → IsTried (testkit_service.Browser.bind_from (λ _ u. (ok page, u)) (report o v))
  unfolding requests
  reported e v one none m = (one, inr (e, v.log, refl, λ text s. cc))
  reported e v one (some t) m = (one, inr (e, v.log, refl, λ text s. ground (arith, s, m)))

  tried :
      IsSettled (call server req w) (after_send w req)
      → IsTried (try_send server req done take failed page w)
  unfolding try_send requests
  tried (inl (a, e)) = rw e (refl, inl (a, (after_send w req).log, refl, refl))
  tried (inr (inl (f, e))) = rw e (reported f (after_send w req) refl (failed f) refl)
  tried (inr (inr (f, e))) = rw e (
      reported f (logged_out (after_send w req)) (requests-logged_out (after_send w req)) (failed f)
        refl)

  pub try_send-IsTried : w.blocked ≡ false → IsTried (try_send server req done take failed page w)
  try_send-IsTried b = tried (call-IsSettled server req w b)

module _ {A P : Type 0} (server : Server A) (req : Request) (done : A → String) (take : A → P → P)
    (page : P) (w : Browser) where
  -- A response is taken and its message shown, or the failure is the action's; one request has left.
  abbrev pub IsPassed : Outcome P × Browser → Type 0
  IsPassed r =
      (requests r.1.log ≡ sent_request w req ∷ requests w.log)
      × (((a : A) × (log : List Effect) × (r.0 ≡ ok (take a page))
            × (r.1.log ≡ toasted success (done a) ∷ log))
          ⊎ ((e : Failure) × (r.0 ≡ err e)))

  passed :
      IsSettled (call server req w) (after_send w req)
      → IsPassed (send_plain server req done take page w)
  unfolding send_plain requests
  passed (inl (a, e)) = rw e (refl, inl (a, (after_send w req).log, refl, refl))
  passed (inr (inl (f, e))) = rw e (refl, inr (f, refl))
  passed (inr (inr (f, e))) = rw e (requests-logged_out (after_send w req), inr (f, refl))

  pub send_plain-IsPassed : w.blocked ≡ false → IsPassed (send_plain server req done take page w)
  send_plain-IsPassed b = passed (call-IsSettled server req w b)

-- ===== src/Request/Laws.antt =====
-- What a request carries, and what a failed one leaves behind.
use testkit_service.Prelude.{
  String, true, false, Option, none, some, List, ◌∷◌, ◌≡◌, ◌≢◌, refl, inl, inr, Bool-cases, ◌⊎◌,
  arith, ◌==◌, ◌&&◌, truthy, get_or, lookup, insert, lookup-insert, if◌then◌else◌, has_prefix,
}
use Prim.Native.String
use testkit_service.Browser.{
  Browser, Request, sent, assigned, Failure, http, Outcome, ok, err, token_key, user_key,
  choice_key, update,
}
use testkit_service.Request.{
  Reply, replied, failed, Server, intercept, status_of, drop_session, error_handler, call, exchange,
  settle, has_status,
}

abbrev pub bearer : Browser → String
bearer w = String.◌++◌ "Bearer " (get_or (w.local token_key) "")

-- The headers of a request after the interceptor, where storage can be read.
abbrev pub carried : Browser → List (String × String) → List (String × String)
carried w hs =
    let hs' = if truthy (w.local token_key) then insert "Authorization" (bearer w) hs else hs in
    if truthy (w.local choice_key)
    then insert "x-tenant-choice" (get_or (w.local choice_key) "") hs'
    else hs'

pub intercept_lem :
    (w : Browser) (c : Request)
    → w.blocked ≡ false
    → intercept c w ≡ (ok (record c { headers = carried w c.headers }), w)
unfolding intercept
intercept_lem w c u = ground arith

pub lookup-carried :
    (w : Browser) (hs : List (String × String)) (k : String)
    → lookup k (carried w hs) ≡ (
        if truthy (w.local choice_key) && "x-tenant-choice" == k
        then some (get_or (w.local choice_key) "")
        else (if truthy (w.local token_key) && "Authorization" == k
            then some (bearer w)
            else lookup k hs))
lookup-carried w hs k = ground (
  arith,
  lookup-insert "Authorization" k (bearer w) hs,
  lookup-insert "x-tenant-choice" k (get_or (w.local choice_key) "") hs,
  lookup-insert "x-tenant-choice" k (get_or (w.local choice_key) "")
      (insert "Authorization" (bearer w) hs),
)

-- Where storage can be read, the interceptor keeps the method and the URL and touches the browser
-- in nothing. A header of the result is the stored choice under `x-tenant-choice` if that choice is
-- not empty, the stored token behind `Bearer ` under `Authorization` if that token is not empty, and
-- else what the caller set.
pub intercept-headers :
    (w : Browser) (c : Request)
    → w.blocked ≡ false
    → (r : Request) × (intercept c w ≡ (ok r, w))
      × (r.method ≡ c.method)
      × (r.url ≡ c.url)
      × ((k : String)
          → lookup k r.headers ≡ (
              if truthy (w.local choice_key) && "x-tenant-choice" == k
              then some (get_or (w.local choice_key) "")
              else (if truthy (w.local token_key) && "Authorization" == k
                  then some (bearer w)
                  else lookup k c.headers)))
intercept-headers w c u =
    let r : Request = record c { headers = carried w c.headers } in
    (r, intercept_lem w c u, refl, refl, lookup-carried w c.headers)

-- One call where storage can be read: the intercepted request is logged, then the reply is settled.
pub call_lem :
    {A : Type 0} (server : Server A) (c : Request) (w : Browser)
    → w.blocked ≡ false
    → call server c w ≡ settle (exchange server (record c { headers = carried w c.headers }) w)
unfolding call
call_lem server c w u = cc (intercept_lem w c u)

-- The browser after the 401 cleanup, where storage can be changed.
abbrev pub logged_out : Browser → Browser
logged_out w =
    let w' = record w {
      local = update (update (update w.local token_key none) user_key none) choice_key none;
    } in
    if has_prefix w.pathname "/user/login"
    then w'
    else record w' { pathname = "/user/login"; log = assigned "/user/login" ∷ w.log }

pub drop_session_lem : (w : Browser) → w.blocked ≡ false → drop_session w ≡ (ok tt, logged_out w)
unfolding drop_session
drop_session_lem w u = simp u (ground arith)

at_login : has_prefix "/user/login" "/user/login" ≡ true
unfolding has_prefix
at_login = refl

-- Where storage can be read, a failure with status 401 is rethrown with the token, the user and the
-- tenant choice gone, and the browser is at the login page or below it.
pub error_handler-unauthorized :
    {A : Type 0} (w : Browser) (data_message response_message : Option String)
    → w.blocked ≡ false
    → let e = http (some 401) data_message response_message in
      let r = error_handler {A = A} e w in
      (r.0 ≡ err e)
      × (r.1.local token_key ≡ none)
      × (r.1.local user_key ≡ none)
      × (r.1.local choice_key ≡ none)
      × (has_prefix r.1.pathname "/user/login" ≡ true)
unfolding error_handler
error_handler-unauthorized w dm rm u = elim (Bool-cases (has_prefix w.pathname "/user/login")) [
  | inl at ↦ rw (drop_session_lem w u, at) (refl, refl, refl, refl, at)
  | inr away ↦ rw (drop_session_lem w u, away) (refl, refl, refl, refl, at_login)
]

-- Every failure of another kind is rethrown and changes nothing in the browser.
pub error_handler-other :
    {A : Type 0} (w : Browser) (e : Failure)
    → status_of e ≢ some 401
    → error_handler {A = A} e w ≡ (err e, w)
unfolding error_handler
error_handler-other w e ne = ground arith

-- The three ways in which an exchange is settled: a value; a failure that changes nothing; a
-- failure behind the 401 cleanup.
abbrev pub IsSettled : {A : Type 0} → Outcome A × Browser → Browser → Type 0
IsSettled {A} r w =
    ((a : A) × (r ≡ (ok a, w)))
    ⊎ (((e : Failure) × (r ≡ (err e, w))) ⊎ ((e : Failure) × (r ≡ (err e, logged_out w))))

settle-IsSettled :
    {A : Type 0} (r : Reply A) (w : Browser) → w.blocked ≡ false → IsSettled (settle (r, w)) w
unfolding settle error_handler
settle-IsSettled (replied a) w u = inl (a, refl)
settle-IsSettled (failed e) w u = elim (Bool-cases (has_status (status_of e) 401)) [
  | inl unauthorized ↦ inr (inr (e, rw (unauthorized, drop_session_lem w u)))
  | inr other ↦ inr (inl (e, rw other))
]

-- The browser once a request has left.
abbrev pub after_send : Browser → Request → Browser
after_send w c = record w { log = sent (record c { headers = carried w c.headers }) ∷ w.log }

pub call-IsSettled :
    {A : Type 0} (server : Server A) (c : Request) (w : Browser)
    → w.blocked ≡ false
    → IsSettled (call server c w) (after_send w c)
call-IsSettled server c w u = rw (call_lem server c w u) (
    settle-IsSettled (server w.log (record c { headers = carried w c.headers })) (after_send w c) u)

-- The browser behind a failed request: after a 401 it is logged out.
abbrev pub after_failure : Failure → Browser → Browser
after_failure e w = if has_status (status_of e) 401 then logged_out w else w

-- What a call leaves, by the server's answer to the request as it left.
abbrev pub IsAnswered : {A : Type 0} → Server A → Request → Browser → Outcome A × Browser → Type 0
IsAnswered {A} server c w r =
    let answer = server w.log (record c { headers = carried w c.headers }) in
    ((a : A) × (answer ≡ replied a) × (r ≡ (ok a, after_send w c)))
    ⊎ ((e : Failure) × (answer ≡ failed e) × (r ≡ (err e, after_failure e (after_send w c))))

module _ {A : Type 0} (server : Server A) (c : Request) (w : Browser) (b : w.blocked ≡ false) where
  replied_lem :
      (a : A)
      → server w.log (record c { headers = carried w c.headers }) ≡ replied a
      → call server c w ≡ (ok a, after_send w c)
  unfolding settle
  replied_lem a e = rw (call_lem server c w b, e) refl

  failed_lem :
      (f : Failure)
      → server w.log (record c { headers = carried w c.headers }) ≡ failed f
      → call server c w ≡ (err f, after_failure f (after_send w c))
  unfolding settle error_handler
  failed_lem f e = elim (Bool-cases (has_status (status_of f) 401)) [
    | inl gone ↦ rw (call_lem server c w b, e, gone) (rw (drop_session_lem (after_send w c) b) refl)
    | inr other ↦ rw (call_lem server c w b, e, other) refl
  ]

  by_answer :
      (answer : Reply A)
      → server w.log (record c { headers = carried w c.headers }) ≡ answer
      → IsAnswered server c w (call server c w)
  by_answer (replied a) e = inl (a, e, replied_lem a e)
  by_answer (failed f) e = inr (f, e, failed_lem f e)

  pub call-IsAnswered : IsAnswered server c w (call server c w)
  call-IsAnswered = by_answer _ refl

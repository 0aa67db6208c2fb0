-- ===== src/Browser.antt =====
-- The browser that the console's code runs in: web storage, the address bar, the requests and the
-- messages. A page's code is an action on it, which returns a value or throws. Storage keeps texts
-- under keys; with `blocked` every storage method throws, with `full` only `setItem` does. `log`
-- holds what the code did to the outside, the newest first.
pub mod Laws
use testkit_service.Prelude.{
  ℕ, String, Bool, Option, none, some, List, [], ◌∷◌, ◌==◌, if◌then◌else◌, true, false, has_prefix,
}

-- A request: `body` holds the fields of the JSON object that is sent, [] where none is; a field
-- whose value is undefined is left out by JSON.
pub record Request : Type 0 where
  pub method : String
  pub url : String
  pub headers : List (String × String)
  pub body : List (String × Option String)

pub data Toast : Type 0 where
  success warning error : Toast

pub data Effect : Type 0 where
  sent : Request → Effect
  assigned pushed replaced : String → Effect
  reloaded rendered : Effect
  toasted : Toast → String → Effect

pub record Browser : Type 0 where
  pub local : String → Option String
  pub session : String → Option String
  pub blocked : Bool
  pub full : Bool
  pub pathname : String
  pub log : List Effect

-- What code may throw: a storage error, a failed request with the parts that handlers read (status,
-- `data.message`, `response.data.message`), or an `Error` with a message.
pub data Failure : Type 0 where
  storage_error : Failure
  http : (status : Option ℕ) → (data_message response_message : Option String) → Failure
  thrown : String → Failure

pub data Outcome (A : Type 0) : Type 0 where
  ok : A → Outcome A
  err : Failure → Outcome A

abbrev pub M : Type 0 → Type 0
M A = Browser → Outcome A × Browser

abbrev pub pure : {A : Type 0} → A → M A
pure a w = (ok a, w)

abbrev pub throw : {A : Type 0} → Failure → M A
throw e w = (err e, w)

abbrev pub bind_from : {A B : Type 0} → (A → M B) → Outcome A × Browser → Outcome B × Browser
bind_from k (ok a, w) = k a w
bind_from k (err e, w) = (err e, w)

infixl 5 ◌>>=◌ ◌>>◌
abbrev pub ◌>>=◌ : {A B : Type 0} → M A → (A → M B) → M B
◌>>=◌ m k w = bind_from k (m w)

abbrev pub ◌>>◌ : {B : Type 0} → M (Unit {0}) → M B → M B
m >> k = m >>= λ _. k

abbrev pub catch_from : {A : Type 0} → (Failure → M A) → Outcome A × Browser → Outcome A × Browser
catch_from k (ok a, w) = (ok a, w)
catch_from k (err e, w) = k e w

-- `try { m } catch (e) { k(e) }`: what `m` did to the browser stays done.
abbrev pub catch : {A : Type 0} → M A → (Failure → M A) → M A
catch m k w = catch_from k (m w)

abbrev pub when : Bool → M (Unit {0}) → M (Unit {0})
when true m = m
when false m = pure tt

abbrev pub update : (String → Option String) → String → Option String → String → Option String
update f k v j = if k == j then v else f j

-- `localStorage.getItem(k)`, `.setItem(k, v)`, `.removeItem(k)`
abbrev pub get_item : String → M (Option String)
get_item k w = if w.blocked then (err storage_error, w) else (ok (w.local k), w)

abbrev pub set_item : String → String → M (Unit {0})
set_item k v w =
    if w.blocked
    then (err storage_error, w)
    else (if w.full
        then (err storage_error, w)
        else (ok tt, record w { local = update w.local k (some v) }))

abbrev pub remove_item : String → M (Unit {0})
remove_item k w =
    if w.blocked
    then (err storage_error, w)
    else (ok tt, record w { local = update w.local k none })

abbrev pub emit : Effect → M (Unit {0})
emit e w = (ok tt, record w { log = e ∷ w.log })

-- `window.location.pathname.startsWith(prefix)`
abbrev pub at_path : String → M Bool
at_path prefix w = (ok (has_prefix w.pathname prefix), w)

-- `history.push`, `history.replace` and `window.location.href = …`
abbrev pub navigate : (String → Effect) → String → M (Unit {0})
navigate how path w = (ok tt, record w { pathname = path; log = how path ∷ w.log })

-- The storage keys that the console uses.
abbrev pub token_key : String
token_key = "testkit_token"

abbrev pub user_key : String
user_key = "testkit_user"

abbrev pub choice_key : String
choice_key = "testkit_tenant_choice"

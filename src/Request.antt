-- ===== src/Request.antt =====
-- web/src/request.ts: what every request of the console carries, and what a failed one does.
-- `call` composes the two the way umi's request does: interceptors, the exchange, `errorHandler`.
-- The server is a parameter: a function of the history and of the request.
pub mod Laws
use testkit_service.Prelude.{
  ℕ, String, Option, none, some, List, ◌∷◌, eqb, not, truthy, get_or, insert, Bool, false,
  if◌then◌else◌,
}
use Prim.Native.String
use testkit_service.Browser.{
  Browser, Request, Effect, sent, assigned, Failure, storage_error, http, thrown, Outcome, ok, err,
  M, pure, throw, ◌>>=◌, ◌>>◌, when, catch, get_item, remove_item, emit, at_path, navigate,
  token_key, user_key, choice_key,
}

pub data Reply (A : Type 0) : Type 0 where
  replied : A → Reply A
  failed : Failure → Reply A

abbrev pub Server : Type 0 → Type 0
Server A = List Effect → Request → Reply A

-- the request interceptor
unfoldable pub intercept : Request → M Request
intercept config = do
  token ← get_item token_key
  let authorized =
      if truthy token
      then insert "Authorization" (String.◌++◌ "Bearer " (get_or token "")) config.headers
      else config.headers
  choice ← get_item choice_key
  let headers =
      if truthy choice then insert "x-tenant-choice" (get_or choice "") authorized else authorized
  pure (record config { headers = headers })

-- `error?.response?.status`
abbrev pub status_of : Failure → Option ℕ
status_of storage_error = none
status_of (http status _ _) = status
status_of (thrown _) = none

abbrev pub has_status : Option ℕ → ℕ → Bool
has_status none n = false
has_status (some m) n = eqb m n

-- the body of `if (status === 401)`
unfoldable pub drop_session : M (Unit {0})
drop_session = do
  remove_item token_key
  remove_item user_key
  remove_item choice_key
  on_login ← at_path "/user/login"
  when (not on_login) (navigate assigned "/user/login")

-- errorHandler: it rethrows whatever it was given
unfoldable pub error_handler : {A : Type 0} → Failure → M A
unfolding drop_session
error_handler error = do when (has_status (status_of error) 401) drop_session; throw error

abbrev pub exchange : {A : Type 0} → Server A → Request → Browser → Reply A × Browser
exchange server req w = (server w.log req, record w { log = sent req ∷ w.log })

unfoldable pub settle : {A : Type 0} → Reply A × Browser → Outcome A × Browser
unfolding error_handler
settle (replied a, w) = (ok a, w)
settle (failed e, w) = error_handler e w

unfoldable pub call : {A : Type 0} → Server A → Request → M A
unfolding intercept settle
call server config = do req ← intercept config; λ w. settle (exchange server req w)

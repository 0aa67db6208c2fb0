-- ===== src/Login.antt =====
-- web/src/pages/User/Login/index.tsx: the login form's submit, and the redirect of a visitor who is
-- already signed in. `refresh` of the initial state is getInitialState run again.
pub mod Laws
use testkit_service.Prelude.{
  String, Bool, true, false, Option, none, some, List, [], ◌∷◌, truthy, get_or, if◌then◌else◌,
}
use testkit_service.Browser.{
  M, pure, ◌>>=◌, ◌>>◌, catch, get_item, set_item, emit, navigate, pushed, replaced, toasted, error,
  success, Failure, storage_error, http, thrown, token_key, user_key, throw,
}
use testkit_service.Choice.{clear_tenant_choice}
use testkit_service.Identity.{User, Codec, Parsed, invalid, falsy, object, post_login_target}
use testkit_service.Bootstrap.{WhoAmI, get_initial_state}
use testkit_service.Request.{Server, call}
use testkit_service.Services.{login}

-- v1TokenResponse, the fields that the forms read
pub record TokenResponse : Type 0 where
  pub token : Option String
  pub user : Option User

-- bizMessage of the register page; the login page writes it out
unfoldable pub biz_message : Failure → String → String
biz_message (http _ (some m) _) fallback = m
biz_message (http _ none response_message) fallback = get_or response_message fallback
biz_message storage_error fallback = fallback
biz_message (thrown _) fallback = fallback

-- What follows a successful exchange, on both forms: `!token || !user` first.
unfoldable pub adopt : Codec → WhoAmI → String → (User → String) → TokenResponse → M Bool
adopt json who missing welcome response = elim response.user [
  | none ↦ do emit (toasted error missing); pure false
  | some user ↦
      if truthy response.token
      then (do
        clear_tenant_choice
        set_item token_key (get_or response.token "")
        set_item user_key (json.print user)
        _ ← get_initial_state json who
        emit (toasted success (welcome user))
        navigate pushed (post_login_target user.user_type)
        pure true)
      else (do emit (toasted error missing); pure false)
]

-- onFinish
unfoldable pub submit_login :
    Codec → WhoAmI → Server TokenResponse → (username password : String) → M Bool
submit_login json who server username password =
    catch
      (do
        let body =
            ("method", some "LOGIN_METHOD_USERNAME_PASSWORD")
            ∷ ("username", some username)
            ∷ ("password", some password)
            ∷ ("dialCode", some "+86")
            ∷ []
        response ← call server (login body)
        adopt json who "登录失败：响应缺少 token 或用户信息" (λ _. "登录成功") response)
      (λ e. do emit (toasted error (biz_message e "登录失败")); pure false)

-- `JSON.parse(…).userType ?? ""`: a read of a field of null throws
abbrev type_text : Parsed → M String
type_text invalid = throw (thrown "SyntaxError")
type_text falsy = throw (thrown "TypeError")
type_text (object u) = pure (get_or u.user_type "")

-- the effect of the login page
unfoldable pub redirect_signed_in : Codec → M (Unit {0})
redirect_signed_in json = do
  token ← get_item token_key
  let go_home = do
    user_type ←
        catch (do raw ← get_item user_key; type_text (json.parse (get_or raw "{}"))) (λ _. pure "")
    navigate replaced (post_login_target (some user_type))
  if truthy token then go_home else pure tt

-- ===== src/Users.antt =====
-- web/src/pages/User/List.tsx: the users of a tenant or of all. A number in a query stands as its
-- decimal text, a query as the text that the parameter `query` writes; `format` is the text of a time.
pub mod Laws
use Prim.Native.String as Text
use testkit_service.Prelude.{
  ℕ, ◌+◌, String, Bool, true, false, Option, none, some, List, [], ◌∷◌, map, get_or, or_undefined,
  is_text, truthy, has_prefix, not, ◌&&◌, if◌then◌else◌,
}
use testkit_service.Browser.{M, pure, ◌>>=◌, Request}
use testkit_service.Request.{Server, call}
use testkit_service.Services.{create_user, disable_user, list_users_paged, user_list_apps}
use testkit_service.Submit.{send_plain}
use testkit_service.Labels.User.{user_status_tag}

-- API.User, the fields that the actions read
pub record UserRow : Type 0 where
  pub id : Option String
  pub status : Option String
  pub last_login_at : Option String

-- API.v1UserAppInfo, the fields that the options read
pub record UserApp : Type 0 where
  pub name : Option String
  pub tenant_key : Option String

-- DISABLED
abbrev pub disabled_status : String
disabled_status = "USER_STATUS_DISABLED"

-- `setApps` of the effect: values and labels
unfoldable pub app_options : Option (List UserApp) → List (String × String)
app_options apps =
    map
      (λ (a : UserApp). (
        get_or a.tenant_key "",
        Text.◌++◌ (get_or a.name "undefined")
            (Text.◌++◌ "（" (Text.◌++◌ (get_or a.tenant_key "undefined") "）")),
      ))
      (get_or apps [])

unfoldable pub load_apps : Server (Option (List UserApp)) → M (List (String × String))
unfolding app_options
load_apps server = do resp ← call server user_list_apps; pure (app_options resp)

-- the cell of the last login
unfoldable pub last_login_cell : (format : String → String) → Option String → String
last_login_cell format at =
    if truthy at && not (has_prefix (get_or at "") "1970") then format (get_or at "") else "-"

-- the text of the link that stops or starts a user
abbrev pub is_disabled_user : UserRow → Bool
is_disabled_user r = is_text r.status disabled_status

unfoldable pub toggle_label : UserRow → String
toggle_label r = if is_disabled_user r then "启用" else "禁用"

-- onConfirm of that link; what it leaves is how often the table was reloaded
unfoldable pub toggle_user_request : UserRow → Request
toggle_user_request r =
    disable_user (get_or r.id "") (
      ("disable", some (if is_disabled_user r then "false" else "true")) ∷ ("reason", some "") ∷ [])

unfoldable pub toggle_user : Server (Unit {0}) → UserRow → ℕ → M ℕ
unfolding toggle_user_request
toggle_user server r reloads =
    send_plain server (toggle_user_request r) (λ _. "已操作") (λ _ n. n + 1) reloads

-- the filters of the search form
pub record UserFilter : Type 0 where
  pub status : Option String
  pub nickname : Option String
  pub username : Option String
  pub email : Option String
  pub user_type : Option String
  pub tenant_key : Option String

unfoldable pub users_request :
    (decimal : ℕ → String)
    → (query : List (String × Option String) → String) → UserFilter
    → (current : Option ℕ) → (page_size : Option ℕ) → Request
users_request decimal query params current page_size = list_users_paged (
    query (
      ("page", some (decimal (get_or current 1)))
      ∷ ("pageSize", some (decimal (get_or page_size 20)))
      ∷ ("count", some "true")
      ∷ ("status", params.status)
      ∷ ("nickname", params.nickname)
      ∷ ("username", params.username)
      ∷ ("email", params.email)
      ∷ ("userType", params.user_type)
      ∷ ("tenantKey", or_undefined params.tenant_key)
      ∷ []))

-- onFinish of the form for a new user, whose values are sent as they are
unfoldable pub create_user_from :
    Server (Unit {0}) → (vals : List (String × Option String)) → ℕ → M ℕ
create_user_from server vals reloads =
    send_plain server (create_user vals) (λ _. "已创建") (λ _ n. n + 1) reloads

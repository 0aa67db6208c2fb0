-- ===== src/Sessions.antt =====
-- web/src/pages/Session/index.tsx: the devices that are signed in, what a row shows, and the revoking.
-- The text of a time in the browser's zone and the text of a query are parameters.
pub mod Laws
use Prim.Native.String as Text
use testkit_service.Prelude.{
  ℕ, ◌+◌, String, Bool, Option, none, some, List, [], ◌∷◌, get_or, or_else, or_undefined, is_text,
  truthy, lookup, not, ◌&&◌, ◌||◌, if◌then◌else◌,
}
use testkit_service.Browser.{M, pure, ◌>>=◌, Request}
use testkit_service.Request.{Server}
use testkit_service.Services.{list_sessions, revoke_session, revoke_all_sessions}
use testkit_service.Submit.{send_plain}
use testkit_service.Labels.User.{provider_value_enum, device_type_value_enum, login_method_label}

-- API.Session, the fields that the page reads; `current` is false where it is absent
pub record SessionInfo : Type 0 where
  pub id : Option String
  pub status : Option String
  pub current : Bool
  pub login_method : Option String
  pub login_provider : Option String
  pub device : Option String
  pub device_type : Option String
  pub country : Option String
  pub city : Option String

-- ACTIVE
abbrev pub active : String
active = "SESSION_STATUS_ACTIVE"

-- STATUS_VALUE_ENUM
abbrev pub status_value_enum : List (String × String)
status_value_enum =
    ("SESSION_STATUS_ACTIVE", "活跃")
    ∷ ("SESSION_STATUS_REVOKED", "已登出")
    ∷ ("SESSION_STATUS_EXPIRED", "已失效")
    ∷ []

-- STATUS_TAG: colours and texts
abbrev pub status_tag : List (String × (String × String))
status_tag =
    ("SESSION_STATUS_ACTIVE", ("green", "活跃"))
    ∷ ("SESSION_STATUS_REVOKED", ("orange", "已登出"))
    ∷ ("SESSION_STATUS_EXPIRED", ("default", "已失效"))
    ∷ []

-- the cell of the status, none for an empty one
unfoldable pub status_cell : SessionInfo → Option (String × String)
status_cell r =
    if r.current then some ("geekblue", "当前会话") else lookup (get_or r.status "") status_tag

-- the first line of the cell of the login method
unfoldable pub method_cell : SessionInfo → String
method_cell r =
    if truthy r.login_method && not (is_text r.login_method "LOGIN_METHOD_UNSPECIFIED")
    then login_method_label r.login_method
    else get_or (lookup (get_or r.login_provider "undefined") provider_value_enum) "-"

-- the cell of the device
unfoldable pub device_cell : SessionInfo → String
device_cell r =
    or_else r.device
      (or_else (lookup (get_or r.device_type "undefined") device_type_value_enum) "-")

-- the cell of the place
unfoldable pub place_cell : SessionInfo → String
place_cell r =
    if truthy r.country
    then (if truthy r.city
        then Text.◌++◌ (get_or r.country "") (Text.◌++◌ " " (get_or r.city ""))
        else get_or r.country "")
    else or_else r.city "-"

-- fmt
unfoldable pub fmt : (format : String → String) → Option String → String
fmt format v = if truthy v then format (get_or v "") else "-"

-- not the `disabled` of the button that revokes
unfoldable pub revocable : SessionInfo → Bool
revocable r = not (r.current || not (is_text r.status active))

-- the fetch of useCursorTable
unfoldable pub sessions_request :
    (query : List (String × Option String) → String)
    → (cursor page_size : String) → (status : Option String) → Request
sessions_request query cursor page_size status = list_sessions (
    query (
      ("pageSize", some page_size)
      ∷ ("cursor", or_undefined (some cursor))
      ∷ ("status", status)
      ∷ []))

-- onConfirm of the two actions; what they leave is how often the table was reloaded
unfoldable pub revoke : Server (Unit {0}) → SessionInfo → ℕ → M ℕ
revoke server r reloads =
    send_plain server (revoke_session (get_or r.id "")) (λ _. "已吊销") (λ _ n. n + 1) reloads

unfoldable pub revoke_all : Server (Unit {0}) → ℕ → M ℕ
revoke_all server reloads =
    send_plain server revoke_all_sessions (λ _. "已登出其他设备") (λ _ n. n + 1) reloads

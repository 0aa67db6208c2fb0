-- ===== src/Credentials.antt =====
-- The credentials of a tenant (web/src/pages/Tenant/Credentials.tsx): which tenant's, and the actions on
-- a key. The search of the address and the stored choice are arguments.
pub mod Laws
use testkit_service.Prelude.{
  ℕ, ◌+◌, String, Bool, true, false, Option, none, some, List, [], ◌∷◌, ◌&&◌, nonempty, get_or,
  or_else, is_text, if◌then◌else◌, any,
}
use testkit_service.Browser.{M, Request}
use testkit_service.Request.{Server}
use testkit_service.Services.{
  portal_rotate_api_key_secret, portal_disable_api_key, portal_list_api_keys, portal_create_api_key,
}
use testkit_service.Submit.{data_message, try_send}
use testkit_service.TenantList.{Row}

-- API.ApiKeyInfo, the fields that the actions read
pub record ApiKeyInfo : Type 0 where
  pub access_key : Option String
  pub disabled : Bool

-- v1RotateApiKeySecretResponse and v1CreateApiKeyResponse
pub record SecretResponse : Type 0 where
  pub api_key : Option ApiKeyInfo
  pub secret : Option String

-- what showSecretOnce shows
pub record ShownSecret : Type 0 where
  pub title : String
  pub access_key : Option String
  pub secret : Option String

-- The hooks of the page, the dialogs, the newest first, and how often the table was reloaded.
pub record CredentialsPage : Type 0 where
  pub tenants : List Row
  pub tenant_key : String
  pub dialogs : List ShownSecret
  pub reloads : ℕ

-- the first state; the preset is the parameter `tenant` of the address
unfoldable pub first_page : (preset : Option String) (choice : String) → CredentialsPage
first_page preset choice = record {
  tenants = [];
  tenant_key = or_else preset choice;
  dialogs = [];
  reloads = 0;
}

-- `list[0]?.tenantKey ?? ""`
abbrev pub first_key : List Row → String
first_key [] = ""
first_key (t ∷ ts) = get_or t.tenant_key ""

-- the answer of the effect, which only a platform user's page has; nothing once the page is left
unfoldable pub tenants_answered :
    (alive : Bool) → Option (List Row) → CredentialsPage → CredentialsPage
tenants_answered alive tenants page =
    let list = get_or tenants [] in
    let kept =
      nonempty page.tenant_key && any (λ (t : Row). is_text t.tenant_key page.tenant_key) list in
    if alive
    then record page {
      tenants = list;
      tenant_key = if kept then page.tenant_key else first_key list;
    }
    else page

-- the request of the table
unfoldable pub keys_request : CredentialsPage → Option Request
keys_request page =
    if nonempty page.tenant_key then some (portal_list_api_keys page.tenant_key) else none

-- showSecretOnce
unfoldable pub show_secret_once : String → SecretResponse → CredentialsPage → CredentialsPage
show_secret_once title resp page =
    let access_key : Option String = elim resp.api_key [ none ↦ none | some k ↦ k.access_key ] in
    record page {
      dialogs =
          record { title = title; access_key = access_key; secret = resp.secret } ∷ page.dialogs;
    }

unfoldable pub reload : CredentialsPage → CredentialsPage
reload page = record page { reloads = page.reloads + 1 }

abbrev pub failure : String → testkit_service.Browser.Failure → Option String
failure own e = some (get_or (data_message e) own)

-- the links of a key, and onFinish of the form for a new one
unfoldable pub rotate : Server SecretResponse → ApiKeyInfo → CredentialsPage → M CredentialsPage
unfolding show_secret_once reload
rotate server r page =
    try_send server (portal_rotate_api_key_secret (get_or r.access_key "")) (λ _. "已轮换")
      (λ resp p. reload (show_secret_once "新 Secret（仅此一次）" resp p)) (failure "轮换失败") page

unfoldable pub toggle_key : Server (Unit {0}) → ApiKeyInfo → CredentialsPage → M CredentialsPage
unfolding reload
toggle_key server r page =
    try_send server
      (portal_disable_api_key (get_or r.access_key "") (
        ("disable", some (if r.disabled then "false" else "true")) ∷ ("reason", some "控制台切换") ∷ []))
      (λ _. if r.disabled then "已启用" else "已停用") (λ _ p. reload p) (failure "操作失败") page

unfoldable pub create_key :
    Server SecretResponse → (name : String) → CredentialsPage → M CredentialsPage
unfolding show_secret_once reload
create_key server name page =
    try_send server (portal_create_api_key page.tenant_key (("name", some name) ∷ [])) (λ _. "已创建")
      (λ resp p. reload (show_secret_once "新密钥（仅此一次）" resp p)) (failure "创建失败") page

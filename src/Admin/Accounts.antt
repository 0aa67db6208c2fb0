-- ===== src/Admin/Accounts.antt =====
-- web/src/pages/Message/Accounts.tsx: the credentials of a new channel account, and the actions on one.
-- The credentials in a body stand as their JSON, the parameter `text`; `number` is JavaScript's Number.
pub mod Laws
use testkit_service.Prelude.{
  ℕ, String, Bool, true, false, Option, none, some, List, [], ◌∷◌, get_or, or_else, is_text, ◌==◌,
  if◌then◌else◌,
}
use testkit_service.Browser.{M, Request}
use testkit_service.Request.{Server}
use testkit_service.Scope.{TenantView}
use testkit_service.Services.{
  message_create_channel_account, message_update_channel_account, message_delete_channel_account,
  message_list_channel_accounts,
}
use testkit_service.Submit.{try_send}
use testkit_service.Admin.{Table, reload, message_or, request_rows}

-- API.v1ChannelAccountInfo, less its write-only credentials and its times
pub record ChannelAccountInfo : Type 0 where
  pub id : Option String
  pub name : Option String
  pub disabled : Bool
  pub remark : Option String
  pub sms_vendor : Option String
  pub email_vendor : Option String
  pub tenant_key : Option String

-- The values of the form for a new account. A port is a number or absent.
pub record AccountForm : Type 0 where
  pub name : Option String
  pub tenant_key : Option String
  pub remark : Option String
  pub kind : String
  pub access_key : Option String
  pub access_secret : Option String
  pub sms_account : Option String
  pub brand : Option String
  pub host : Option String
  pub port : Option ℕ
  pub from_address : Option String
  pub region : Option String

-- CRED_KINDS, the values
abbrev pub cred_kinds : List String
cred_kinds =
    "aliyun_sms" ∷ "tencent_sms" ∷ "volcengine_sms" ∷ "byteplus_sms" ∷ "huawei_sms" ∷ "smtp" ∷ []

-- what buildCredentials returns, each field as the source names it; `nothing` is `{}`
pub data Credentials : Type 0 where
  aliyun_sms : (access_key_id access_key_secret : Option String) (region_id : String) → Credentials
  tencent_sms :
      (secret_id secret_key sms_sdk_app_id : Option String) (region : String) → Credentials
  volcengine_sms :
      (access_key secret_key sms_account : Option String) (region : String) → Credentials
  byteplus_sms : (access_key secret_key sms_account : Option String) (region : String) → Credentials
  huawei_sms : (app_key app_secret sign : Option String) (endpoint : String) → Credentials
  smtp :
      (brand host : Option String) (port : ℕ) (username password from_address : Option String)
      → Credentials
  nothing : Credentials

-- buildCredentials
unfoldable pub build_credentials : String → AccountForm → Credentials
build_credentials kind v =
    let region = get_or v.region "" in
    if kind == "aliyun_sms"
    then aliyun_sms v.access_key v.access_secret region
    else (if kind == "tencent_sms"
        then tencent_sms v.access_key v.access_secret v.sms_account region
        else (if kind == "volcengine_sms"
            then volcengine_sms v.access_key v.access_secret v.sms_account region
            else (if kind == "byteplus_sms"
                then byteplus_sms v.access_key v.access_secret v.sms_account region
                else (if kind == "huawei_sms"
                    then huawei_sms v.access_key v.access_secret v.sms_account region
                    else (if kind == "smtp"
                        then smtp v.brand v.host (get_or v.port 587) v.access_key v.access_secret
                            v.from_address
                        else nothing)))))

-- credForm: a value whose field is not shown for the kind is not part of what the form hands over
unfoldable pub shown_fields : AccountForm → AccountForm
shown_fields v =
    if v.kind == "smtp"
    then record v { access_key = none; sms_account = none }
    else record v { brand = none; host = none; port = none; from_address = none }

-- request
unfoldable pub request_accounts :
    (before : String → String → Bool)
    → Server (Option (List ChannelAccountInfo))
    → TenantView
    → Table
    → M (List ChannelAccountInfo × Table)
unfolding request_rows
request_accounts before server =
    request_rows (λ (r : ChannelAccountInfo). r.tenant_key) before server
      message_list_channel_accounts

-- what the form for a new account sends
unfoldable pub account_request : (text : Credentials → String) → TenantView → AccountForm → Request
unfolding build_credentials
account_request text view vals = message_create_channel_account (
    ("name", vals.name)
    ∷ ("remark", some (get_or vals.remark ""))
    ∷ ("credentials", some (text (build_credentials vals.kind vals)))
    ∷ ("tenantKey", some (if view.cross_view then "" else or_else vals.tenant_key ""))
    ∷ [])

module _ (server : Server (Unit {0})) where
  -- onFinish of the form for a new account, over the values of the fields that it shows
  unfoldable pub create_account :
      (text : Credentials → String) → TenantView → AccountForm → Table → M (Bool × Table)
  unfolding account_request shown_fields
  create_account text view vals table =
      try_send server (account_request text view (shown_fields vals)) (λ _. "已创建")
        (λ _ p. (true, reload p.1)) (message_or "创建失败") (false, table)

  -- the link that stops or starts an account
  unfoldable pub toggle_account : ChannelAccountInfo → Table → M Table
  toggle_account r table =
      try_send server
        (message_update_channel_account (get_or r.id "undefined")
          (("disabled", some (if r.disabled then "false" else "true")) ∷ []))
        (λ _. if r.disabled then "已启用" else "已停用") (λ _ p. reload p) (message_or "操作失败") table

  -- onConfirm of the deletion
  unfoldable pub delete_account : ChannelAccountInfo → Table → M Table
  delete_account r table =
      try_send server (message_delete_channel_account (get_or r.id "undefined")) (λ _. "已删除")
        (λ _ p. reload p) (message_or "删除失败") table

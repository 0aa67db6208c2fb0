-- ===== src/Admin/Signatures.antt =====
-- web/src/pages/Message/Signatures.tsx: the accounts that a signature is registered on, the form for a
-- new one and the actions on a row. A list of ids in a body stands as its JSON, the parameter `ids_text`.
use Prim.Native.String as Text
use testkit_service.Prelude.{
  String, Bool, true, false, Option, some, List, [], ◌∷◌, map, keep, get_or, or_else, truthy,
  if◌then◌else◌,
}
use testkit_service.Browser.{M}
use testkit_service.Request.{Server}
use testkit_service.Scope.{TenantView, filter_tenant_rows}
use testkit_service.Services.{
  message_list_signatures, message_create_signature, message_update_signature,
  message_delete_signature,
}
use testkit_service.Submit.{try_send}
use testkit_service.Admin.{Table, reload, message_or, request_rows}
use testkit_service.Admin.Accounts.{ChannelAccountInfo}

-- API.v1SignatureInfo, the fields that the page reads
pub record SignatureRow : Type 0 where
  pub id : Option String
  pub name : Option String
  pub disabled : Bool
  pub tenant_key : Option String

-- `setSmsAccounts` of the effect: labels and values
unfoldable pub sms_accounts :
    TenantView → Option (List ChannelAccountInfo) → List (String × Option String)
sms_accounts view accounts =
    map
      (λ (a : ChannelAccountInfo). (
        Text.◌++◌ (get_or a.name "undefined")
            (Text.◌++◌ "（#" (Text.◌++◌ (get_or a.id "undefined") "）")),
        a.id,
      ))
      (filter_tenant_rows (λ (a : ChannelAccountInfo). a.tenant_key) view
        (keep (λ (a : ChannelAccountInfo). truthy a.sms_vendor) (get_or accounts [])))

-- request
unfoldable pub request_signatures :
    (before : String → String → Bool)
    → Server (Option (List SignatureRow))
    → TenantView
    → Table
    → M (List SignatureRow × Table)
unfolding request_rows
request_signatures before server =
    request_rows (λ (r : SignatureRow). r.tenant_key) before server message_list_signatures

-- the values of the form for a new signature
pub record SignatureForm : Type 0 where
  pub name : Option String
  pub tenant_key : Option String
  pub remark : Option String
  pub account_ids : Option (List String)

module _ (server : Server (Unit {0})) where
  -- onFinish of the form for a new signature; the Boolean closes the form
  unfoldable pub create_signature :
      (ids_text : Option (List String) → Option String)
      → TenantView
      → SignatureForm
      → Table
      → M (Bool × Table)
  create_signature ids_text view vals table =
      try_send server
        (message_create_signature (
          ("name", vals.name)
          ∷ ("remark", some (get_or vals.remark ""))
          ∷ ("accountIds", ids_text vals.account_ids)
          ∷ ("tenantKey", some (if view.cross_view then "" else or_else vals.tenant_key ""))
          ∷ []))
        (λ _. "已创建") (λ _ p. (true, reload p.1)) (message_or "创建失败") (false, table)

  -- the link that stops or starts a signature
  unfoldable pub toggle_signature : SignatureRow → Table → M Table
  toggle_signature r table =
      try_send server
        (message_update_signature (get_or r.id "undefined")
          (("disabled", some (if r.disabled then "false" else "true")) ∷ []))
        (λ _. if r.disabled then "已启用" else "已停用") (λ _ p. reload p) (message_or "操作失败") table

  -- onConfirm of the deletion
  unfoldable pub delete_signature : SignatureRow → Table → M Table
  delete_signature r table =
      try_send server (message_delete_signature (get_or r.id "undefined")) (λ _. "已删除")
        (λ _ p. reload p) (message_or "删除失败") table

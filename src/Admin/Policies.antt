-- ===== src/Admin/Policies.antt =====
-- web/src/pages/Message/Policies.tsx: the options of a policy's form, what the form sends, and the
-- texts of a route chain. The route lists and the scene in a body stand as their JSON, which are
-- parameters, as is the decimal text of a number.
pub mod Laws
pub mod Choices
use Prim.Native.String as Text
use testkit_service.Prelude.{
  ℕ, String, Bool, true, false, Option, none, some, List, [], ◌∷◌, map, keep, first, ◌&&◌, get_or,
  is_text, truthy, nonempty, ◌==◌, if◌then◌else◌,
}
use testkit_service.Browser.{M, pure, Request}
use testkit_service.Request.{Server, Reply, replied, failed}
use testkit_service.Scope.{TenantView, filter_tenant_rows}
use testkit_service.Services.{
  message_create_policy, message_update_policy, message_delete_policy, list_policies,
}
use testkit_service.Submit.{try_send}
use testkit_service.Admin.{TenantConfig, Table, reload, message_or, request_rows}
use testkit_service.Admin.Templates.{TemplateInfo, channel_email, channel_sms}
use testkit_service.Admin.Accounts.{ChannelAccountInfo}

pub record RouteRule : Type 0 where
  pub account_id : Option String
  pub signature_id : Option String
  pub weight : Option ℕ

-- API.v1PolicyInfo
pub record PolicyInfo : Type 0 where
  pub id : Option String
  pub app_id : Option String
  pub channel : Option String
  pub email_scene : Option String
  pub sms_scene : Option String
  pub template_id : Option String
  pub routes : Option (List RouteRule)
  pub intl_routes : Option (List RouteRule)
  pub disabled : Option Bool
  pub created_at : Option String
  pub updated_at : Option String
  pub tenant_key : Option String

-- API.v1SignatureInfo, the fields that the page reads
pub record SignatureInfo : Type 0 where
  pub id : Option String
  pub name : Option String
  pub tenant_key : Option String

-- an option of a select, and an account's, which says whether the account is for text messages
pub record Choice : Type 0 where
  pub label : String
  pub value : Option String

pub record AccountChoice : Type 0 where
  pub label : String
  pub value : Option String
  pub sms : Bool

-- interface Options; of the signatures' object, its entries as they were written
pub record Options : Type 0 where
  pub apps : List Choice
  pub templates : List Choice
  pub accounts : List AccountChoice
  pub signatures : List (String × String)

-- an optional text in a template literal
abbrev pub shown : Option String → String
shown o = get_or o "undefined"

infixr 5 ◌^◌
abbrev ◌^◌ : String → String → String
a ^ b = Text.◌++◌ a b

-- scopeLabel
unfoldable pub scope_label : (tenant_key : Option String) → (view_tenant_key : String) → String
scope_label tenant_key view_tenant_key =
    if truthy tenant_key
    then (if is_text tenant_key view_tenant_key then "【本租户】" else "【" ^ get_or tenant_key "" ^ "】")
    else ""

-- the options of the four lists
unfoldable pub app_choice : TenantView → TenantConfig → Choice
unfolding scope_label
app_choice view a = record {
  label = scope_label a.tenant_key view.tenant_key ^ shown a.app_key ^ "（#" ^ shown a.id ^ "）";
  value = a.id;
}

unfoldable pub template_choice : TenantView → TemplateInfo → Choice
unfolding scope_label
template_choice view t = record {
  label =
      scope_label t.tenant_key view.tenant_key
      ^ shown t.name
      ^ "（#"
      ^ shown t.id
      ^ "，"
      ^ (if is_text t.channel channel_email then "邮件" else "短信")
      ^ "）";
  value = t.id;
}

unfoldable pub account_choice : TenantView → ChannelAccountInfo → AccountChoice
unfolding scope_label
account_choice view a = record {
  label = scope_label a.tenant_key view.tenant_key ^ shown a.name ^ "（#" ^ shown a.id ^ "）";
  value = a.id;
  sms = truthy a.sms_vendor;
}

unfoldable pub signature_entry : TenantView → SignatureInfo → String × String
unfolding scope_label
signature_entry view s = (shown s.id, scope_label s.tenant_key view.tenant_key ^ shown s.name)

-- `setOpts` of the effect
unfoldable pub scoped_options :
    TenantView
    → List TenantConfig
    → List TemplateInfo
    → List ChannelAccountInfo
    → List SignatureInfo
    → Options
scoped_options view apps templates accounts signatures = record {
  apps = map (app_choice view) (filter_tenant_rows (λ (a : TenantConfig). a.tenant_key) view apps);
  templates =
      map (template_choice view)
        (filter_tenant_rows (λ (t : TemplateInfo). t.tenant_key) view templates);
  accounts =
      map (account_choice view)
        (filter_tenant_rows (λ (a : ChannelAccountInfo). a.tenant_key) view accounts);
  signatures =
      map (signature_entry view)
        (filter_tenant_rows (λ (s : SignatureInfo). s.tenant_key) view signatures);
}

-- the effect, once its four requests have come to an end: where one failed, `Promise.all` rejects
unfoldable pub load_options :
    TenantView
    → Reply (Option (List TenantConfig))
    → Reply (Option (List TemplateInfo))
    → Reply (Option (List ChannelAccountInfo))
    → Reply (Option (List SignatureInfo))
    → Options
    → Options
unfolding scoped_options
load_options view (replied apps) (replied templates) (replied accounts) (replied signatures) opts =
    scoped_options view (get_or apps []) (get_or templates []) (get_or accounts [])
      (get_or signatures [])
load_options view apps templates accounts signatures opts = opts

-- routeTableLabel: the accounts that a route may take
unfoldable pub route_accounts : Options → (sms : Bool) → List AccountChoice
route_accounts opts sms =
    keep (λ (a : AccountChoice). if sms then a.sms else (if a.sms then false else true))
      opts.accounts

-- The columns' texts: the app of a policy, and its two chains.
abbrev same_text : Option String → Option String → Bool
same_text none none = true
same_text (some a) o = is_text o a
same_text none (some b) = false

-- `found?.label ?? id`
abbrev label_of : Option Choice → Option String → Option String
label_of none id = id
label_of (some c) id = some c.label

unfoldable pub choice_label : List Choice → Option String → Option String
choice_label choices id = label_of (first (keep (λ (c : Choice). same_text c.value id) choices)) id

-- `texts.join(" → ")`
abbrev pub arrows : List String → String
arrows [] = ""
arrows (x ∷ []) = x
arrows (x ∷ y ∷ xs) = x ^ " → " ^ arrows (y ∷ xs)

module _ (decimal : ℕ → String) where
  abbrev route_text : RouteRule → String
  route_text r =
      "#"
      ^ shown r.account_id
      ^ (if truthy r.signature_id then "/签名#" ^ get_or r.signature_id "" else "")
      ^ "×"
      ^ decimal (get_or r.weight 1)

  unfoldable pub route_chain : Option (List RouteRule) → String
  route_chain routes = arrows (map route_text (get_or routes []))

  abbrev intl_route_text : RouteRule → String
  intl_route_text r = "#" ^ shown r.account_id ^ "×" ^ decimal (get_or r.weight 1)

  unfoldable pub intl_chain : Option (List RouteRule) → String
  intl_chain routes = elim (get_or routes []) [
    | [] ↦ "—"
    | r ∷ rs ↦ arrows (map intl_route_text (r ∷ rs))
  ]

-- the values of PolicyForm
pub record PolicyForm : Type 0 where
  pub app_id : Option String
  pub channel : Option String
  pub scene : Option String
  pub template_id : Option String
  pub routes : Option (List RouteRule)
  pub intl_routes : Option (List RouteRule)

-- the two shapes of `scene`
pub data Scene : Type 0 where
  sms_scene : Option String → Scene
  email_scene : Option String → Scene

unfoldable pub scene_of : PolicyForm → Scene
scene_of vals = if is_text vals.channel "SMS" then sms_scene vals.scene else email_scene vals.scene

-- initialValues of the form that edits
unfoldable pub initial_values : PolicyInfo → PolicyForm
initial_values editing =
    let sms = is_text editing.channel channel_sms in
    record {
      app_id = editing.app_id;
      channel = some (if sms then "SMS" else "EMAIL");
      scene = if sms then editing.sms_scene else editing.email_scene;
      template_id = editing.template_id;
      routes = editing.routes;
      intl_routes = editing.intl_routes;
    }

-- The hooks of the page.
pub record PoliciesPage : Type 0 where
  pub editing : Option PolicyInfo
  pub opts : Options
  pub table : Table

abbrev pub saved : PoliciesPage → PoliciesPage
saved page = record page { editing = none; table = reload page.table }

-- request
unfoldable pub request_policies :
    (before : String → String → Bool)
    → Server (Option (List PolicyInfo))
    → TenantView
    → Table
    → M (List PolicyInfo × Table)
unfolding request_rows
request_policies before server =
    request_rows (λ (r : PolicyInfo). r.tenant_key) before server list_policies

module _ (routes_text : List RouteRule → String) (scene_text : Scene → String) where
  -- the request of `submit`
  unfoldable pub policy_request : PolicyForm → (id : Option String) → Request
  unfolding scene_of
  policy_request vals id =
      let chains =
        ("templateId", vals.template_id)
        ∷ ("routes", some (routes_text (get_or vals.routes [])))
        ∷ ("intlRoutes", some (routes_text (get_or vals.intl_routes [])))
        ∷ [] in
      if truthy id
      then message_update_policy (get_or id "") chains
      else message_create_policy
          (("appId", vals.app_id) ∷ ("scene", some (scene_text (scene_of vals))) ∷ chains)

  -- submit; the Boolean closes the form
  unfoldable pub submit :
      Server (Unit {0}) → PolicyForm → (id : Option String) → PoliciesPage → M (Bool × PoliciesPage)
  unfolding policy_request
  submit server vals id page =
      try_send server (policy_request vals id) (λ _. if truthy id then "已更新" else "已创建")
        (λ _ p. (true, saved p.1)) (message_or (if truthy id then "更新失败" else "创建失败")) (false, page)

  -- onFinish of the form that edits
  unfoldable pub edit_from :
      Server (Unit {0}) → PolicyForm → Option PolicyInfo → PoliciesPage → M (Bool × PoliciesPage)
  unfolding submit
  edit_from server vals none page = pure (false, page)
  edit_from server vals (some p) page = submit server vals p.id page

-- onConfirm of the deletion
unfoldable pub delete_policy : Server (Unit {0}) → PolicyInfo → PoliciesPage → M PoliciesPage
delete_policy server r page =
    try_send server (message_delete_policy (shown r.id)) (λ _. "已删除")
      (λ _ p. record p { table = reload p.table }) (message_or "删除失败") page

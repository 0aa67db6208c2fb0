-- ===== src/Tests/Admin.antt =====
-- The message administration at concrete rows, templates and forms.
use testkit_service.Prelude.{
  String, Bool, true, false, Option, none, some, List, [], ◌∷◌, ◌≡◌, ◌↔◌, refl, Listed, truthy,
  lookup,
}
use testkit_service.Browser.{Browser, http}
use testkit_service.Request.{Server, failed}
use testkit_service.Scope.{TenantView}
use testkit_service.Scope.Laws.{IsVisible}
use testkit_service.Admin.{TenantConfig, Table, shown_rows, reload}
use testkit_service.Admin.Laws.{IsChosen, IsSubmitted, shown_rows-IsChosen}
use testkit_service.Admin.Templates.{
  TemplateInfo, TemplatesPage, EmailTemplateContent, email_render, channel_email, app_found,
  create_request, create_template, initial_values, reloaded, build_template_body,
}
use testkit_service.Admin.Templates.Laws.{
  IsTyped, rendered, sent_back, build_template_body-IsTyped, build_template_body-initial_values,
}
use testkit_service.Admin.Templates.Owned.{IsOwnApp, create_template-IsOwned}
use testkit_service.Admin.Accounts.{
  ChannelAccountInfo, AccountForm, Credentials, create_account, build_credentials,
}
use testkit_service.Admin.Accounts.Laws.{
  provider, build_credentials-provider, mail_request, create_account-no_username,
}
use testkit_service.Admin.Policies.{
  RouteRule, PolicyForm, Scene, Options, PoliciesPage, account_choice, route_accounts, submit,
}
use testkit_service.Admin.Policies.Choices.{loaded_options, route_accounts-IsVisible}
use testkit_service.Admin.Policies.Laws.{submit-ignores}
use testkit_service.Tests.Data.{empty_at}

abbrev platform_view : TenantView
platform_view = record { tenant_key = ""; cross_view = true; is_platform = true }

abbrev tenant_view : TenantView
tenant_view = record { tenant_key = "t1"; cross_view = false; is_platform = false }

abbrev table : Table
table = record { tenant_filter = "t2"; filter_options = []; reloads = 0 }

abbrev refusing : Server (Unit {0})
refusing log req = failed (http (some 400) (some "模板仍被引用") none)

abbrev code_mail : EmailTemplateContent
code_mail = record { subject = some "验证码"; text_body = some "{{code}}"; html_body = some "" }

-- A disabled template of a tenant.
abbrev stored : TemplateInfo
stored = record {
  id = some "7";
  app_id = some "3";
  name = some "code";
  channel = some channel_email;
  kind = some email_render;
  params = some [];
  disabled = some true;
  email = some code_mail;
  vendor_codes = none;
  sms_content = none;
  created_at = some "2026-01-01";
  updated_at = none;
  tenant_key = some "t1";
}

abbrev here : Browser
here = empty_at "/message/templates"

abbrev no_text : TemplateInfo → String
no_text t = "{}"

abbrev editing_page : TemplatesPage
editing_page = record { editing = some stored; tenant_app_id = none; table = table }

abbrev never : String → String → Bool
never a b = false

shown_rows-IsChosen_example :
    Listed stored
      (shown_rows (λ (t : TemplateInfo). t.tenant_key) never platform_view table (stored ∷ [])).0
    ↔ (Listed stored (stored ∷ [])
        × IsVisible platform_view (some "t1")
        × ((true ≡ true) → IsChosen "t2" (some "t1")))
shown_rows-IsChosen_example =
    shown_rows-IsChosen (λ (t : TemplateInfo). t.tenant_key) never platform_view table (stored ∷ [])
      stored

build_template_body-IsTyped_example : IsTyped (build_template_body (initial_values stored))
build_template_body-IsTyped_example = build_template_body-IsTyped (initial_values stored)

build_template_body-initial_values_example :
    build_template_body (initial_values stored) ≡ sent_back stored
build_template_body-initial_values_example =
    build_template_body-initial_values stored (rendered code_mail) [] refl (refl, refl) ("", refl)
      refl

abbrev configs : List TenantConfig
configs =
    record { id = some "9"; app_key = some "other"; tenant_key = some "t2" }
    ∷ record { id = some "3"; app_key = some "mine"; tenant_key = some "t1" }
    ∷ []

create_template-IsOwned_example :
    let p = app_found tenant_view configs editing_page in
    let form = initial_values stored in
    IsSubmitted here
      (create_request no_text refusing tenant_view (some "private") form p)
      p
      (reloaded p)
      "创建失败"
      (create_template no_text refusing tenant_view (some "private") form p here)
    × ((id : String)
        → lookup "appId" (create_request no_text refusing tenant_view (some "private") form p).body
          ≡ some (some id)
        → (tenant_view.cross_view ≡ false)
          × (◌≡◌ {A = Option String} (some "private") (some "private"))
          × IsOwnApp tenant_view configs id)
create_template-IsOwned_example =
    create_template-IsOwned no_text refusing here tenant_view (some "private")
      (initial_values stored) configs editing_page refl

abbrev account : String → Option String → Option String → ChannelAccountInfo
account id vendor tenant = record {
  id = some id;
  name = some id;
  disabled = false;
  remark = none;
  sms_vendor = vendor;
  email_vendor = none;
  tenant_key = tenant;
}

abbrev accounts : List ChannelAccountInfo
accounts =
    account "1" (some "SMS_VENDOR_ALIYUN") none
    ∷ account "2" none (some "t1")
    ∷ account "3" (some "SMS_VENDOR_HUAWEI") (some "t2")
    ∷ []

abbrev no_options : Options
no_options = record { apps = []; templates = []; accounts = []; signatures = [] }

route_accounts-IsVisible_example :
    let c = account_choice tenant_view (account "1" (some "SMS_VENDOR_ALIYUN") none) in
    Listed c (route_accounts (loaded_options tenant_view configs [] accounts [] no_options) true)
    ↔ ((a : ChannelAccountInfo) × Listed a accounts
        × IsVisible tenant_view a.tenant_key
        × (truthy a.sms_vendor ≡ true)
        × (account_choice tenant_view a ≡ c))
route_accounts-IsVisible_example =
    route_accounts-IsVisible tenant_view configs [] accounts [] no_options true
      (account_choice tenant_view (account "1" (some "SMS_VENDOR_ALIYUN") none))

abbrev policy_form : Option String → PolicyForm
policy_form app = record {
  app_id = app;
  channel = some "SMS";
  scene = some "SMS_SCENE_TEST";
  template_id = some "7";
  routes = some [];
  intl_routes = none;
}

abbrev policies_page : PoliciesPage
policies_page = record { editing = none; opts = no_options; table = table }

abbrev chain_text : List RouteRule → String
chain_text routes = "[]"

abbrev scene_text : Scene → String
scene_text s = "{}"

submit-ignores_example :
    submit chain_text scene_text refusing (policy_form (some "3")) (some "5") policies_page here
    ≡ submit chain_text scene_text refusing (policy_form (some "9")) (some "5") policies_page here
submit-ignores_example =
    submit-ignores chain_text scene_text refusing here (policy_form (some "3"))
      (policy_form (some "9")) (some "5") policies_page refl refl refl refl

abbrev mail_form : AccountForm
mail_form = record {
  name = some "smtp-main";
  tenant_key = some "t1";
  remark = none;
  kind = "smtp";
  access_key = some "left over";
  access_secret = some "secret";
  sms_account = none;
  brand = some "EMAIL_VENDOR_ALIYUN";
  host = some "smtp.example.com";
  port = none;
  from_address = some "a@example.com";
  region = none;
}

abbrev credentials_text : Credentials → String
credentials_text c = "{}"

build_credentials-provider_example : provider (build_credentials "smtp" mail_form) ≡ some "smtp"
build_credentials-provider_example = build_credentials-provider "smtp" mail_form

create_account-no_username_example :
    IsSubmitted here
      (mail_request refusing credentials_text here tenant_view mail_form)
      table
      (reload table)
      "创建失败"
      (create_account refusing credentials_text tenant_view mail_form table here)
create_account-no_username_example =
    create_account-no_username refusing credentials_text here tenant_view mail_form table refl refl

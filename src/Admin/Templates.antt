-- ===== src/Admin/Templates.antt =====
-- web/src/pages/Message/Templates.tsx: the forms that create, edit and delete a template. A template in
-- a body stands as its JSON, the parameter `text`.
pub mod Laws
pub mod Owned
use testkit_service.Prelude.{
  String, Bool, true, false, Option, none, some, List, [], ◌∷◌, ◌&&◌, not, keep, first, get_or,
  is_text, if◌then◌else◌,
}
use testkit_service.Browser.{M, pure, ◌>>=◌, catch, Request}
use testkit_service.Request.{Server, call}
use testkit_service.Scope.{TenantView}
use testkit_service.Services.{
  message_create_template, message_update_template, message_delete_template,
  message_list_tenant_configs, message_list_templates,
}
use testkit_service.Submit.{try_send}
use testkit_service.Admin.{TenantConfig, Table, reload, message_or, request_rows}

pub record TemplateParamSpec : Type 0 where
  pub name : Option String
  pub required_ : Option Bool
  pub description : Option String

pub record VendorTemplateCode : Type 0 where
  pub vendor : Option String
  pub template_code : Option String

pub record EmailTemplateContent : Type 0 where
  pub subject : Option String
  pub text_body : Option String
  pub html_body : Option String

-- API.v1TemplateInfo. `vendorCodes` and `smsContent` hold one field each, which may be absent.
pub record TemplateInfo : Type 0 where
  pub id : Option String
  pub app_id : Option String
  pub name : Option String
  pub channel : Option String
  pub kind : Option String
  pub params : Option (List TemplateParamSpec)
  pub disabled : Option Bool
  pub email : Option EmailTemplateContent
  pub vendor_codes : Option (Option (List VendorTemplateCode))
  pub sms_content : Option (Option String)
  pub created_at : Option String
  pub updated_at : Option String
  pub tenant_key : Option String

-- the values of TemplateForm
pub record TemplateForm : Type 0 where
  pub kind : Option String
  pub name : Option String
  pub subject : Option String
  pub text_body : Option String
  pub html_body : Option String
  pub content : Option String
  pub codes : Option (List VendorTemplateCode)
  pub params : Option (List TemplateParamSpec)

abbrev pub email_render : String
email_render = "TEMPLATE_KIND_EMAIL_RENDER"

abbrev pub sms_vendor_codes : String
sms_vendor_codes = "TEMPLATE_KIND_SMS_VENDOR_CODES"

abbrev pub channel_email : String
channel_email = "TEMPLATE_CHANNEL_EMAIL"

abbrev pub channel_sms : String
channel_sms = "TEMPLATE_CHANNEL_SMS"

-- `tpl` before its content is set
abbrev new_template : TemplateForm → TemplateInfo
new_template vals = record {
  id = none;
  app_id = none;
  name = vals.name;
  channel = none;
  kind = vals.kind;
  params = some (get_or vals.params []);
  disabled = some false;
  email = none;
  vendor_codes = none;
  sms_content = none;
  created_at = none;
  updated_at = none;
  tenant_key = none;
}

-- buildTemplateBody
unfoldable pub build_template_body : TemplateForm → TemplateInfo
build_template_body vals =
    let tpl = new_template vals in
    if is_text vals.kind email_render
    then record tpl {
      channel = some channel_email;
      email = some (record {
        subject = vals.subject;
        text_body = vals.text_body;
        html_body = some (get_or vals.html_body "");
      });
    }
    else (if is_text vals.kind sms_vendor_codes
        then record tpl {
          channel = some channel_sms;
          vendor_codes = some (some (get_or vals.codes []));
        }
        else record tpl { channel = some channel_sms; sms_content = some vals.content })

-- `o?.field` of an optional field
abbrev pub field_of : {A B : Type 0} → (A → Option B) → Option A → Option B
field_of f none = none
field_of f (some a) = f a

-- initialValues of the form that edits
unfoldable pub initial_values : TemplateInfo → TemplateForm
initial_values editing = record {
  kind = editing.kind;
  name = editing.name;
  subject = field_of (λ (e : EmailTemplateContent). e.subject) editing.email;
  text_body = field_of (λ (e : EmailTemplateContent). e.text_body) editing.email;
  html_body = field_of (λ (e : EmailTemplateContent). e.html_body) editing.email;
  content = get_or editing.sms_content none;
  codes = get_or editing.vendor_codes none;
  params = editing.params;
}

-- The hooks of the page.
pub record TemplatesPage : Type 0 where
  pub editing : Option TemplateInfo
  pub tenant_app_id : Option String
  pub table : Table

abbrev pub reloaded : TemplatesPage → TemplatesPage
reloaded page = record page { table = reload page.table }

-- the answer of the effect: `setTenantAppId(mine?.id)`
unfoldable pub app_found : TenantView → List TenantConfig → TemplatesPage → TemplatesPage
app_found view configs page = record page {
  tenant_app_id =
      field_of (λ (c : TenantConfig). c.id)
        (first (keep (λ (c : TenantConfig). is_text c.tenant_key view.tenant_key) configs));
}

-- the effect
unfoldable pub load_app :
    Server (Option (List TenantConfig)) → TenantView → TemplatesPage → M TemplatesPage
unfolding app_found
load_app server view page =
    catch
      (do
        resp ← call server message_list_tenant_configs
        pure (app_found view (get_or resp []) page))
      (λ _. pure page)

-- request
unfoldable pub request_templates :
    (before : String → String → Bool)
    → Server (Option (List TemplateInfo))
    → TenantView
    → Table
    → M (List TemplateInfo × Table)
unfolding request_rows
request_templates before server =
    request_rows (λ (r : TemplateInfo). r.tenant_key) before server message_list_templates

module _ (text : TemplateInfo → String) (server : Server (Unit {0})) where
  -- what the form for a new template sends; `scope` is the form's own field
  unfoldable pub create_request :
      TenantView → (scope : Option String) → TemplateForm → TemplatesPage → Request
  create_request view scope vals page = message_create_template (
      ("appId", if not view.cross_view && is_text scope "private" then page.tenant_app_id else none)
      ∷ ("template", some (text (build_template_body vals)))
      ∷ [])

  -- onFinish of the form for a new template; the Boolean closes the form
  unfoldable pub create_template :
      TenantView → (scope : Option String) → TemplateForm → TemplatesPage → M (Bool × TemplatesPage)
  create_template view scope vals page =
      try_send server (create_request view scope vals page) (λ _. "已创建")
        (λ _ p. (true, reloaded p.1)) (message_or "创建失败") (false, page)

  -- onFinish of the form that edits
  unfoldable pub update_from :
      TemplateForm → Option TemplateInfo → TemplatesPage → M (Bool × TemplatesPage)
  update_from vals none page = pure (false, page)
  update_from vals (some t) page =
      try_send server
        (message_update_template (get_or t.id "undefined")
          (("template", some (text (build_template_body vals))) ∷ []))
        (λ _. "已更新") (λ _ p. (true, reloaded (record (p.1) { editing = none }))) (message_or "更新失败")
        (false, page)

  unfoldable pub update_template : TemplateForm → TemplatesPage → M (Bool × TemplatesPage)
  unfolding update_from
  update_template vals page = update_from vals page.editing page

  -- onConfirm of the deletion
  unfoldable pub delete_template : TemplateInfo → TemplatesPage → M TemplatesPage
  delete_template r page =
      try_send server (message_delete_template (get_or r.id "undefined")) (λ _. "已删除")
        (λ _ p. reloaded p) (message_or "删除失败") page

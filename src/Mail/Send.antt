-- ===== src/Mail/Send.antt =====
-- Sending an email: handleSend of the compose page. The form's validation, the JSON parser and the
-- JSON text of the payload are parameters.
pub mod Checks
pub mod Laws
use Prim.Native.String as Text
use testkit_service.Prelude.{
  ℕ, String, Bool, true, false, Option, none, some, List, [], ◌∷◌, ◌++◌, ◌≡◌, ◌≢◌, ◌⊎◌, inl, inr,
  refl, ap, ◌∙◌, arith, map, not, ◌&&◌, nonempty, nonempty_of_ne, get_or, or_undefined, truthy,
  if◌then◌else◌, Bool-cases, Option-cases,
}
use testkit_service.Browser.{
  Browser, Outcome, M, ok, pure, ◌>>=◌, ◌>>◌, bind_from, emit, Effect, toasted, success, error,
  Failure,
}
use testkit_service.Request.{Server}
use testkit_service.Services.{send_email}
use testkit_service.Submit.{requests, try_send}
use testkit_service.Submit.Laws.{sent_request, IsTried, try_send-IsTried}
use testkit_service.Sms.{Parsed, SendResponse}
use testkit_service.Mail.Text.{is_empty, trim}
use testkit_service.Mail.Address.{Address}
use testkit_service.Mail.Recipients.{to_address_payload}
use testkit_service.Mail.Attach.{FileAttachment}
use testkit_service.Mail.Markup.{LargeAttachment}
use testkit_service.Mail.PlainText.{html_to_plain_text, wrap_html_document}

-- ComposeFormValues; a list that is not there has no tags
pub record ComposeFormValues : Type 0 where
  pub to : List String
  pub cc : List String
  pub bcc : List String
  pub subject : Option String
  pub scene : Option String
  pub idempotency_key : Option String
  pub plain_text_body : Option String
  pub template_params : Option String

-- API.v1EmailAttachment: a file's content, or the place of an upload
pub record EmailAttachment : Type 0 where
  pub filename : String
  pub content : Option String
  pub url : Option String
  pub mime_type : Option String
  pub size_bytes : ℕ

-- API.v1SendEmailRequest
pub record Payload : Type 0 where
  pub to : List Address
  pub cc : List Address
  pub bcc : List Address
  pub subject : Option String
  pub body : String
  pub html_body : Option String
  pub scene : Option String
  pub template_params : String
  pub idempotency_key : Option String
  pub attachments : List EmailAttachment

-- The state that handleSend reads and sets.
pub record SendPage : Type 0 where
  pub html_content : String
  pub file_attachments : List FileAttachment
  pub large_attachments : List LargeAttachment
  pub sending : Bool

unfoldable pub inline_attachment : FileAttachment → EmailAttachment
inline_attachment a = record {
  filename = a.filename;
  content = some a.content;
  url = none;
  mime_type = or_undefined (some a.mime_type);
  size_bytes = a.size_bytes;
}

unfoldable pub url_attachment : LargeAttachment → EmailAttachment
url_attachment a = record {
  filename = a.filename;
  content = none;
  url = some a.url;
  mime_type = none;
  size_bytes = a.size_bytes;
}

-- `(vals.plainTextBody ?? "").trim() || htmlToPlainText(htmlContent)`
unfoldable pub plain_body : ComposeFormValues → SendPage → String
plain_body vals page =
    let own = trim (get_or vals.plain_text_body "") in
    if nonempty own then own else html_to_plain_text page.html_content

-- `!body && !htmlBody`
unfoldable pub is_without_body : ComposeFormValues → SendPage → Bool
unfolding plain_body
is_without_body vals page =
    not (nonempty (plain_body vals page)) && not (nonempty (wrap_html_document page.html_content))

-- the template parameters as they are sent, or none where they are no object
abbrev object_text : Option Parsed → Option String
object_text none = none
object_text (some v) = if v.is_object then some v.sent_as else none

unfoldable pub template_object : (String → Option Parsed) → Option String → Option String
template_object parse value =
    if nonempty (trim (get_or value "")) then object_text (parse (get_or value "")) else some "{}"

-- the payload
unfoldable pub payload : ComposeFormValues → SendPage → String → Payload
unfolding plain_body inline_attachment url_attachment
payload vals page params = record {
  to = to_address_payload vals.to;
  cc = to_address_payload vals.cc;
  bcc = to_address_payload vals.bcc;
  subject = vals.subject;
  body = plain_body vals page;
  html_body = or_undefined (some (wrap_html_document page.html_content));
  scene = vals.scene;
  template_params = params;
  idempotency_key = or_undefined vals.idempotency_key;
  attachments =
      map inline_attachment page.file_attachments ++ map url_attachment page.large_attachments;
}

abbrev pub sent_text : SendResponse → String
sent_text resp =
    Text.◌++◌ "发送成功 id="
      (Text.◌++◌ (get_or resp.id "-") (Text.◌++◌ " 状态=" (get_or resp.status "-")))

module _ (parse : String → Option Parsed) (write : Payload → List (String × Option String))
    (server : Server SendResponse) where
  unfoldable pub send_params : ComposeFormValues → SendPage → Option String → M SendPage
  send_params vals page none = do emit (toasted error "模板参数不是合法 JSON 对象"); pure page
  send_params vals page (some params) = do
    tried ←
        try_send server (send_email (write (payload vals page params))) sent_text (λ _ p. p)
          (λ _. none) (record page { sending = true })
    pure (record tried { sending = false })

  -- handleSend, by the values that the form's validation gives, if it does
  unfoldable pub handle_send : Option ComposeFormValues → SendPage → M SendPage
  unfolding send_params
  handle_send none page = pure page
  handle_send (some vals) page =
      if is_without_body vals page
      then (do emit (toasted error "正文不能为空"); pure page)
      else send_params vals page (template_object parse vals.template_params)

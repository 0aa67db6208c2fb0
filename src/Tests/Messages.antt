-- ===== src/Tests/Messages.antt =====
-- Text messages and emails at concrete texts and forms.
use testkit_service.Prelude.{
  ◌*◌, ◌<◌, arith, String, true, false, Option, none, some, List, [], ◌∷◌, ◌≡◌, ◌≢◌, ◌⊎◌, ◌↔◌, refl,
  All,
}
use testkit_service.Browser.{Browser}
use testkit_service.Request.{Server, replied}
use testkit_service.Mail.Text.{every, size, trim_start, trim_end, is_space, is_newline}
use testkit_service.Sms.{Parsed, SendResponse, SmsFormValues, SmsPage, sms_segments}
use testkit_service.Sms.Encoding.{is_astral, utf16_units, sms_segments-astral}
use testkit_service.Mail.Address.{Address, parse_address_tag, is_email}
use testkit_service.Mail.Address.Laws.{address_tag, IsName, parse_address_tag-address_tag}
use testkit_service.Mail.Recipients.{validate_addresses, to_address_payload, validate_addresses_iff}
use testkit_service.Mail.Send.{ComposeFormValues, Payload, SendPage}
use testkit_service.Tests.Data.{empty_at}

-- 36 emoji
abbrev party : String
party = "🎉🎉🎉🎉🎉🎉🎉🎉🎉🎉🎉🎉🎉🎉🎉🎉🎉🎉🎉🎉🎉🎉🎉🎉🎉🎉🎉🎉🎉🎉🎉🎉🎉🎉🎉🎉"

party-size : size party ≡ 36
unfolding size
party-size = refl

party-astral : every is_astral party ≡ true
party-astral = refl

sms_segments-astral_example :
    let s = sms_segments party in
    (s.per_segment ≡ 70) × (s.count * s.per_segment < utf16_units party)
sms_segments-astral_example = sms_segments-astral party party-astral (rw party-size (omega arith))

-- A parser that takes every text for an object, and a gateway that answers.
abbrev read_object : String → Option Parsed
read_object text = some (record { is_object = true; sent_as = text })

abbrev sent_one : Server SendResponse
sent_one log req =
    replied (record { id = some "7"; status = none; email_vendor = none; sms_vendor = none })

abbrev sms_form : SmsFormValues
sms_form = record {
  dial_code = some "+86";
  phone = some "13800138000";
  scene = some "SMS_SCENE_NOTIFY";
  template_params = some "{\"code\":\"1\"}";
  content = none;
  idempotency_key = none;
}

abbrev sms_page : SmsPage
sms_page = record { sending = false; last_resp = "" }

abbrev desk : Browser
desk = empty_at "/message/send-sms"

abbrev show : SendResponse → String
show resp = "{}"

validate_addresses_iff_example : (validate_addresses true ("Ann <ann@example.com>" ∷ []) ≡ none) ↔ (
    All
      (λ (a : Address). is_email a.email ≡ true)
      (to_address_payload ("Ann <ann@example.com>" ∷ []))
    × ((true ≡ false) ⊎ (to_address_payload ("Ann <ann@example.com>" ∷ []) ≢ [])))
validate_addresses_iff_example = validate_addresses_iff true ("Ann <ann@example.com>" ∷ [])

ann : IsName "Ann Lee"
unfolding trim_start trim_end is_space is_newline
ann = record { filled = refl; starts = refl; ends = refl; one_line = refl }

parse_address_tag-address_tag_example :
    parse_address_tag (address_tag "Ann Lee" "ann@example.com")
    ≡ record { email = "ann@example.com"; display_name = some "Ann Lee" }
parse_address_tag-address_tag_example =
    parse_address_tag-address_tag "Ann Lee" "ann@example.com" ann refl refl

abbrev mail_form : ComposeFormValues
mail_form = record {
  to = "ann@example.com" ∷ [];
  cc = [];
  bcc = [];
  subject = some "Hi";
  scene = some "EMAIL_SCENE_NOTIFY";
  idempotency_key = none;
  plain_text_body = some "Hello";
  template_params = none;
}

abbrev mail_page : SendPage
mail_page = record {
  html_content = "";
  file_attachments = [];
  large_attachments = [];
  sending = false;
}

abbrev write : Payload → List (String × Option String)
write payload = ("body", some payload.body) ∷ []

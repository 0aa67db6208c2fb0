-- ===== src/Mail/Send/Laws.antt =====
-- What handleSend of the compose page does, on each of its ways.
use testkit_service.Prelude.{
  String, false, Option, none, some, List, ◌∷◌, ◌++◌, map, ◌≡◌, ◌≢◌, ◌⊎◌, nonempty, truthy,
  if◌then◌else◌,
}
use testkit_service.Browser.{Browser, Outcome, ok, toasted, success, error, Failure}
use testkit_service.Request.{Reply, replied, failed, Server}
use testkit_service.Request.Laws.{after_send, after_failure}
use testkit_service.Services.{send_email}
use testkit_service.Submit.Laws.{sent_request}
use testkit_service.Sms.{Parsed, SendResponse}
use testkit_service.Mail.Attach.{FileAttachment}
use testkit_service.Mail.Markup.{LargeAttachment}
use testkit_service.Mail.PlainText.{wrap_html_document, html_to_plain_text}
use testkit_service.Mail.Recipients.{to_address_payload}
use testkit_service.Mail.Send.{ComposeFormValues, Payload, SendPage, sent_text}
use testkit_service.Mail.Send.Checks.{own_text}

-- An email that holds what was composed: the recipients of the three fields, the subject, the scene and
-- the key, the own text as the plain body, or that of the HTML, the HTML as a document, the parameters,
-- each file with its content, and each upload with its place.
pub record IsComposed (vals : ComposeFormValues) (page : SendPage) (params : String) (p : Payload)
    : Type 0 where
  pub recipients : p.to ≡ to_address_payload vals.to
  pub copies : p.cc ≡ to_address_payload vals.cc
  pub hidden_copies : p.bcc ≡ to_address_payload vals.bcc
  pub titled : p.subject ≡ vals.subject
  pub routed : p.scene ≡ vals.scene
  pub keyed :
      p.idempotency_key ≡ (if truthy vals.idempotency_key then vals.idempotency_key else none)
  pub own : own_text vals ≢ "" → p.body ≡ own_text vals
  pub derived : own_text vals ≡ "" → p.body ≡ html_to_plain_text page.html_content
  pub html : page.html_content ≢ "" → p.html_body ≡ some (wrap_html_document page.html_content)
  pub no_html : page.html_content ≡ "" → p.html_body ≡ none
  pub parameters : p.template_params ≡ params
  pub attached :
      p.attachments
      ≡ map
          (λ (f : FileAttachment). record {
            filename = f.filename;
            content = some f.content;
            url = none;
            mime_type = if nonempty f.mime_type then some f.mime_type else none;
            size_bytes = f.size_bytes;
          })
          page.file_attachments
        ++ map
            (λ (l : LargeAttachment). record {
              filename = l.filename;
              content = none;
              url = some l.url;
              mime_type = none;
              size_bytes = l.size_bytes;
            })
            page.large_attachments

module _ (parse : String → Option Parsed) (write : Payload → List (String × Option String))
    (server : Server SendResponse) (vals : ComposeFormValues) (page : SendPage) (w : Browser) where
  -- Only a message is shown.
  abbrev pub IsRefused : String → Outcome SendPage × Browser → Type 0
  IsRefused text r = r ≡ (ok page, record w { log = toasted error text ∷ w.log })

  -- The browser once the request with an email has left, and the answer to it.
  abbrev pub sending_of : Payload → Browser
  sending_of p = after_send w (send_email (write p))

  abbrev pub answer_to : Payload → Reply SendResponse
  answer_to p = server w.log (sent_request w (send_email (write p)))

  -- One request leaves, with what was composed. The button is free again and the page is kept; an
  -- answer is shown, and a failure is not.
  abbrev pub IsDelivered : String → Outcome SendPage × Browser → Type 0
  IsDelivered params r =
      (p : Payload) × IsComposed vals page params p
      × (((a : SendResponse) × (answer_to p ≡ replied a)
            × (r ≡ (
              ok (record page { sending = false }),
              record (sending_of p) { log = toasted success (sent_text a) ∷ (sending_of p).log },
            )))
          ⊎ ((e : Failure) × (answer_to p ≡ failed e)
              × (r ≡ (ok (record page { sending = false }), after_failure e (sending_of p)))))

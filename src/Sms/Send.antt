-- ===== src/Sms/Send.antt =====
-- Sending a text message: what leaves the page, and what is shown.
use Prim.Native.String as Text
use testkit_service.Prelude.{String, false, List, ◌∷◌, ◌≡◌, ◌⊎◌, get_or}
use testkit_service.Browser.{Browser, Outcome, ok, Effect, toasted, success, error, Failure}
use testkit_service.Request.{Server}
use testkit_service.Services.{send_sms}
use testkit_service.Submit.{data_message, requests}
use testkit_service.Submit.Laws.{sent_request}
use testkit_service.Sms.{SmsFormValues, SmsPage, SendResponse, sms_request}

module _ (server : Server SendResponse) (pretty : SendResponse → String) (vals : SmsFormValues)
    (page : SmsPage) (w : Browser) where
  -- One request has left, with these parameters, and the button is free again; the response is shown, or
  -- the failure's message is, and the earlier response stays.
  abbrev pub IsSent : String → Outcome SmsPage × Browser → Type 0
  IsSent params r =
      (p : SmsPage) × (r.0 ≡ ok p)
      × (p.sending ≡ false)
      × (requests r.1.log ≡ sent_request w (send_sms (sms_request vals params)) ∷ requests w.log)
      × (((a : SendResponse) × (log : List Effect) × (p.last_resp ≡ pretty a)
            × (r.1.log
                ≡ toasted success (Text.◌++◌ "已提交（记录 #" (Text.◌++◌ (get_or a.id "undefined") "）"))
                  ∷ log))
          ⊎ ((e : Failure) × (log : List Effect) × (p.last_resp ≡ page.last_resp)
              × (r.1.log ≡ toasted error (get_or (data_message e) "发送失败") ∷ log)))

-- ===== src/Sms.antt =====
-- The compose page of text messages (web/src/pages/Message/SendSMS/index.tsx). The JSON that it reads
-- and writes, the browser's `JSON`, is a parameter.
pub mod Encoding
pub mod Send
use Prim.Native.Char.{Char, code}
use Prim.Native.String as Text
use mathlib.Core.Option
use testkit_service.Prelude.{
  ℕ, zero, suc, ◌+◌, ◌-◌, ◌/◌, ◌*◌, String, Bool, true, false, Option, none, some, List, [], ◌∷◌,
  ◌++◌, ◌==◌, eqb, leb, not, ◌&&◌, ◌||◌, if◌then◌else◌, any, map, truthy, get_or, nonempty,
  or_undefined,
}
use testkit_service.Browser.{
  M, pure, ◌>>=◌, ◌>>◌, catch, emit, toasted, success, error, Failure, Request,
}
use testkit_service.Request.{Server, call}
use testkit_service.Services.{send_sms}
use testkit_service.Submit.{data_message, try_send}
use testkit_service.Mail.Text.{every, trim, size}

-- the ranges of GSM_CHAR_RE, and the characters that stand in it one by one
abbrev pub gsm_singles : List ℕ
gsm_singles =
    13 ∷ 10 ∷ b'@' ∷ 163 ∷ b'$' ∷ 165 ∷ 232 ∷ 233 ∷ 249 ∷ 236 ∷ 242 ∷ 199 ∷ 216 ∷ 248 ∷ 197 ∷ 229
    ∷ 916 ∷ b'_' ∷ 934 ∷ 915 ∷ 923 ∷ 937 ∷ 928 ∷ 936 ∷ 931 ∷ 920 ∷ 926 ∷ 198 ∷ 230 ∷ 223 ∷ 201
    ∷ b'!' ∷ b'"' ∷ b'#' ∷ 164 ∷ b'%' ∷ b'&' ∷ 39 ∷ b'(' ∷ b')' ∷ b'*' ∷ b'+' ∷ b',' ∷ b'.' ∷ b'/'
    ∷ b':' ∷ b';' ∷ b'<' ∷ b'=' ∷ b'>' ∷ b'?' ∷ 161 ∷ 196 ∷ 214 ∷ 209 ∷ 220 ∷ 167 ∷ 191 ∷ 228 ∷ 246
    ∷ 241 ∷ 252 ∷ 224 ∷ b'^' ∷ b'{' ∷ b'}' ∷ b'[' ∷ b']' ∷ b'~' ∷ b'|' ∷ 8364 ∷ 32 ∷ b'-' ∷ []

unfoldable pub is_gsm_char : Char → Bool
is_gsm_char c =
    (leb b'A' (code c) && leb (code c) b'Z')
    || (leb b'a' (code c) && leb (code c) b'z')
    || (leb b'0' (code c) && leb (code c) b'9')
    || any (eqb (code c)) gsm_singles

-- isGsmOnly
unfoldable pub is_gsm_only : String → Bool
is_gsm_only text = every is_gsm_char text

pub record Segments : Type 0 where
  pub count : ℕ
  pub per_segment : ℕ

-- `Math.ceil(len / multi)`
abbrev pub ceil_div : ℕ → ℕ → ℕ
ceil_div n m = (n + m - 1) / m

-- smsSegments
unfoldable pub sms_segments : String → Segments
sms_segments text =
    let len = size text in
    let gsm = is_gsm_only text in
    let single = if gsm then 160 else 70 in
    let multi = if gsm then 153 else 67 in
    if eqb len 0
    then record { count = 0; per_segment = 0 }
    else record { count = if leb len single then 1 else ceil_div len multi; per_segment = single }

-- A value that `JSON.parse` gives: whether it is an object and no array, and how it is sent.
pub record Parsed : Type 0 where
  pub is_object : Bool
  pub sent_as : String

-- paramsValidator: whether it accepts
abbrev accepts : Option Parsed → Bool
accepts none = false
accepts (some v) = v.is_object

unfoldable pub params_validator : (String → Option Parsed) → Option String → Bool
params_validator parse value = if truthy value then accepts (parse (get_or value "")) else true

pub record SmsFormValues : Type 0 where
  pub dial_code : Option String
  pub phone : Option String
  pub scene : Option String
  pub template_params : Option String
  pub content : Option String
  pub idempotency_key : Option String

pub record SmsPage : Type 0 where
  pub sending : Bool
  pub last_resp : String

-- API.v1SendResponse
pub record SendResponse : Type 0 where
  pub id : Option String
  pub status : Option String
  pub email_vendor : Option String
  pub sms_vendor : Option String

-- isIntl, by the dial code that the form holds
unfoldable pub is_intl : SmsFormValues → Bool
is_intl vals = not (get_or vals.dial_code "+86" == "+86")

-- the argument of sendSms
unfoldable pub sms_request : SmsFormValues → (params : String) → List (String × Option String)
sms_request vals params =
    ("dialCode", vals.dial_code)
    ∷ ("phone", vals.phone)
    ∷ ("scene", vals.scene)
    ∷ ("templateParams", some params)
    ∷ ((if is_intl vals && nonempty (trim (get_or vals.content ""))
          then ("content", vals.content) ∷ []
          else [])
        ++ (if truthy vals.idempotency_key
            then ("idempotencyKey", vals.idempotency_key) ∷ []
            else []))

-- the start of onFinish: the parameters as they are sent, or none where they are no JSON
unfoldable pub read_params : (String → Option Parsed) → Option String → Option String
read_params parse value =
    if truthy value
    then Option.map (λ (v : Parsed). v.sent_as) (parse (get_or value ""))
    else some "{}"

-- onFinish
unfoldable pub on_params :
    Server SendResponse
    → (pretty : SendResponse → String) → SmsFormValues
    → SmsPage
    → Option String
    → M SmsPage
on_params server pretty vals page none = do emit (toasted error "模板参数不是合法 JSON"); pure page
on_params server pretty vals page (some params) = do
  tried ←
      try_send server (send_sms (sms_request vals params))
        (λ resp. Text.◌++◌ "已提交（记录 #" (Text.◌++◌ (get_or resp.id "undefined") "）"))
        (λ resp p. record p { last_resp = pretty resp })
        (λ e. some (get_or (data_message e) "发送失败")) (record page { sending = true })
  pure (record tried { sending = false })

unfoldable pub on_finish :
    (parse : String → Option Parsed)
    → (pretty : SendResponse → String) → Server SendResponse
    → SmsFormValues
    → SmsPage
    → M SmsPage
unfolding on_params
on_finish parse pretty server vals page =
    on_params server pretty vals page (read_params parse vals.template_params)

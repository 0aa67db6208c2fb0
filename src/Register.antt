-- ===== src/Register.antt =====
-- web/src/pages/User/Register/index.tsx: the verification code, its countdown, and the submit of the
-- form. The templates that the form starts from are the built-in ones.
pub mod Laws
use testkit_service.Prelude.{
  ℕ, ◌-◌, String, Bool, true, false, Option, none, some, List, [], ◌∷◌, ◌++◌, ◌==◌, ◌&&◌, ◌||◌, not,
  leb, ltb, truthy, get_or, or_else, or_undefined, is_text, if◌then◌else◌,
}
use Prim.Native.String
use testkit_service.Browser.{
  M, pure, ok, ◌>>=◌, ◌>>◌, catch, emit, toasted, error, success, warning, Failure,
}
use testkit_service.Identity.{User, Codec}
use testkit_service.Bootstrap.{WhoAmI}
use testkit_service.Login.{TokenResponse, adopt, biz_message}
use testkit_service.Request.{Server, call}
use testkit_service.Services.{register, send_verification_code}
use testkit_service.Templates.{EmailTemplate, verification_code_template}

-- RegisterFormValues
pub record RegisterFormValues : Type 0 where
  pub channel : Option String
  pub email : Option String
  pub dial_code : Option String
  pub phone : Option String
  pub code : Option String
  pub captcha_id : Option String
  pub username : Option String
  pub nickname : Option String
  pub password : Option String
  pub confirm_password : Option String
  pub email_subject : Option String
  pub email_body : Option String
  pub email_html_body : Option String
  pub sms_template_id : Option String
  pub sign_name : Option String
  pub sms_content : Option String
  pub sms_code_param_key : Option String
  pub gender : Option String
  pub timezone : Option String
  pub locale : Option String

-- the form's initialValues
unfoldable pub initial_values : RegisterFormValues
initial_values = record {
  channel = some "email";
  email = none;
  dial_code = some "+86";
  phone = none;
  code = none;
  captcha_id = none;
  username = none;
  nickname = none;
  password = none;
  confirm_password = none;
  email_subject = some verification_code_template.subject;
  email_body = some verification_code_template.body;
  email_html_body = some verification_code_template.html_body;
  sms_template_id = none;
  sign_name = none;
  sms_content = some "code: {code}";
  sms_code_param_key = none;
  gender = none;
  timezone = some "Asia/Shanghai";
  locale = some "zh-Hans";
}

-- The state of the page that the button reads: the form, the seconds left, a running request.
pub record RegisterPage : Type 0 where
  pub form : RegisterFormValues
  pub countdown : ℕ
  pub sending : Bool

-- startCountdown, and what its timer does every second
unfoldable pub start_countdown : RegisterPage → RegisterPage
start_countdown page = record page { countdown = 60 }

unfoldable pub tick : RegisterPage → RegisterPage
tick page = record page { countdown = if leb page.countdown 1 then 0 else page.countdown - 1 }

-- the button's `disabled`
unfoldable pub is_disabled : RegisterPage → Bool
is_disabled page = ltb 0 page.countdown

-- the early returns of sendCode: the warning that is shown
unfoldable pub missing_field : RegisterFormValues → Option String
missing_field vals =
    let is_email = is_text vals.channel "email" in
    if is_email && not (truthy vals.email)
    then some "请先填写邮箱"
    else (if not is_email && (not (truthy vals.dial_code) || not (truthy vals.phone))
        then some "请先填写国家码和手机号"
        else (if not is_email
              && is_text vals.dial_code "+86"
              && (not (truthy vals.sms_template_id) || not (truthy vals.sign_name))
            then some "国内短信需要短信模板 ID 和签名（投递模板面板里填写）"
            else none))

-- the argument of sendVerificationCode
unfoldable pub code_request : RegisterFormValues → List (String × Option String)
code_request vals =
    let is_email = is_text vals.channel "email" in
    let head =
      (
        "channel",
        some (if is_email then "VERIFICATION_CHANNEL_EMAIL" else "VERIFICATION_CHANNEL_SMS"),
      )
      ∷ ("purpose", some "VERIFICATION_PURPOSE_REGISTER")
      ∷ [] in
    let by_email =
      ("email", vals.email)
      ∷ ("emailSubject", some (or_else vals.email_subject verification_code_template.subject))
      ∷ ("emailBody", some (or_else vals.email_body verification_code_template.body))
      ∷ ("emailHtmlBody", or_undefined vals.email_html_body)
      ∷ [] in
    let by_phone =
      ("dialCode", some (or_else vals.dial_code "+86"))
      ∷ ("phone", vals.phone)
      ∷ ("smsTemplateId", or_undefined vals.sms_template_id)
      ∷ ("signName", or_undefined vals.sign_name)
      ∷ ("smsContent", or_undefined vals.sms_content)
      ∷ ("smsCodeParamKey", or_undefined vals.sms_code_param_key)
      ∷ [] in
    head ++ (if is_email then by_email else by_phone)

-- what the `try` block does to the page, once the server has answered with a captcha id or none
unfoldable pub code_sent : Option String → RegisterPage → RegisterPage
unfolding start_countdown
code_sent captcha page =
    if truthy captcha
    then start_countdown (record page { form = record (page.form) { captcha_id = captcha } })
    else start_countdown page

-- the two messages of sendCode
abbrev pub sent_text : Option String → String
sent_text captcha = if truthy captcha then "验证码已发送，captcha_id 已自动填入" else "验证码已发送"

abbrev pub unsent_text : Failure → String
unsent_text e =
    String.◌++◌ (biz_message e "验证码发送失败")
      "（邮件/短信未配置时可从 Redis 键 captcha:1:*:* 读取验证码与 captcha_id 手动填入）"

-- the `try` and `catch` of sendCode
unfoldable pub ask_code : Server (Option String) → RegisterPage → M RegisterPage
ask_code server page =
    catch
      (do
        captcha ← call server (send_verification_code (code_request page.form))
        emit (toasted success (sent_text captcha))
        pure (code_sent captcha page))
      (λ e. do emit (toasted error (unsent_text e)); pure page)

-- sendCode, by the warning that its tests lead to
abbrev after_checks : Server (Option String) → RegisterPage → Option String → M RegisterPage
after_checks server page (some text) = do emit (toasted warning text); pure page
after_checks server page none = do
  asked ← ask_code server (record page { sending = true })
  pure (record asked { sending = false })

-- sendCode
unfoldable pub send_code : Server (Option String) → RegisterPage → M RegisterPage
send_code server page = after_checks server page (missing_field page.form)

-- `a !== b` on optional texts
abbrev pub same_text : Option String → Option String → Bool
same_text none none = true
same_text none (some b) = false
same_text (some a) none = false
same_text (some a) (some b) = a == b

-- the argument of register
unfoldable pub register_request : RegisterFormValues → List (String × Option String)
register_request vals =
    let is_email = is_text vals.channel "email" in
    let contact =
      if is_email
      then ("email", vals.email) ∷ []
      else ("dialCode", vals.dial_code) ∷ ("phone", vals.phone) ∷ [] in
    ("provider", some (if is_email then "IDENTITY_PROVIDER_EMAIL" else "IDENTITY_PROVIDER_PHONE"))
    ∷ (contact
        ++ ("code", vals.code)
          ∷ ("captchaId", vals.captcha_id)
          ∷ ("username", vals.username)
          ∷ ("nickname", vals.nickname)
          ∷ ("password", vals.password)
          ∷ ("gender", vals.gender)
          ∷ ("timezone", vals.timezone)
          ∷ ("locale", vals.locale)
          ∷ [])

-- "注册成功，欢迎 ${user.nickname || user.username}"; a template writes out undefined
unfoldable pub welcome_text : User → String
welcome_text user =
    String.◌++◌ "注册成功，欢迎 " (or_else user.nickname (get_or user.username "undefined"))

-- onFinish
unfoldable pub submit_register : Codec → WhoAmI → Server TokenResponse → RegisterFormValues → M Bool
submit_register json who server vals =
    if not (same_text vals.password vals.confirm_password)
    then (do emit (toasted error "两次输入的密码不一致"); pure false)
    else catch
        (do
          response ← call server (register (register_request vals))
          adopt json who "注册失败：响应缺少 token 或用户信息" welcome_text response)
        (λ e. do emit (toasted error (biz_message e "注册失败")); pure false)

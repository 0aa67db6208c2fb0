-- ===== src/Bindings.antt =====
-- web/src/pages/Identity/index.tsx: the login methods of the user, their binding and unbinding. A query
-- stands as its text, which the parameter `query` writes.
pub mod Events
pub mod Laws
use testkit_service.Prelude.{
  ℕ, ◌+◌, String, Bool, true, false, Option, none, some, List, [], ◌∷◌, ◌++◌, get_or, or_else,
  is_text, includes, not, ◌==◌, ◌||◌, if◌then◌else◌,
}
use testkit_service.Browser.{M, pure, ◌>>=◌, Request}
use testkit_service.Request.{Server, call}
use testkit_service.Services.{
  send_verification_code, list_identities, bind_identity, bind_oauth_identity, unbind_identity,
  get_oauth_url,
}
use testkit_service.Submit.{send_plain, try_send, try_take}
use testkit_service.Admin.{message_or}
use testkit_service.Templates.{verification_code_template}

-- API.Identity, the fields that the page reads
pub record IdentityInfo : Type 0 where
  pub id : Option String
  pub provider : Option String
  pub provider_uid : Option String

-- OAUTH_PROVIDERS
abbrev pub oauth_providers : List String
oauth_providers =
    "IDENTITY_PROVIDER_GITHUB" ∷ "IDENTITY_PROVIDER_GOOGLE" ∷ "IDENTITY_PROVIDER_WECHAT"
    ∷ "IDENTITY_PROVIDER_APPLE" ∷ []

abbrev pub by_email : String
by_email = "IDENTITY_PROVIDER_EMAIL"

abbrev pub by_phone : String
by_phone = "IDENTITY_PROVIDER_PHONE"

-- BIND_PROVIDER_OPTIONS: values and labels
abbrev pub bind_provider_options : List (String × String)
bind_provider_options =
    (by_email, "邮箱")
    ∷ (by_phone, "手机")
    ∷ ("IDENTITY_PROVIDER_GITHUB", "GitHub")
    ∷ ("IDENTITY_PROVIDER_GOOGLE", "Google")
    ∷ ("IDENTITY_PROVIDER_WECHAT", "微信")
    ∷ ("IDENTITY_PROVIDER_APPLE", "Apple")
    ∷ []

-- the button that unbinds is active
unfoldable pub unbindable : Option String → Bool
unbindable row =
    let provider = get_or row "" in
    let code_unbindable = provider == by_email || provider == by_phone in
    let oauth_unbindable =
      includes
        ("IDENTITY_PROVIDER_GITHUB" ∷ "IDENTITY_PROVIDER_GOOGLE" ∷ "IDENTITY_PROVIDER_WECHAT"
          ∷ "IDENTITY_PROVIDER_WECHAT_MINIPROGRAM" ∷ "IDENTITY_PROVIDER_APPLE" ∷ [])
        provider in
    code_unbindable || oauth_unbindable

-- The hooks of the page, and how often the table was reloaded.
pub record IdentityPage : Type 0 where
  pub bind_open : Bool
  pub unbind_target : Option IdentityInfo
  pub oauth_state : Option String
  pub oauth_url : Option String
  pub reloads : ℕ

-- onOpenChange of the dialog that binds, and what the page forgets of a link
unfoldable pub forget_link : IdentityPage → IdentityPage
forget_link page = record page { oauth_state = none; oauth_url = none }

unfoldable pub bind_open_changed : Bool → IdentityPage → IdentityPage
unfolding forget_link
bind_open_changed open_ page =
    let moved : IdentityPage = record page { bind_open = open_ } in
    if open_ then moved else forget_link moved

-- the values of the form that binds
pub record BindForm : Type 0 where
  pub provider : Option String
  pub email : Option String
  pub dial_code : Option String
  pub phone : Option String
  pub code : Option String

-- `isOAuth`
abbrev pub is_oauth : BindForm → Bool
is_oauth vals = includes oauth_providers (get_or vals.provider "")

-- the request of onFinish
unfoldable pub bind_request : BindForm → IdentityPage → Request
bind_request vals page =
    if is_oauth vals
    then bind_oauth_identity (
        ("provider", vals.provider)
        ∷ ("code", vals.code)
        ∷ ("state", some (get_or page.oauth_state ""))
        ∷ [])
    else bind_identity (
        ("provider", vals.provider)
        ∷ ("email", vals.email)
        ∷ ("dialCode", vals.dial_code)
        ∷ ("phone", vals.phone)
        ∷ ("code", vals.code)
        ∷ [])

-- what onFinish does to the page after the request; a returned `true` closes the dialog
unfoldable pub bound : IdentityPage → IdentityPage
unfolding forget_link bind_open_changed
bound page =
    let done : IdentityPage = forget_link page in
    bind_open_changed false (record done { reloads = done.reloads + 1 })

-- onFinish of the dialog that binds
unfoldable pub bind : Server (Unit {0}) → BindForm → IdentityPage → M IdentityPage
unfolding bind_request bound
bind server vals page =
    send_plain server (bind_request vals page)
      (λ _. if is_oauth vals then "OAuth 身份已绑定" else "绑定成功") (λ _ p. bound p) page

-- API.v1GetOAuthURLResponse
pub record OAuthLink : Type 0 where
  pub url : Option String
  pub state : Option String

unfoldable pub link_taken : OAuthLink → IdentityPage → IdentityPage
link_taken resp page = record page {
  oauth_state = some (get_or resp.state "");
  oauth_url = some (get_or resp.url "");
}

-- the button for the link of a provider
unfoldable pub get_link :
    (query : List (String × Option String) → String)
    → Server OAuthLink
    → (provider : Option String) → IdentityPage
    → M IdentityPage
unfolding link_taken
get_link query server provider page =
    try_take server
      (get_oauth_url (get_or provider "") (query (("returnTo", some "/identity") ∷ []))) link_taken
      (message_or "获取授权链接失败") page

-- the arguments of sendVerificationCode in the two dialogs
unfoldable pub bind_code : (is_email : Bool) → BindForm → List (String × Option String)
bind_code is_email vals =
    (
      "channel",
      some (if is_email then "VERIFICATION_CHANNEL_EMAIL" else "VERIFICATION_CHANNEL_SMS"),
    )
    ∷ ("purpose", some "VERIFICATION_PURPOSE_BIND")
    ∷ (if is_email
        then ("email", some (get_or vals.email ""))
          ∷ ("emailSubject", some verification_code_template.subject)
          ∷ ("emailBody", some verification_code_template.body)
          ∷ []
        else ("dialCode", some (or_else vals.dial_code "+86"))
          ∷ ("phone", some (get_or vals.phone ""))
          ∷ [])

unfoldable pub unbind_code : IdentityInfo → List (String × Option String)
unbind_code target =
    let is_email = is_text target.provider by_email in
    (
      "channel",
      some (if is_email then "VERIFICATION_CHANNEL_EMAIL" else "VERIFICATION_CHANNEL_SMS"),
    )
    ∷ (
      "purpose",
      some (
          if is_email
          then "VERIFICATION_PURPOSE_VERIFY_EMAIL"
          else "VERIFICATION_PURPOSE_VERIFY_PHONE"),
    )
    ∷ (if is_email
        then ("email", some (get_or target.provider_uid ""))
          ∷ ("emailSubject", some verification_code_template.subject)
          ∷ ("emailBody", some verification_code_template.body)
          ∷ []
        else ("phone", some (get_or target.provider_uid "")) ∷ [])

-- the buttons for a code
unfoldable pub send_code :
    Server (Unit {0}) → List (String × Option String) → IdentityPage → M IdentityPage
send_code server body page =
    try_send server (send_verification_code body) (λ _. "验证码已发送") (λ _ p. p) (message_or "发送失败")
      page

-- `needsCode`
unfoldable pub needs_code : IdentityInfo → Bool
needs_code target = is_text target.provider by_email || is_text target.provider by_phone

-- onFinish of the dialog that unbinds
unfoldable pub unbind_request : IdentityInfo → (code : Option String) → Request
unfolding needs_code
unbind_request target code =
    unbind_identity (get_or target.id "")
      (("code", if needs_code target then code else some "") ∷ [])

unfoldable pub unbind :
    Server (Unit {0}) → IdentityInfo → (code : Option String) → IdentityPage → M IdentityPage
unfolding unbind_request
unbind server target code page =
    send_plain server (unbind_request target code) (λ _. "已解绑")
      (λ _ p. record p { unbind_target = none; reloads = p.reloads + 1 }) page

-- request
unfoldable pub request_identities : Server (Option (List IdentityInfo)) → M (List IdentityInfo)
request_identities server = do resp ← call server list_identities; pure (get_or resp [])

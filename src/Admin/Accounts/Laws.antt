-- ===== src/Admin/Accounts/Laws.antt =====
-- Which credentials a form for a new account builds, and what those of a mail account lack.
use mathlib.Core.Path.{subst}
use testkit_service.Prelude.{
  sym, ap, ◌∙◌, String, false, Option, none, some, List, [], ◌∷◌, ◌≡◌, refl, arith, includes,
  get_or, or_else, ◌==◌, eq_iff, Bool-cases, inl, inr, if◌then◌else◌,
}
use testkit_service.Browser.{Browser, Request}
use testkit_service.Request.{Server}
use testkit_service.Scope.{TenantView}
use testkit_service.Services.{message_create_channel_account}
use testkit_service.Submit.Laws.{try_send-IsTried}
use testkit_service.Admin.{Table, reload}
use testkit_service.Admin.Laws.{IsSubmitted, submitted}
use testkit_service.Admin.Accounts.{
  AccountForm, Credentials, aliyun_sms, tencent_sms, volcengine_sms, byteplus_sms, huawei_sms, smtp,
  nothing, cred_kinds, build_credentials, shown_fields, account_request, create_account,
}

-- the provider whose credentials these are
abbrev pub provider : Credentials → Option String
provider (aliyun_sms a b c) = some "aliyun_sms"
provider (tencent_sms a b c d) = some "tencent_sms"
provider (volcengine_sms a b c d) = some "volcengine_sms"
provider (byteplus_sms a b c d) = some "byteplus_sms"
provider (huawei_sms a b c d) = some "huawei_sms"
provider (smtp a b c d e f) = some "smtp"
provider nothing = none

step :
    (k name : String) (taken left : Credentials) (rest : List String)
    → provider taken ≡ some name
    → provider left ≡ (if includes rest k then some k else none)
    → provider (if k == name then taken else left)
      ≡ (if includes (name ∷ rest) k then some k else none)
step k name taken left rest here there = elim (Bool-cases (k == name)) [
  | inl e ↦
      let same : k ≡ name = (eq_iff k name).0 e in
      rw (e, (eq_iff name k).1 (sym same)) (here ∙ ap some (sym same))
  | inr e ↦
      let other : (name == k) ≡ false = ground (arith, eq_iff k name, eq_iff name k) in
      rw (e, other) there
]

-- The credentials that the form builds are those of the provider that was picked, for each provider that
-- the form offers, and none for any other text.
pub build_credentials-provider :
    (kind : String) (v : AccountForm)
    → provider (build_credentials kind v) ≡ (if includes cred_kinds kind then some kind else none)
unfolding build_credentials
build_credentials-provider kind v =
    step kind "aliyun_sms" _ _
      ("tencent_sms" ∷ "volcengine_sms" ∷ "byteplus_sms" ∷ "huawei_sms" ∷ "smtp" ∷ []) refl
      (step kind "tencent_sms" _ _ ("volcengine_sms" ∷ "byteplus_sms" ∷ "huawei_sms" ∷ "smtp" ∷ [])
        refl
        (step kind "volcengine_sms" _ _ ("byteplus_sms" ∷ "huawei_sms" ∷ "smtp" ∷ []) refl (
          step kind "byteplus_sms" _ _ ("huawei_sms" ∷ "smtp" ∷ []) refl (
            step kind "huawei_sms" _ _ ("smtp" ∷ []) refl
              (step kind "smtp" _ nothing [] refl refl)))))

module _ (server : Server (Unit {0})) (text : Credentials → String) (w : Browser) where
  -- A mail account's request: its credentials are without a user name.
  abbrev pub mail_request : TenantView → AccountForm → Request
  mail_request view vals = message_create_channel_account (
      ("name", vals.name)
      ∷ ("remark", some (get_or vals.remark ""))
      ∷ (
        "credentials",
        some (
            text (
              smtp vals.brand vals.host (get_or vals.port 587) none vals.access_secret
                vals.from_address)),
      )
      ∷ ("tenantKey", some (if view.cross_view then "" else or_else vals.tenant_key ""))
      ∷ [])

  mail_request_lem :
      (view : TenantView) (vals : AccountForm)
      → vals.kind ≡ "smtp"
      → account_request text view (shown_fields vals) ≡ mail_request view vals
  unfolding account_request shown_fields build_credentials
  mail_request_lem view vals mail = simp mail refl

  -- The form shows no field for the user name of a mail account: whatever was typed, the request for a
  -- new one carries credentials without a user name.
  pub create_account-no_username :
      (view : TenantView) (vals : AccountForm) (table : Table)
      → w.blocked ≡ false
      → vals.kind ≡ "smtp"
      → IsSubmitted w
          (mail_request view vals)
          table
          (reload table)
          "创建失败"
          (create_account server text view vals table w)
  unfolding create_account
  create_account-no_username view vals table b mail =
      subst
        (λ req.
          IsSubmitted w req table (reload table) "创建失败"
            (create_account server text view vals table w))
        (mail_request_lem view vals mail)
        (submitted server w (account_request text view (shown_fields vals)) table reload "已创建"
          "创建失败" (create_account server text view vals table w)
          (try_send-IsTried server _ _ _ _ (false, table) w b))

-- ===== src/Tokens.antt =====
-- web/src/pages/Telemetry/Tokens.tsx: the ingest tokens of the chosen tenant.
pub mod Laws
use testkit_service.Prelude.{
  ℕ, ◌+◌, String, Bool, true, false, Option, none, some, List, [], ◌∷◌, keep, first, get_or,
  is_text, truthy, nonempty, not, ◌||◌, if◌then◌else◌,
}
use testkit_service.Browser.{M, pure, ◌>>=◌, Browser, Outcome, ok}
use testkit_service.Request.{Server, call}
use testkit_service.Scope.{TenantView}
use testkit_service.Services.{
  list_tenant_configs, get_tenant_config, create_tenant_config, rotate_token, revoke_token,
}
use testkit_service.Submit.{try_send}
use testkit_service.Admin.{message_or}

-- API.v1IngestTokenInfo, the fields that the actions read
pub record IngestToken : Type 0 where
  pub prefix : Option String
  pub revoked : Bool

-- API.telemetryV1TenantConfig, the fields that the page reads
pub record TelemetryConfig : Type 0 where
  pub app_key : Option String
  pub tenant_key : Option String

-- The hooks of the page, the tokens that its dialogs have shown with their titles, the newest first, and
-- how often the table was reloaded.
pub record TokensPage : Type 0 where
  pub app_key : Option String
  pub dialogs : List (String × String)
  pub reloads : ℕ

-- the early return: the page asks for a tenant first
unfoldable pub without_tenant : TenantView → Bool
without_tenant view = view.cross_view || not (nonempty view.tenant_key)

-- `configs.find((a) => a.tenantKey === view.tenantKey)`
unfoldable pub own_config : TenantView → List TelemetryConfig → Option TelemetryConfig
own_config view configs =
    first (keep (λ (a : TelemetryConfig). is_text a.tenant_key view.tenant_key) configs)

-- `mine?.appKey ?? null`
abbrev app_key_of : Option TelemetryConfig → Option String
app_key_of none = none
app_key_of (some c) = c.app_key

-- request, up to its first early return: the page, and whether the tokens are asked for
unfoldable pub config_found : TenantView → List TelemetryConfig → TokensPage → TokensPage
unfolding own_config
config_found view configs page = record page { app_key = app_key_of (own_config view configs) }

-- the rest of `request`, whose failure is the table's
unfoldable pub ask_tokens :
    Server (Option (List IngestToken)) → TenantView → Option TelemetryConfig → M (List IngestToken)
ask_tokens server view none = pure []
ask_tokens server view (some c) = do
  detail ← call server (get_tenant_config view.tenant_key)
  pure (get_or detail [])

-- what an action came to, as a value
abbrev settled_in : {A : Type 0} → M A → M (Outcome A)
settled_in m w = let (o, v) = m w in (ok o, v)

-- request; the state that it sets is kept where the second call fails
unfoldable pub request_tokens :
    Server (Option (List TelemetryConfig))
    → Server (Option (List IngestToken))
    → TenantView
    → TokensPage
    → M (TokensPage × Outcome (List IngestToken))
unfolding config_found own_config ask_tokens
request_tokens configs tokens view page = do
  resp ← call configs list_tenant_configs
  rows ← settled_in (ask_tokens tokens view (own_config view (get_or resp [])))
  pure (config_found view (get_or resp []) page, rows)

-- the button of the toolbar
pub data TokenAction : Type 0 where
  rotates creates : TokenAction

unfoldable pub offered : TokensPage → TokenAction
offered page = if truthy page.app_key then rotates else creates

-- showTokenOnce, and the reload behind it
unfoldable pub token_shown : (title : String) → (token : Option String) → TokensPage → TokensPage
token_shown title token page = record page {
  dialogs = (title, get_or token "") ∷ page.dialogs;
  reloads = page.reloads + 1;
}

module _ (server : Server (Option String)) (view : TenantView) where
  -- onConfirm of the two buttons; the answer is the token
  unfoldable pub rotate_tokens : TokensPage → M TokensPage
  unfolding token_shown
  rotate_tokens page =
      try_send server (rotate_token view.tenant_key) (λ _. "已轮换")
        (λ token p. token_shown "新令牌（仅此一次）" token p) (message_or "轮换失败") page

  unfoldable pub create_tokens : TokensPage → M TokensPage
  unfolding token_shown
  create_tokens page =
      try_send server
        (create_tenant_config
          (("tenantKey", some view.tenant_key) ∷ ("name", some view.tenant_key) ∷ []))
        (λ _. "已生成本租户首枚令牌") (λ token p. token_shown "首枚令牌（仅此一次）" token p) (message_or "生成失败") page

-- onConfirm of the link that revokes
unfoldable pub revoke_token_of :
    Server (Unit {0}) → TenantView → IngestToken → TokensPage → M TokensPage
revoke_token_of server view r page =
    if nonempty view.tenant_key
    then try_send server (revoke_token view.tenant_key (get_or r.prefix "")) (λ _. "已吊销")
        (λ _ p. record p { reloads = p.reloads + 1 }) (message_or "吊销失败") page
    else pure page

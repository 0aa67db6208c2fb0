-- ===== src/Tests/Account.antt =====
-- The account's own pages and the license console at concrete rows, forms and draws.
use mathlib.Core.Path.{subst}
use testkit_service.Scope.{TenantView}
use testkit_service.Tokens.{TelemetryConfig, TokensPage, config_found, offered, creates}
use testkit_service.Tokens.Laws.{IsOwnRow, offered-creates_iff}
use testkit_service.Prelude.{
  Listed, inl, inr, truthy, ℕ, true, false, none, some, List, [], ◌∷◌, ◌≡◌, ◌↔◌, refl, arith,
}
use testkit_service.Services.{bind_oauth_identity}
use testkit_service.Bindings.{IdentityPage, BindForm, OAuthLink, bind_request}
use testkit_service.Bindings.Events.{
  Event, open_changed, link_answered, bind_answered, act, run, AreTimely, IsForgotten,
  run-IsForgotten,
}
use testkit_service.Bindings.Laws.{bind-late_link}
use testkit_service.License.Console.{uuid_form, random_uuid}
use testkit_service.License.Laws.{Follows, random_uuid-Follows}

abbrev page : IdentityPage
page = record {
  bind_open = false;
  unbind_target = none;
  oauth_state = none;
  oauth_url = none;
  reloads = 0;
}

abbrev link : OAuthLink
link = record { url = some "https://example.com/authorize"; state = some "s1" }

abbrev binding : List Event
binding =
    open_changed true
    ∷ link_answered link
    ∷ bind_answered
    ∷ open_changed true
    ∷ link_answered link
    ∷ open_changed false
    ∷ []

binding-AreTimely : AreTimely binding page
unfolding act
binding-AreTimely = (tt, (refl, (tt, (tt, (refl, (tt, tt))))))

run-IsForgotten_example : IsForgotten (run binding page)
run-IsForgotten_example = run-IsForgotten binding page binding-AreTimely (λ closed. (refl, refl))

abbrev google : BindForm
google = record {
  provider = some "IDENTITY_PROVIDER_GOOGLE";
  email = none;
  dial_code = none;
  phone = none;
  code = some "c";
}

bind-late_link_example :
    bind_request google
      (run (open_changed false ∷ link_answered link ∷ open_changed true ∷ []) page)
    ≡ bind_oauth_identity (
        ("provider", some "IDENTITY_PROVIDER_GOOGLE")
        ∷ ("code", some "c")
        ∷ ("state", some "s1")
        ∷ [])
bind-late_link_example = bind-late_link link page google refl

abbrev last_digit : ℕ → ℕ
last_digit i = 15

random_uuid-Follows_example : Follows uuid_form (random_uuid none last_digit)
random_uuid-Follows_example = random_uuid-Follows last_digit (λ i. omega arith)

abbrev own_view : TenantView
own_view = record { tenant_key = "t1"; cross_view = false; is_platform = false }

abbrev others : List TelemetryConfig
others = record { app_key = some "tel_other"; tenant_key = some "t2" } ∷ []

abbrev tokens_page : TokensPage
tokens_page = record { app_key = none; dialogs = []; reloads = 0 }

others_keyed : (c : TelemetryConfig) → Listed c others → truthy c.app_key ≡ true
others_keyed c (inl same) = subst (λ (x : TelemetryConfig). truthy x.app_key ≡ true) same refl
others_keyed c (inr h) = elim h [ ]

offered-creates_iff_example :
    (offered (config_found own_view others tokens_page) ≡ creates)
    ↔ ((c : TelemetryConfig) → IsOwnRow own_view others c → ⊥)
offered-creates_iff_example = offered-creates_iff own_view others tokens_page others_keyed

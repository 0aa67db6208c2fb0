-- ===== src/Tests/Pages.antt =====
-- The switcher and the registration at concrete users, registries and forms.
use testkit_service.Prelude.{
  Listed, inl, inr, String, true, false, Option, some, List, [], ◌∷◌, ◌≡◌, ◌≢◌, ◌⊎◌, refl, ◌==◌,
  if◌then◌else◌,
}
use testkit_service.Browser.{Browser, ok, toasted, warning}
use testkit_service.Access.{access}
use testkit_service.Access.Laws.{granted}
use testkit_service.Choice.Laws.{seen_choice}
use testkit_service.Identity.{platform, tenant_admin}
use testkit_service.Request.{Server, replied}
use testkit_service.Routes.Guards.{IsServed}
use testkit_service.Switcher.{TenantInfo, SwitcherState, cross_view, load_tenants, pick}
use testkit_service.Switcher.Laws.{IsRegistered, load_tenants-IsRegistered, pick-IsServed}
use testkit_service.Register.{RegisterPage, initial_values, send_code}
use testkit_service.Register.Laws.{IsComplete, IsWarning, Finishes, send_code-cases}
use testkit_service.Labels.Message.{email_scene_options, email_scene_value_enum}
use testkit_service.Labels.Laws.{Select, selects}
use testkit_service.Tests.Data.{
  json, staff, empty_at, with_session, with_session-HasSession, with_session-IsUsable,
}

abbrev drilled : Browser
drilled = with_session staff "t9" "/dashboard"

abbrev tenants : List TenantInfo
tenants = record { tenant_key = some "t1"; name = some "One" } ∷ []

abbrev registry : Server (Option (List TenantInfo))
registry log req = replied (some tenants)

abbrev mounted : SwitcherState
mounted = record { tenants = []; choice_rev = 0 }

load_tenants-IsRegistered_example :
    (s' : SwitcherState) × (r : Browser) × (load_tenants registry
        (some platform)
        true
        mounted
        drilled
      ≡ (ok s', r))
    × (s'.tenants ≡ tenants)
    × ((seen_choice r ≡ "") ⊎ IsRegistered tenants (seen_choice r))
load_tenants-IsRegistered_example =
    load_tenants-IsRegistered registry (some tenants) mounted drilled
      (with_session-IsUsable staff "t9" "/dashboard") refl

pick-IsServed_example :
    (r : Browser) × (pick "t1" drilled ≡ (ok tt, r))
    × (seen_choice r ≡ (if "t1" == cross_view then "" else "t1"))
    × (access json r ≡ (ok (granted true (some staff) (seen_choice r)), r))
    × IsServed r.pathname (granted true (some staff) (seen_choice r))
pick-IsServed_example =
    pick-IsServed json staff "t1" drilled (with_session-IsUsable staff "t9" "/dashboard")
      (with_session-HasSession staff "t9" "/dashboard") refl

abbrev form_page : RegisterPage
form_page = record {
  form = record initial_values { email = some "a@b.example" };
  countdown = 0;
  sending = false;
}

abbrev mailer : Server (Option String)
mailer log req = replied (some "captcha-1")

abbrev visitor : Browser
visitor = empty_at "/user/register"

send_code-cases_example :
    ((IsComplete form_page.form → ⊥)
      × ((text : String) × IsWarning form_page.form text
          × (send_code mailer form_page visitor
              ≡ (ok form_page, record visitor { log = toasted warning text ∷ visitor.log }))))
    ⊎ (IsComplete form_page.form × Finishes mailer form_page visitor)
send_code-cases_example = send_code-cases mailer form_page visitor refl

platform_ne : staff.user_type ≢ some tenant_admin
platform_ne e = cc

abbrev email_scenes : Select
email_scenes = record {
  options = email_scene_options;
  labels = email_scene_value_enum;
  unset = "EMAIL_SCENE_UNSPECIFIED";
}

email_scene_select : Listed email_scenes selects
email_scene_select = inr (inr (inl refl))

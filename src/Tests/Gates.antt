-- ===== src/Tests/Gates.antt =====
-- Routes, gates and the reload guard at concrete addresses, users and errors.
use testkit_service.Prelude.{
  ℕ, [], ◌∷◌, ◌+◌, ◌≤◌, ◌<◌, All, true, some, List, ◌≡◌, refl, inl, inr, arith, Listed, has_prefix,
}
use testkit_service.Browser.{Browser, ok}
use testkit_service.Access.{Access}
use testkit_service.Bootstrap.GateLaws.{IsDrilled, is_misplaced}
use testkit_service.Routes.Tree.{Page, blank}
use testkit_service.Routes.Guards.{pages, IsServed, redirect-IsServed}
use testkit_service.ChunkGuard.{ErrorSource, tagged, is_stale_resource, on_error}
use testkit_service.ChunkGuard.Laws.{
  reloads, replay, marked_at, replay-reloads_le_one, on_error_heals,
}
use testkit_service.Tests.Data.{
  json, staff, empty_at, with_session, with_session-HasSession, tally, tally-IsExact,
}

abbrev visitor : Browser
visitor = empty_at "/link/abc"

link_prefix : has_prefix "/link/abc" "/link/" ≡ true
unfolding has_prefix
link_prefix = refl

abbrev operator : Browser
operator = with_session staff "t1" "/tenant/list"

operator-IsDrilled : IsDrilled json operator staff
operator-IsDrilled = record {
  session = with_session-HasSession staff "t1" "/tenant/list";
  type = refl;
  chosen = λ e. cc;
}

operator_misplaced : is_misplaced "/tenant/list" ≡ true
unfolding has_prefix
operator_misplaced = refl

-- "/tenant" and "/dashboard" as pages of the table.
abbrev tenant_page : Page
tenant_page = record {
  entry = record blank { path = some "/tenant"; redirect = some "/tenant/list" };
  guards = "canPlatform" ∷ [];
}

abbrev dashboard_page : Page
dashboard_page = record {
  entry = record blank {
    path = some "/dashboard";
    name = some "仪表盘";
    icon = some "DashboardOutlined";
    access = some "canPlatform";
    component = some "./Dashboard";
  };
  guards = "canPlatform" ∷ [];
}

tenant_page-Listed : Listed tenant_page pages
unfolding pages
tenant_page-Listed = inr (inr (inr (inr (inl refl))))

dashboard_page-Listed : Listed dashboard_page pages
unfolding pages
dashboard_page-Listed = inr (inr (inr (inl refl)))

abbrev everything : Access
everything = record { can_user = true; can_platform = true; can_tenant_admin = true }

redirect-IsServed_example : IsServed "/tenant/list" everything
redirect-IsServed_example =
    redirect-IsServed tenant_page "/tenant/list" everything tenant_page-Listed refl refl

abbrev burst : List (ℕ × ErrorSource)
burst = (100, tagged "SCRIPT") ∷ (105, tagged "LINK") ∷ []

burst_times : All (λ e. (100 ≤ e.0) × (e.0 < 100 + 30000)) burst
burst_times = ((omega arith, omega arith), ((omega arith, omega arith), tt))

replay-reloads_le_one_example : reloads (replay tally burst visitor).log ≤ 1 + reloads visitor.log
replay-reloads_le_one_example =
    replay-reloads_le_one tally tally-IsExact 100 burst visitor burst_times

stale_script : is_stale_resource (tagged "SCRIPT") ≡ true
unfolding is_stale_resource
stale_script = refl

on_error_heals_example :
    on_error tally 40000 (tagged "SCRIPT") visitor ≡ (ok tt, marked_at tally 40000 visitor)
on_error_heals_example =
    on_error_heals tally 40000 (tagged "SCRIPT") visitor
      (record { unblocked = refl; writable = refl }) stale_script (inl (refl, omega arith))

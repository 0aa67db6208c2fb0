-- ===== src/Routes/Table.antt =====
-- web/config/config.ts: the list `routes`, in its order.
pub mod Entry
pub mod Tenant
pub mod Account
pub mod Storage
pub mod Message
pub mod Services
use testkit_service.Prelude.{List, [], ◌∷◌}
use testkit_service.Routes.Tree.{Route}
use testkit_service.Routes.Table.Entry.{
  auth_pages, link_page, dashboard, home, not_found, system, gid_debug,
}
use testkit_service.Routes.Table.Tenant.{tenant_group, credentials}
use testkit_service.Routes.Table.Account.{user_group}
use testkit_service.Routes.Table.Storage.{storage_group}
use testkit_service.Routes.Table.Message.{message_group}
use testkit_service.Routes.Table.Services.{license_group, telemetry_group, reference_group}

unfoldable pub routes : List Route
routes =
    auth_pages ∷ link_page ∷ dashboard ∷ tenant_group ∷ credentials ∷ user_group ∷ storage_group
    ∷ message_group ∷ gid_debug ∷ license_group ∷ telemetry_group ∷ reference_group ∷ system ∷ home
    ∷ not_found ∷ []

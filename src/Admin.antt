-- ===== src/Admin.antt =====
-- The pages of the message administration (web/src/pages/Message): the rows of their tables, which
-- Templates.tsx, Policies.tsx and Accounts.tsx load in the same way.
pub mod Laws
pub mod Templates
pub mod Policies
pub mod Accounts
pub mod Signatures
use testkit_service.Prelude.{ℕ, ◌+◌, String, Bool, Option, some, List, [], get_or, if◌then◌else◌}
use testkit_service.Browser.{M, pure, ◌>>=◌, Request, Failure}
use testkit_service.Request.{Server, call}
use testkit_service.Scope.{
  TenantView, filter_tenant_rows, tenant_filter_options, apply_tenant_filter,
}
use testkit_service.Submit.{data_message}

-- API.v1MessageTenantConfigInfo, the fields that the pages read
pub record TenantConfig : Type 0 where
  pub id : Option String
  pub app_key : Option String
  pub tenant_key : Option String

-- What a page keeps of its table: the filter of the tenants, its options, and how often the table was
-- reloaded.
pub record Table : Type 0 where
  pub tenant_filter : String
  pub filter_options : List (String × String)
  pub reloads : ℕ

abbrev pub reload : Table → Table
reload table = record table { reloads = table.reloads + 1 }

-- `e?.data?.message ?? own`
abbrev pub message_or : String → Failure → Option String
message_or own e = some (get_or (data_message e) own)

module _ {T : Type 0} (get_key : T → Option String) (before : String → String → Bool) where
  -- the rows that `request` returns of the loaded ones, and the table that it leaves
  unfoldable pub shown_rows : TenantView → Table → List T → List T × Table
  shown_rows view table listed =
      let rows = filter_tenant_rows get_key view listed in
      if view.cross_view
      then (
        apply_tenant_filter get_key table.tenant_filter rows,
        record table { filter_options = tenant_filter_options get_key before listed },
      )
      else (rows, table)

  -- request
  unfoldable pub request_rows :
      Server (Option (List T)) → Request → TenantView → Table → M (List T × Table)
  unfolding shown_rows
  request_rows server req view table = do
    resp ← call server req
    pure (shown_rows view table (get_or resp []))

-- ===== src/Routes/Table/Tenant.antt =====
-- web/config/config.ts: routes of the console, tenant.
use testkit_service.Prelude.{some}
use testkit_service.Routes.Tree.{Route, leaf, group, add, end, blank}

abbrev pub tenant_group : Route
tenant_group =
    group
      (record blank {
        key = some "svc-tenant";
        name = some "租户管理";
        icon = some "ClusterOutlined";
        access = some "canPlatform";
      })
      (add (leaf (record blank { path = some "/tenant"; redirect = some "/tenant/list" })) (
        add
          (leaf (record blank {
            path = some "/tenant/list";
            name = some "租户列表";
            access = some "canPlatform";
            component = some "./Tenant/List";
          }))
          (end)))

abbrev pub credentials : Route
credentials = leaf (record blank {
  path = some "/tenant/credentials";
  name = some "密钥管理";
  icon = some "KeyOutlined";
  access = some "canTenantAdmin";
  component = some "./Tenant/Credentials";
})

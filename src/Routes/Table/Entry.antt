-- ===== src/Routes/Table/Entry.antt =====
-- web/config/config.ts: routes of the console, entry.
use testkit_service.Prelude.{some, false}
use testkit_service.Routes.Tree.{Route, leaf, group, add, end, blank}

abbrev pub auth_pages : Route
auth_pages =
    group (record blank { path = some "/user"; layout = false })
      (add (leaf (record blank { path = some "/user/login"; component = some "./User/Login" })) (
        add
          (leaf (record blank { path = some "/user/register"; component = some "./User/Register" }))
          (end)))

abbrev pub link_page : Route
link_page =
    group (record blank { path = some "/link"; layout = false })
      (add (leaf (record blank { path = some "/link/:token"; component = some "./Link/Download" }))
        (end))

abbrev pub dashboard : Route
dashboard = leaf (record blank {
  path = some "/dashboard";
  name = some "仪表盘";
  icon = some "DashboardOutlined";
  access = some "canPlatform";
  component = some "./Dashboard";
})

abbrev pub gid_debug : Route
gid_debug = leaf (record blank {
  path = some "/gid";
  name = some "GID 服务";
  icon = some "NumberOutlined";
  access = some "canPlatform";
  component = some "./Gid/Debug";
})

abbrev pub system : Route
system = leaf (record blank {
  path = some "/system";
  name = some "系统";
  icon = some "SettingOutlined";
  access = some "canPlatform";
  component = some "./Placeholder";
})

abbrev pub home : Route
home = leaf (record blank { path = some "/"; redirect = some "/profile" })

abbrev pub not_found : Route
not_found = leaf (record blank { path = some "*"; component = some "./404"; layout = false })

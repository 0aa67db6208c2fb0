-- ===== src/Routes/Table/Services.antt =====
-- web/config/config.ts: routes of the console, services.
use testkit_service.Prelude.{some}
use testkit_service.Routes.Tree.{Route, leaf, group, add, end, blank}

abbrev pub license_group : Route
license_group =
    group
      (record blank {
        key = some "svc-license";
        name = some "License 服务";
        icon = some "KeyOutlined";
        access = some "canPlatform";
      })
      (add (leaf (record blank { path = some "/license"; redirect = some "/license/keys" })) (
        add
          (leaf (record blank {
            path = some "/license/keys";
            name = some "密钥管理";
            component = some "./License/Keys";
          }))
          (add
            (leaf (record blank {
              path = some "/license/console";
              name = some "客户端测试";
              component = some "./License/Console";
            }))
            (end))))

abbrev pub telemetry_group : Route
telemetry_group =
    group
      (record blank {
        key = some "svc-telemetry";
        name = some "Telemetry 服务";
        icon = some "MonitorOutlined";
        access = some "canTenantAdmin";
      })
      (add (leaf (record blank { path = some "/telemetry"; redirect = some "/telemetry/tokens" })) (
        add
          (leaf (record blank {
            path = some "/telemetry/stats";
            name = some "应用统计";
            access = some "canPlatform";
            component = some "./Telemetry/Stats";
          }))
          (add
            (leaf (record blank {
              path = some "/telemetry/tokens";
              name = some "上报令牌";
              component = some "./Telemetry/Tokens";
            }))
            (end))))

abbrev pub reference_group : Route
reference_group =
    group
      (record blank {
        key = some "svc-reference";
        name = some "Reference 服务";
        icon = some "GlobalOutlined";
        access = some "canPlatform";
      })
      (add
        (leaf (record blank { path = some "/reference"; redirect = some "/reference/directory" }))
        (add
          (leaf (record blank {
            path = some "/reference/directory";
            name = some "数据目录";
            component = some "./Reference/Directory";
          }))
          (add
            (leaf (record blank {
              path = some "/reference/regions";
              name = some "区域浏览";
              component = some "./Reference/Regions";
            }))
            (add
              (leaf (record blank {
                path = some "/reference/examples";
                name = some "常用示例";
                component = some "./Reference/Examples";
              }))
              (add
                (leaf (record blank {
                  path = some "/reference/phone";
                  name = some "手机号解析";
                  component = some "./Reference/Phone";
                }))
                (end))))))

-- ===== src/Routes/Table/Storage.antt =====
-- web/config/config.ts: routes of the console, storage.
use testkit_service.Prelude.{some}
use testkit_service.Routes.Tree.{Route, leaf, group, add, end, blank}

abbrev pub storage_group : Route
storage_group =
    group
      (record blank {
        key = some "svc-storage";
        name = some "存储服务";
        icon = some "CloudServerOutlined";
        access = some "canUser";
      })
      (add (leaf (record blank { path = some "/files"; redirect = some "/files/my" })) (
        add
          (leaf (record blank {
            path = some "/files/my";
            name = some "我的文件";
            access = some "canUser";
            component = some "./Files/MyFiles";
          }))
          (add
            (leaf (record blank {
              path = some "/tenant/files";
              name = some "租户文件";
              access = some "canTenantAdmin";
              component = some "./Tenant/Files";
            }))
            (add
              (group
                (record blank {
                  path = some "/storage";
                  name = some "我的存储";
                  access = some "canUser";
                })
                (add
                  (leaf (record blank { path = some "/storage"; redirect = some "/storage/quota" }))
                  (add
                    (leaf (record blank {
                      path = some "/storage/quota";
                      name = some "我的配额";
                      component = some "./Storage/Quota";
                    }))
                    (add
                      (leaf (record blank {
                        path = some "/storage/audit";
                        name = some "操作审计";
                        component = some "./Storage/Audit";
                      }))
                      (end)))))
              (add
                (group
                  (record blank {
                    path = some "/admin/storage";
                    name = some "存储管理";
                    access = some "canPlatform";
                  })
                  (add
                    (leaf (record blank {
                      path = some "/admin/storage";
                      redirect = some "/admin/storage/files";
                    }))
                    (add
                      (leaf (record blank {
                        path = some "/admin/storage/files";
                        name = some "文件";
                        component = some "./Admin/Storage/Files";
                      }))
                      (add
                        (leaf (record blank {
                          path = some "/admin/storage/quota";
                          name = some "配额";
                          component = some "./Admin/Storage/Quota";
                        }))
                        (add
                          (leaf (record blank {
                            path = some "/admin/storage/stats";
                            name = some "统计";
                            component = some "./Admin/Storage/Stats";
                          }))
                          (add
                            (leaf (record blank {
                              path = some "/admin/storage/providers";
                              name = some "Providers";
                              component = some "./Admin/Storage/Providers";
                            }))
                            (add
                              (leaf (record blank {
                                path = some "/admin/storage/buckets";
                                name = some "Buckets";
                                component = some "./Admin/Storage/Buckets";
                              }))
                              (add
                                (leaf (record blank {
                                  path = some "/admin/storage/settings";
                                  name = some "存储设置";
                                  component = some "./Admin/Storage/Settings";
                                }))
                                (end)))))))))
                (add
                  (leaf (record blank {
                    path = some "/admin/audit-logs";
                    name = some "审计日志";
                    access = some "canPlatform";
                    component = some "./Admin/Audit";
                  }))
                  (end)))))))

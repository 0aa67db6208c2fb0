-- ===== src/Routes/Table/Account.antt =====
-- web/config/config.ts: routes of the console, account.
use testkit_service.Prelude.{some}
use testkit_service.Routes.Tree.{Route, leaf, group, add, end, blank}

abbrev pub user_group : Route
user_group =
    group
      (record blank {
        key = some "svc-user";
        name = some "用户服务";
        icon = some "TeamOutlined";
        access = some "canUser";
      })
      (add
        (leaf (record blank {
          path = some "/profile";
          name = some "个人资料";
          access = some "canUser";
          component = some "./Profile";
        }))
        (add
          (leaf (record blank {
            path = some "/identity";
            name = some "登录方式";
            access = some "canUser";
            component = some "./Identity";
          }))
          (add
            (leaf (record blank {
              path = some "/sessions";
              name = some "会话管理";
              access = some "canUser";
              component = some "./Session";
            }))
            (add
              (group
                (record blank {
                  path = some "/users";
                  name = some "用户运营";
                  access = some "canPlatform";
                })
                (add (leaf (record blank { path = some "/users"; redirect = some "/users/list" })) (
                  add
                    (leaf (record blank {
                      path = some "/users/list";
                      name = some "用户列表";
                      component = some "./User/List";
                    }))
                    (add
                      (leaf (record blank {
                        path = some "/users/login-logs";
                        name = some "认证记录";
                        component = some "./User/LoginLogs";
                      }))
                      (end)))))
              (add
                (group
                  (record blank {
                    path = some "/rbac";
                    name = some "权限管理";
                    access = some "canPlatform";
                  })
                  (add (leaf (record blank { path = some "/rbac"; redirect = some "/rbac/roles" }))
                    (add
                      (leaf (record blank {
                        path = some "/rbac/roles";
                        name = some "角色";
                        component = some "./Rbac/Roles";
                      }))
                      (add
                        (leaf (record blank {
                          path = some "/rbac/groups";
                          name = some "用户组";
                          component = some "./Rbac/Groups";
                        }))
                        (add
                          (leaf (record blank {
                            path = some "/rbac/permissions";
                            name = some "权限";
                            component = some "./Rbac/Permissions";
                          }))
                          (add
                            (leaf (record blank {
                              path = some "/rbac/permission-groups";
                              name = some "权限组";
                              component = some "./Rbac/PermissionGroups";
                            }))
                            (add
                              (leaf (record blank {
                                path = some "/rbac/user-roles";
                                name = some "用户角色";
                                component = some "./Rbac/UserRoles";
                              }))
                              (end))))))))
                (end))))))

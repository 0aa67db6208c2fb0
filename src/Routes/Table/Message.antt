-- ===== src/Routes/Table/Message.antt =====
-- web/config/config.ts: routes of the console, message.
use testkit_service.Prelude.{some}
use testkit_service.Routes.Tree.{Route, leaf, group, add, end, blank}

abbrev pub message_group : Route
message_group =
    group
      (record blank {
        path = some "/message";
        name = some "消息服务";
        icon = some "MessageOutlined";
        access = some "canTenantAdmin";
      })
      (add
        (leaf (record blank { path = some "/message"; redirect = some "/message/admin/accounts" }))
        (add
          (leaf (record blank {
            path = some "/message/send/email";
            name = some "发送邮件";
            access = some "canPlatform";
            component = some "./Message/SendEmail";
          }))
          (add
            (leaf (record blank {
              path = some "/message/send/sms";
              name = some "发送短信";
              access = some "canPlatform";
              component = some "./Message/SendSMS";
            }))
            (add
              (group (record blank { path = some "/message/admin"; name = some "消息配置" })
                (add
                  (leaf (record blank {
                    path = some "/message/admin";
                    redirect = some "/message/admin/accounts";
                  }))
                  (add
                    (leaf (record blank {
                      path = some "/message/admin/accounts";
                      name = some "通道账号";
                      component = some "./Message/Accounts";
                    }))
                    (add
                      (leaf (record blank {
                        path = some "/message/admin/signatures";
                        name = some "签名管理";
                        component = some "./Message/Signatures";
                      }))
                      (add
                        (leaf (record blank {
                          path = some "/message/admin/templates";
                          name = some "模板管理";
                          component = some "./Message/Templates";
                        }))
                        (add
                          (leaf (record blank {
                            path = some "/message/admin/policies";
                            name = some "策略管理";
                            component = some "./Message/Policies";
                          }))
                          (end)))))))
              (add
                (leaf (record blank {
                  path = some "/message/emails";
                  name = some "邮件记录";
                  access = some "canPlatform";
                  component = some "./Message/Emails";
                }))
                (add
                  (leaf (record blank {
                    path = some "/message/sms";
                    name = some "短信记录";
                    access = some "canPlatform";
                    component = some "./Message/SMS";
                  }))
                  (end)))))))

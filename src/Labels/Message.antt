-- ===== src/Labels/Message.antt =====
-- web/src/components/messagetags.tsx: the labels of the message domain, and the options of its forms.
use testkit_service.Prelude.{
  String, Option, none, some, List, [], ◌∷◌, ◌==◌, ◌&&◌, not, nonempty, get_or, lookup,
  if◌then◌else◌,
}

-- MESSAGE_STATUS_VALUE_ENUM
abbrev pub message_status_value_enum : List (String × String)
message_status_value_enum =
    ("MESSAGE_STATUS_UNSPECIFIED", "全部")
    ∷ ("MESSAGE_STATUS_PENDING", "待发送")
    ∷ ("MESSAGE_STATUS_SENT", "已发送")
    ∷ ("MESSAGE_STATUS_FAILED", "失败")
    ∷ []

-- EMAIL_VENDOR_VALUE_ENUM
abbrev pub email_vendor_value_enum : List (String × String)
email_vendor_value_enum =
    ("EMAIL_VENDOR_UNSPECIFIED", "全部")
    ∷ ("EMAIL_VENDOR_ALIYUN", "阿里云")
    ∷ ("EMAIL_VENDOR_TENCENT", "腾讯云")
    ∷ ("EMAIL_VENDOR_NETEASE", "网易")
    ∷ []

-- SMS_VENDOR_VALUE_ENUM
abbrev pub sms_vendor_value_enum : List (String × String)
sms_vendor_value_enum =
    ("SMS_VENDOR_UNSPECIFIED", "全部")
    ∷ ("SMS_VENDOR_ALIYUN", "阿里云")
    ∷ ("SMS_VENDOR_TENCENT", "腾讯云")
    ∷ ("SMS_VENDOR_VOLCENGINE", "火山引擎")
    ∷ ("SMS_VENDOR_BYTEPLUS", "Byteplus")
    ∷ ("SMS_VENDOR_HUAWEI", "华为云")
    ∷ []

-- EMAIL_SCENE_VALUE_ENUM
abbrev pub email_scene_value_enum : List (String × String)
email_scene_value_enum =
    ("EMAIL_SCENE_UNSPECIFIED", "全部")
    ∷ ("EMAIL_SCENE_LOGIN_CODE", "登录验证码")
    ∷ ("EMAIL_SCENE_FORGOT_PASSWORD", "找回密码")
    ∷ ("EMAIL_SCENE_REGISTER", "注册")
    ∷ ("EMAIL_SCENE_CHANGE_PASSWORD", "修改密码")
    ∷ ("EMAIL_SCENE_BIND_ACCOUNT", "绑定账号")
    ∷ ("EMAIL_SCENE_NOTIFICATION", "通知")
    ∷ ("EMAIL_SCENE_VERIFY_EMAIL", "验证邮箱")
    ∷ ("EMAIL_SCENE_TEST", "控制台测试")
    ∷ []

-- SMS_SCENE_VALUE_ENUM
abbrev pub sms_scene_value_enum : List (String × String)
sms_scene_value_enum =
    ("SMS_SCENE_UNSPECIFIED", "全部")
    ∷ ("SMS_SCENE_LOGIN_CODE", "登录验证码")
    ∷ ("SMS_SCENE_FORGOT_PASSWORD", "找回密码")
    ∷ ("SMS_SCENE_REGISTER", "注册")
    ∷ ("SMS_SCENE_CHANGE_PASSWORD", "修改密码")
    ∷ ("SMS_SCENE_BIND_ACCOUNT", "绑定账号")
    ∷ ("SMS_SCENE_VERIFY_PHONE", "验证手机")
    ∷ ("SMS_SCENE_TEST", "控制台测试")
    ∷ []

-- EMAIL_VENDOR_OPTIONS: values and labels
abbrev pub email_vendor_options : List (String × String)
email_vendor_options =
    ("EMAIL_VENDOR_UNSPECIFIED", "默认（自动）")
    ∷ ("EMAIL_VENDOR_ALIYUN", "阿里云")
    ∷ ("EMAIL_VENDOR_TENCENT", "腾讯云")
    ∷ ("EMAIL_VENDOR_NETEASE", "网易")
    ∷ []

-- SMS_VENDOR_OPTIONS: values and labels
abbrev pub sms_vendor_options : List (String × String)
sms_vendor_options =
    ("SMS_VENDOR_UNSPECIFIED", "默认（按区号路由）")
    ∷ ("SMS_VENDOR_ALIYUN", "阿里云")
    ∷ ("SMS_VENDOR_TENCENT", "腾讯云")
    ∷ ("SMS_VENDOR_VOLCENGINE", "火山引擎")
    ∷ ("SMS_VENDOR_BYTEPLUS", "Byteplus")
    ∷ ("SMS_VENDOR_HUAWEI", "华为云")
    ∷ []

-- EMAIL_SCENE_OPTIONS: values and labels
abbrev pub email_scene_options : List (String × String)
email_scene_options =
    ("EMAIL_SCENE_LOGIN_CODE", "登录验证码")
    ∷ ("EMAIL_SCENE_FORGOT_PASSWORD", "找回密码")
    ∷ ("EMAIL_SCENE_REGISTER", "注册")
    ∷ ("EMAIL_SCENE_CHANGE_PASSWORD", "修改密码")
    ∷ ("EMAIL_SCENE_BIND_ACCOUNT", "绑定账号")
    ∷ ("EMAIL_SCENE_NOTIFICATION", "通知")
    ∷ ("EMAIL_SCENE_VERIFY_EMAIL", "验证邮箱")
    ∷ ("EMAIL_SCENE_TEST", "控制台测试")
    ∷ []

-- SMS_SCENE_OPTIONS: values and labels
abbrev pub sms_scene_options : List (String × String)
sms_scene_options =
    ("SMS_SCENE_LOGIN_CODE", "登录验证码")
    ∷ ("SMS_SCENE_FORGOT_PASSWORD", "找回密码")
    ∷ ("SMS_SCENE_REGISTER", "注册")
    ∷ ("SMS_SCENE_CHANGE_PASSWORD", "修改密码")
    ∷ ("SMS_SCENE_BIND_ACCOUNT", "绑定账号")
    ∷ ("SMS_SCENE_VERIFY_PHONE", "验证手机")
    ∷ ("SMS_SCENE_TEST", "控制台测试")
    ∷ []

-- STATUS_COLOR
abbrev pub status_color : List (String × String)
status_color =
    ("MESSAGE_STATUS_PENDING", "orange")
    ∷ ("MESSAGE_STATUS_SENT", "green")
    ∷ ("MESSAGE_STATUS_FAILED", "red")
    ∷ []

-- MessageStatusTag: the colour and the text of the tag, none for a plain dash; a status is looked up
-- among an object's own keys
unfoldable pub message_status_tag : Option String → Option (String × String)
message_status_tag none = none
message_status_tag (some status) =
    if nonempty status && not (status == "MESSAGE_STATUS_UNSPECIFIED")
    then some (
      get_or (lookup status status_color) "default",
      get_or (lookup status message_status_value_enum) status,
    )
    else none

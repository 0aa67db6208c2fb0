-- ===== src/Labels/User.antt =====
-- web/src/components/usertags.tsx: the labels of the user domain, and the tags of a user.
use testkit_service.Prelude.{
  String, Option, none, some, List, [], ◌∷◌, is_text, nonempty, get_or, lookup, if◌then◌else◌,
}
use testkit_service.Identity.{platform, tenant_admin}

-- GENDER_VALUE_ENUM
abbrev pub gender_value_enum : List (String × String)
gender_value_enum =
    ("GENDER_UNSPECIFIED", "未设置")
    ∷ ("GENDER_MALE", "男")
    ∷ ("GENDER_FEMALE", "女")
    ∷ ("GENDER_OTHER", "其他")
    ∷ ("GENDER_UNKNOWN", "保密")
    ∷ []

-- USER_STATUS_VALUE_ENUM
abbrev pub user_status_value_enum : List (String × String)
user_status_value_enum =
    ("USER_STATUS_UNSPECIFIED", "全部")
    ∷ ("USER_STATUS_ACTIVE", "正常")
    ∷ ("USER_STATUS_DISABLED", "禁用")
    ∷ ("USER_STATUS_PENDING_REVIEW", "待激活")
    ∷ []

-- USER_TYPE_VALUE_ENUM
abbrev pub user_type_value_enum : List (String × String)
user_type_value_enum =
    ("USER_TYPE_UNSPECIFIED", "全部")
    ∷ ("USER_TYPE_END_USER", "终端用户")
    ∷ ("USER_TYPE_PLATFORM", "平台用户")
    ∷ ("USER_TYPE_TENANT_ADMIN", "租户管理员")
    ∷ []

-- PROVIDER_VALUE_ENUM
abbrev pub provider_value_enum : List (String × String)
provider_value_enum =
    ("IDENTITY_PROVIDER_UNSPECIFIED", "未设置")
    ∷ ("IDENTITY_PROVIDER_EMAIL", "邮箱")
    ∷ ("IDENTITY_PROVIDER_PHONE", "手机")
    ∷ ("IDENTITY_PROVIDER_GITHUB", "GitHub")
    ∷ ("IDENTITY_PROVIDER_GOOGLE", "Google")
    ∷ ("IDENTITY_PROVIDER_WECHAT", "微信")
    ∷ ("IDENTITY_PROVIDER_APPLE", "Apple")
    ∷ ("IDENTITY_PROVIDER_WECHAT_MINIPROGRAM", "微信小程序")
    ∷ ("IDENTITY_PROVIDER_ADMIN", "管理员创建")
    ∷ []

-- DEVICE_TYPE_VALUE_ENUM
abbrev pub device_type_value_enum : List (String × String)
device_type_value_enum =
    ("DEVICE_TYPE_UNSPECIFIED", "未知")
    ∷ ("DEVICE_TYPE_WEB", "Web")
    ∷ ("DEVICE_TYPE_IOS", "iOS")
    ∷ ("DEVICE_TYPE_ANDROID", "Android")
    ∷ ("DEVICE_TYPE_API", "API")
    ∷ []

-- LOGIN_ACTION_VALUE_ENUM
abbrev pub login_action_value_enum : List (String × String)
login_action_value_enum =
    ("LOGIN_ACTION_UNSPECIFIED", "未知")
    ∷ ("LOGIN_ACTION_LOGIN", "登录")
    ∷ ("LOGIN_ACTION_REGISTER", "注册")
    ∷ ("LOGIN_ACTION_SOCIAL_LOGIN", "社交登录")
    ∷ ("LOGIN_ACTION_SOCIAL_REGISTER", "社交注册")
    ∷ ("LOGIN_ACTION_BIND", "绑定")
    ∷ ("LOGIN_ACTION_UNBIND", "解绑")
    ∷ []

-- SESSION_STATUS_VALUE_ENUM
abbrev pub session_status_value_enum : List (String × String)
session_status_value_enum =
    ("SESSION_STATUS_UNSPECIFIED", "未知")
    ∷ ("SESSION_STATUS_ACTIVE", "活跃")
    ∷ ("SESSION_STATUS_REVOKED", "已登出")
    ∷ ("SESSION_STATUS_EXPIRED", "已失效")
    ∷ []

-- LOGIN_METHOD_VALUE_ENUM
abbrev pub login_method_value_enum : List (String × String)
login_method_value_enum =
    ("LOGIN_METHOD_UNSPECIFIED", "-")
    ∷ ("LOGIN_METHOD_EMAIL_PASSWORD", "邮箱密码")
    ∷ ("LOGIN_METHOD_PHONE_PASSWORD", "手机密码")
    ∷ ("LOGIN_METHOD_PHONE_CODE", "手机验证码")
    ∷ ("LOGIN_METHOD_EMAIL_CODE", "邮箱验证码")
    ∷ ("LOGIN_METHOD_USERNAME_PASSWORD", "账号密码")
    ∷ []

-- UserTypeTag and UserStatusTag: the colour and the text of the tag, none for a plain dash
unfoldable pub user_type_tag : Option String → String × String
user_type_tag user_type =
    if is_text user_type platform
    then ("gold", "平台用户")
    else (if is_text user_type tenant_admin then ("purple", "租户管理员") else ("blue", "终端用户"))

unfoldable pub user_status_tag : Option String → Option (String × String)
user_status_tag status =
    if is_text status "USER_STATUS_ACTIVE"
    then some ("green", "正常")
    else (if is_text status "USER_STATUS_DISABLED"
        then some ("red", "禁用")
        else (if is_text status "USER_STATUS_PENDING_REVIEW" then some ("orange", "待激活") else none))

-- loginMethodLabel
unfoldable pub login_method_label : Option String → String
login_method_label none = "-"
login_method_label (some v) =
    if nonempty v
    then get_or (lookup v login_method_value_enum) (get_or (lookup v provider_value_enum) v)
    else "-"

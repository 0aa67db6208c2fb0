-- ===== src/Labels/Storage.antt =====
-- web/src/components/storagetags.tsx: the labels of the storage domain.
use testkit_service.Prelude.{
  String, Option, none, some, List, [], ◌∷◌, is_text, nonempty, get_or, lookup, if◌then◌else◌,
}

-- OWNER_TYPE_VALUE_ENUM
abbrev pub owner_type_value_enum : List (String × String)
owner_type_value_enum =
    ("OWNER_TYPE_UNSPECIFIED", "全部")
    ∷ ("OWNER_TYPE_USER", "用户")
    ∷ ("OWNER_TYPE_SYSTEM", "系统")
    ∷ ("OWNER_TYPE_GROUP", "用户组")
    ∷ ("OWNER_TYPE_BUSINESS", "业务")
    ∷ ("OWNER_TYPE_SERVICE", "服务")
    ∷ []

-- VENDOR_VALUE_ENUM
abbrev pub vendor_value_enum : List (String × String)
vendor_value_enum =
    ("VENDOR_UNSPECIFIED", "全部")
    ∷ ("VENDOR_ALIYUN_OSS", "阿里云 OSS")
    ∷ ("VENDOR_AWS_S3", "AWS S3")
    ∷ ("VENDOR_S3_COMPATIBLE", "S3 兼容")
    ∷ ("VENDOR_TENCENT_COS", "腾讯云 COS")
    ∷ ("VENDOR_HUAWEI_OBS", "华为云 OBS")
    ∷ ("VENDOR_VOLCENGINE_TOS", "火山引擎 TOS")
    ∷ []

-- BUCKET_ACL_VALUE_ENUM
abbrev pub bucket_acl_value_enum : List (String × String)
bucket_acl_value_enum =
    ("BUCKET_ACL_UNSPECIFIED", "未设置")
    ∷ ("BUCKET_ACL_PRIVATE", "私有")
    ∷ ("BUCKET_ACL_PUBLIC_READ", "公共读")
    ∷ ("BUCKET_ACL_PUBLIC_READ_WRITE", "公共读写")
    ∷ []

-- AUDIT_STATUS_VALUE_ENUM
abbrev pub audit_status_value_enum : List (String × String)
audit_status_value_enum =
    ("AUDIT_LOG_STATUS_UNSPECIFIED", "全部")
    ∷ ("AUDIT_LOG_STATUS_SUCCESS", "成功")
    ∷ ("AUDIT_LOG_STATUS_FAILED", "失败")
    ∷ []

-- AUDIT_TARGET_TYPE_VALUE_ENUM
abbrev pub audit_target_type_value_enum : List (String × String)
audit_target_type_value_enum =
    ("AUDIT_LOG_TARGET_TYPE_UNSPECIFIED", "全部")
    ∷ ("AUDIT_LOG_TARGET_TYPE_FILE", "文件")
    ∷ ("AUDIT_LOG_TARGET_TYPE_QUOTA", "配额")
    ∷ ("AUDIT_LOG_TARGET_TYPE_OWNER", "Owner")
    ∷ []

-- AUDIT_ACTION_VALUE_ENUM
abbrev pub audit_action_value_enum : List (String × String)
audit_action_value_enum =
    ("AUDIT_ACTION_UNSPECIFIED", "全部")
    ∷ ("AUDIT_ACTION_UPLOAD", "上传")
    ∷ ("AUDIT_ACTION_UPDATE", "更新")
    ∷ ("AUDIT_ACTION_DELETE", "删除")
    ∷ ("AUDIT_ACTION_BATCH_DELETE", "批量删除")
    ∷ ("AUDIT_ACTION_ADMIN_DELETE", "管理员删除")
    ∷ ("AUDIT_ACTION_ADMIN_SET_QUOTA", "管理员设配额")
    ∷ ("AUDIT_ACTION_ADMIN_SOFT_DELETE_OWNER", "管理员软删 Owner 文件")
    ∷ ("AUDIT_ACTION_ADMIN_DELETE_OWNER", "管理员删除 Owner")
    ∷ ("AUDIT_ACTION_SET_OWNER_QUOTA", "设置 Owner 配额")
    ∷ ("AUDIT_ACTION_ADD_OWNER_QUOTA", "调整 Owner 配额")
    ∷ ("AUDIT_ACTION_UPLOAD_SESSION_CREATE", "上传会话创建")
    ∷ ("AUDIT_ACTION_UPLOAD_SESSION_CONFIRM", "上传会话确认")
    ∷ ("AUDIT_ACTION_UPLOAD_SESSION_CANCEL", "上传会话取消")
    ∷ ("AUDIT_ACTION_UPLOAD_SESSION_GC", "上传会话回收")
    ∷ []

-- SORT_FIELD_VALUE_ENUM
abbrev pub sort_field_value_enum : List (String × String)
sort_field_value_enum =
    ("SORT_FIELD_UNSPECIFIED", "默认")
    ∷ ("SORT_FIELD_CREATED_AT", "创建时间")
    ∷ ("SORT_FIELD_FILENAME", "文件名")
    ∷ ("SORT_FIELD_SIZE", "大小")
    ∷ []

-- AuditStatusTag: the colour and the text of the tag, none for a plain dash
unfoldable pub audit_status_tag : Option String → Option (String × String)
audit_status_tag status =
    if is_text status "AUDIT_LOG_STATUS_SUCCESS"
    then some ("green", "成功")
    else (if is_text status "AUDIT_LOG_STATUS_FAILED" then some ("red", "失败") else none)

-- auditActionLabel
unfoldable pub audit_action_label : Option String → String
audit_action_label none = "-"
audit_action_label (some action) =
    if nonempty action then get_or (lookup action audit_action_value_enum) action else "-"

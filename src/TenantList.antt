-- ===== src/TenantList.antt =====
-- The tenant list (web/src/pages/Tenant/List.tsx): its rows, its capability sets and its filters.
pub mod Page
pub mod Events
pub mod Deletion
pub mod Capabilities
pub mod Load
pub mod Copies
pub mod Drawers
use Prim.Native.String as Text
use testkit_service.Prelude.{
  String, Bool, true, false, Option, none, some, List, [], ◌∷◌, ◌++◌, map, ◌==◌, not, ◌&&◌, ◌||◌,
  if◌then◌else◌, keep, includes, lookup, get_or, nonempty, has_prefix,
}

-- API.TenantMember
pub record Member : Type 0 where
  pub user_id : Option String
  pub name : Option String
  pub created_at : Option String

-- Row: a tenant of the registry, and its administrators once they are known. A missing `disabled` is false.
pub record Row : Type 0 where
  pub tenant_key : Option String
  pub name : Option String
  pub enabled_capabilities : Option (List String)
  pub disabled : Bool
  pub created_at : Option String
  pub admins : Option (List Member)

-- CAPABILITY_SERVICES and CAP_LABEL
pub record CapabilityService : Type 0 where
  pub key : String
  pub label : String
  pub hint : String

abbrev pub capability_services : List CapabilityService
capability_services =
    record { key = "USER"; label = "用户服务"; hint = "用户目录 / 认证 / RBAC" }
    ∷ record { key = "MESSAGE"; label = "消息服务"; hint = "邮件 / 短信发送与记录" }
    ∷ record { key = "STORAGE"; label = "存储服务"; hint = "文件上传 / 下载 / 配额" }
    ∷ record { key = "TELEMETRY"; label = "Telemetry 服务"; hint = "事件上报与统计" }
    ∷ record { key = "LICENSE"; label = "License 服务"; hint = "授权密钥与激活" }
    ∷ []

unfoldable pub cap_label : String → Option String
cap_label service =
    lookup service (map (λ (c : CapabilityService). (c.key, c.label)) capability_services)

-- `[...new Set(xs)]`, `add` and `delete` of a Set in the order of insertion
unfoldable pub distinct : List String → List String
distinct [] = []
distinct (x ∷ xs) = x ∷ keep (λ y. not (x == y)) (distinct xs)

unfoldable pub set_add : String → List String → List String
set_add x xs = if includes xs x then xs else xs ++ x ∷ []

unfoldable pub set_delete : String → List String → List String
set_delete x xs = keep (λ y. not (x == y)) xs

-- the capabilities after a switch
unfoldable pub switched : String → Bool → Option (List String) → List String
switched service enabled caps =
    let set = distinct (get_or caps []) in
    if enabled then set_add service set else set_delete service set

-- `a === b` on optional texts
abbrev pub same_key : Option String → Option String → Bool
same_key none none = true
same_key (some a) (some b) = a == b
same_key a b = false

-- `s.includes(t)`
unfoldable pub has_part : String → String → Bool
has_part Text.[] t = t == ""
has_part (Text.◌∷◌ c s) t = has_prefix (Text.◌∷◌ c s) t || has_part s t

-- filtered
unfoldable pub is_shown : (filter_name filter_key : String) → Row → Bool
is_shown filter_name filter_key r =
    (not (nonempty filter_name) || has_part (get_or r.name "") filter_name)
    && (not (nonempty filter_key) || has_part (get_or r.tenant_key "") filter_key)

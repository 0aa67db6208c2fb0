-- ===== src/TenantList/Page.antt =====
-- The state of the tenant list, and its handlers up to their requests and from the answers.
use Prim.Native.String as Text
use testkit_service.Prelude.{
  String, Bool, true, false, Option, none, some, List, [], ◌∷◌, ◌++◌, map, if◌then◌else◌, keep,
  get_or,
}
use testkit_service.Browser.{Toast, success, error}
use testkit_service.TenantList.{Member, Row, cap_label, switched, same_key, is_shown}

-- A response, or a failure with the `data.message` that it carries.
pub data Answer {ℓ} (A : Type ℓ) : Type ℓ where
  granted : A → Answer A
  refused : Option String → Answer A

-- the argument of portalCreateTenant, with the new account's name and email
pub record Creation : Type 0 where
  pub name : String
  pub capabilities : List String
  pub admin : Option (Option String × Option String)

-- what showBootstrapSecrets shows
pub record Secrets : Type 0 where
  pub tenant_key : Option String
  pub access_key : Option String
  pub secret : Option String
  pub bootstrap_user_id : Option String
  pub initial_password : Option String

pub data Call : Type 0 where
  list_tenants : Call
  list_members : String → Call
  set_capability : String → String → Bool → Call
  disable_tenant : String → Bool → Call
  delete_tenant : String → Call
  create_tenant : Creation → Call
  add_member remove_member : String → String → Call

-- The hooks of TenantListPage; the requests, the messages and the dialogs, the newest first.
pub record Page : Type 0 where
  pub rows : List Row
  pub loading : Bool
  pub filter_name : String
  pub filter_key : String
  pub cap_drawer : Option Row
  pub admin_drawer : Option Row
  pub delete_target : Option Row
  pub delete_echo : String
  pub calls : List Call
  pub toasts : List (Toast × String)
  pub dialogs : List Secrets

unfoldable pub filtered : Page → List Row
filtered page = keep (is_shown page.filter_name page.filter_key) page.rows

abbrev pub toast : Toast → String → Page → Page
toast kind text page = record page { toasts = (kind, text) ∷ page.toasts }

abbrev pub call : Call → Page → Page
call c page = record page { calls = c ∷ page.calls }

-- the start of load and of reloadAdmins
unfoldable pub load : Page → Page
load page = call list_tenants (record page { loading = true })

unfoldable pub reload_admins : String → Page → Page
reload_admins key page = call (list_members key) page

-- the fan-in of load: a tenant whose members cannot be read has none
unfoldable pub with_admins : (Row → Answer (Option (List Member))) → Row → Row
with_admins members t = record t {
  admins = some (elim (members t) [ granted ms ↦ get_or ms [] | refused _ ↦ [] ]);
}

unfoldable pub loaded :
    Answer (Option (List Row)) → (Row → Answer (Option (List Member))) → Page → Page
loaded (granted tenants) members page =
    let ts = get_or tenants [] in
    record page {
      rows = map (with_admins members) ts;
      loading = false;
      calls = map (λ (t : Row). list_members (get_or t.tenant_key "")) ts ++ page.calls;
    }
loaded (refused text) members page = record (toast error (get_or text "租户列表加载失败") page) {
  loading = false;
}

-- an update of the rows with a key, and of the drawer that shows one of them
abbrev pub update_row : Option String → (Row → Row) → Row → Row
update_row key f r = if same_key r.tenant_key key then f r else r

abbrev pub update_drawer : Option String → (Row → Row) → Option Row → Option Row
update_drawer key f none = none
update_drawer key f (some cur) = some (update_row key f cur)

abbrev pub switch_row : String → Bool → Row → Row
switch_row service enabled r = record r {
  enabled_capabilities = some (switched service enabled r.enabled_capabilities);
}

abbrev pub set_admins : Option (List Member) → Row → Row
set_admins members r = record r { admins = some (get_or members []) }

-- toggleCapability: up to its request, and from the answer
unfoldable pub switch_capability : String → Bool → Option Row → Page → Page
switch_capability service enabled none page = page
switch_capability service enabled (some r) page =
    if r.disabled then page else call (set_capability (get_or r.tenant_key "") service enabled) page

unfoldable pub capability_set : Option String → String → Bool → Answer (Unit {0}) → Page → Page
capability_set key service enabled (granted _) page =
    let label = get_or (cap_label service) service in
    toast success (Text.◌++◌ label (Text.◌++◌ " 已" (if enabled then "开启" else "关闭"))) (record page {
      rows = map (update_row key (switch_row service enabled)) page.rows;
      cap_drawer = update_drawer key (switch_row service enabled) page.cap_drawer;
    })
capability_set key service enabled (refused text) page = toast error (get_or text "能力开关失败") page

-- reloadAdmins, from its answer
unfoldable pub members_read : String → Answer (Option (List Member)) → Page → Page
members_read key (granted members) page = record page {
  rows = map (update_row (some key) (set_admins members)) page.rows;
  admin_drawer = update_drawer (some key) (set_admins members) page.admin_drawer;
}
members_read key (refused text) page = toast error (get_or text "管理员列表刷新失败") page

-- the drawer's key, `adminDrawer?.tenantKey ?? ""`
abbrev pub drawer_key : Option Row → String
drawer_key none = ""
drawer_key (some r) = get_or r.tenant_key ""

-- what a changed binding leads to
unfoldable pub member_changed : (done failed key : String) → Answer (Unit {0}) → Page → Page
member_changed done failed key (granted _) page = reload_admins key (toast success done page)
member_changed done failed key (refused text) page = toast error (get_or text failed) page

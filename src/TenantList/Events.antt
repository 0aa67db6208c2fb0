-- ===== src/TenantList/Events.antt =====
-- What the user does on the tenant list and what the server answers, as events in any order.
use Prim.Native.String as Text
use testkit_service.Prelude.{
  ℕ, String, Bool, false, Option, none, some, List, [], ◌∷◌, not, if◌then◌else◌, get_elem?, get_or,
  truthy, is_text,
}
use testkit_service.Browser.{success, warning, error}
use testkit_service.TenantList.{Member, Row}
use testkit_service.TenantList.Page.{
  Answer, granted, refused, Creation, Secrets, Page, disable_tenant, delete_tenant, create_tenant,
  add_member, remove_member, filtered, toast, call, load, loaded, switch_capability, capability_set,
  members_read, drawer_key, member_changed,
}

-- the form of a new tenant
pub record Creating : Type 0 where
  pub name : String
  pub capabilities : Option (List String)
  pub admin_name : Option String
  pub admin_email : Option String

-- An answer's event repeats what its handler has captured. Rows are named by their place in the table.
pub data Event : Type 0 where
  name_searched key_searched : String → Event
  load_answered : Answer (Option (List Row)) → (Row → Answer (Option (List Member))) → Event
  capabilities_clicked admins_clicked toggle_clicked delete_clicked : ℕ → Event
  capabilities_closed admins_closed delete_cancelled delete_confirmed : Event
  capability_switched : (service : String) (enabled : Bool) → Event
  capability_answered :
      (key : Option String) (service : String) (enabled : Bool) → Answer (Unit {0}) → Event
  members_answered : (key : String) → Answer (Option (List Member)) → Event
  member_removed : Member → Event
  member_added : (user_id : String) → Event
  removal_answered addition_answered : (key : String) → Answer (Unit {0}) → Event
  toggle_answered : (was_disabled : Bool) → Answer (Unit {0}) → Event
  echo_typed : String → Event
  deletion_answered : (key : Option String) → Answer (Unit {0}) → Event
  tenant_submitted : Creating → Event
  creation_answered : Answer Secrets → Event

-- a click on a row's link; nothing where there is no such row
abbrev pub on_found : (Row → Page → Page) → Option Row → Page → Page
on_found f none page = page
on_found f (some r) page = f r page

abbrev on_row : ℕ → (Row → Page → Page) → Page → Page
on_row i f page = on_found f (get_elem? (filtered page) i) page

-- the row's links
abbrev open_capabilities : Row → Page → Page
open_capabilities r page = record page { cap_drawer = some r }

abbrev open_admins : Row → Page → Page
open_admins r page = record page { admin_drawer = some r }

abbrev toggle : Row → Page → Page
toggle r page = call (disable_tenant (get_or r.tenant_key "") (not r.disabled)) page

unfoldable pub open_deletion : Row → Page → Page
open_deletion r page =
    if r.disabled
    then record page { delete_target = some r; delete_echo = "" }
    else toast warning "请先停用租户，再删除（删除不可恢复）" page

unfoldable pub toggled : Bool → Answer (Unit {0}) → Page → Page
toggled was_disabled (granted _) page =
    load (toast success (if was_disabled then "已启用" else "已停用") page)
toggled was_disabled (refused text) page = toast error (get_or text "操作失败") page

-- the dialog's button, which is disabled until the key is typed, and doDelete
unfoldable pub confirm_deletion : Option Row → Page → Page
confirm_deletion none page = page
confirm_deletion (some r) page =
    if is_text r.tenant_key page.delete_echo
    then call (delete_tenant (get_or r.tenant_key "")) page
    else page

unfoldable pub deleted : Option String → Answer (Unit {0}) → Page → Page
deleted key (granted _) page =
    load (record (toast success (Text.◌++◌ "已删除 " (get_or key "undefined")) page) {
      delete_target = none;
      delete_echo = "";
    })
deleted key (refused text) page = toast error (get_or text "删除失败") page

-- the new tenant's form
unfoldable pub creation : Creating → Creation
creation vals = record {
  name = vals.name;
  capabilities = get_or vals.capabilities [];
  admin =
      if truthy vals.admin_email
      then some
          (if truthy vals.admin_name then vals.admin_name else some vals.name, vals.admin_email)
      else none;
}

unfoldable pub created : Answer Secrets → Page → Page
created (granted secrets) page =
    load (record (toast success "租户已创建" page) { dialogs = secrets ∷ page.dialogs })
created (refused text) page = toast error (get_or text "创建失败") page

-- one event
unfoldable pub act : Event → Page → Page
act (name_searched s) page = record page { filter_name = s }
act (key_searched s) page = record page { filter_key = s }
act (load_answered tenants members) page = loaded tenants members page
act (capabilities_clicked i) page = on_row i open_capabilities page
act (admins_clicked i) page = on_row i open_admins page
act (toggle_clicked i) page = on_row i toggle page
act (delete_clicked i) page = on_row i open_deletion page
act capabilities_closed page = record page { cap_drawer = none }
act admins_closed page = record page { admin_drawer = none }
act delete_cancelled page = record page { delete_target = none }
act delete_confirmed page = confirm_deletion page.delete_target page
act (capability_switched service enabled) page =
    switch_capability service enabled page.cap_drawer page
act (capability_answered key service enabled answer) page =
    capability_set key service enabled answer page
act (members_answered key answer) page = members_read key answer page
act (member_removed m) page =
    call (remove_member (drawer_key page.admin_drawer) (get_or m.user_id "0")) page
act (member_added user_id) page = call (add_member (drawer_key page.admin_drawer) user_id) page
act (removal_answered key answer) page = member_changed "已解绑" "解绑失败" key answer page
act (addition_answered key answer) page = member_changed "已绑定" "绑定失败" key answer page
act (toggle_answered was_disabled answer) page = toggled was_disabled answer page
act (echo_typed s) page = record page { delete_echo = s }
act (deletion_answered key answer) page = deleted key answer page
act (tenant_submitted vals) page = call (create_tenant (creation vals)) page
act (creation_answered answer) page = created answer page

unfoldable pub run : List Event → Page → Page
run [] page = page
run (e ∷ es) page = run es (act e page)

-- the state at the first render, and after its effect
unfoldable pub opened : Page
unfolding load
opened = load (record {
  rows = [];
  loading = false;
  filter_name = "";
  filter_key = "";
  cap_drawer = none;
  admin_drawer = none;
  delete_target = none;
  delete_echo = "";
  calls = [];
  toasts = [];
  dialogs = [];
})

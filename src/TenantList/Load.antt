-- ===== src/TenantList/Load.antt =====
-- The tenant list when the server answers a load, and when it refuses a request.
use testkit_service.Prelude.{String, Bool, false, Option, some, List, ◌∷◌, ◌≡◌, refl, get_or}
use testkit_service.Browser.{error}
use testkit_service.TenantList.{Member, Row}
use testkit_service.TenantList.Page.{
  Answer, granted, refused, Page, set_capability, toast, loaded, switch_capability, capability_set,
  members_read, member_changed,
}
use testkit_service.TenantList.Events.{
  Event, act, load_answered, capability_switched, capability_answered, members_answered,
  removal_answered, addition_answered, toggle_answered, deletion_answered, creation_answered,
  toggled, deleted, created,
}

-- A drawer that is open while the table is loaded again keeps its copy of the row: where that copy is
-- not disabled, a switch still asks the server, whatever the new rows say of the tenant.
pub loaded-stale_drawer :
    (page : Page) (d : Row) (ts : Option (List Row)) (members : Row → Answer (Option (List Member)))
    (service : String) (enabled : Bool)
    → page.cap_drawer ≡ some d
    → d.disabled ≡ false
    → (act
        (capability_switched service enabled)
        (act (load_answered (granted ts) members) page)).calls
      ≡ set_capability (get_or d.tenant_key "") service enabled
        ∷ (act (load_answered (granted ts) members) page).calls
unfolding act loaded switch_capability
loaded-stale_drawer page d ts members service enabled shown on = simp (shown, on) refl

-- An event that is a refusal, with the text of the server and the handler's own.
pub data Refuses : Event → Option String → String → Type 0 where
  load :
      (t : Option String) (members : Row → Answer (Option (List Member)))
      → Refuses (load_answered (refused t) members) t "租户列表加载失败"
  switch :
      (t : Option String) (key : Option String) (service : String) (enabled : Bool)
      → Refuses (capability_answered key service enabled (refused t)) t "能力开关失败"
  members :
      (t : Option String) (key : String) → Refuses (members_answered key (refused t)) t "管理员列表刷新失败"
  removal : (t : Option String) (key : String) → Refuses (removal_answered key (refused t)) t "解绑失败"
  addition :
      (t : Option String) (key : String) → Refuses (addition_answered key (refused t)) t "绑定失败"
  toggle :
      (t : Option String) (was_disabled : Bool)
      → Refuses (toggle_answered was_disabled (refused t)) t "操作失败"
  deletion :
      (t : Option String) (key : Option String)
      → Refuses (deletion_answered key (refused t)) t "删除失败"
  creation : (t : Option String) → Refuses (creation_answered (refused t)) t "创建失败"

-- Whatever request the server refuses, its message, or the handler's own where it sent none, is shown,
-- and nothing else changes but that a refused load is over: the table, both drawers, the dialog, the
-- typed text and the requests stay as they were.
pub act-Refuses :
    {e : Event} {t : Option String} {own : String}
    → Refuses e t own
    → (page : Page)
    → record (act e page) { loading = page.loading } ≡ toast error (get_or t own) page
unfolding act loaded capability_set members_read member_changed toggled deleted created
act-Refuses (load t _) page = refl
act-Refuses (switch t key service enabled) page = refl
act-Refuses (members t key) page = refl
act-Refuses (removal t key) page = refl
act-Refuses (addition t key) page = refl
act-Refuses (toggle t was_disabled) page = refl
act-Refuses (deletion t key) page = refl
act-Refuses (creation t) page = refl

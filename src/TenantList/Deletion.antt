-- ===== src/TenantList/Deletion.antt =====
-- Deletion in the tenant list: only a disabled tenant, only once its key is typed.
use testkit_service.Prelude.{
  String, Bool, true, Option, none, some, List, [], ◌∷◌, ◌≡◌, ◌≢◌, refl, arith, not, get_elem?,
  get_or, is_text, is_text_iff, Bool-cases, inl, inr, Listed, ◌⊎◌, ◌++◌, map,
}
use testkit_service.TenantList.{Row}
use testkit_service.TenantList.Page.{
  granted, refused, Page, Call, delete_tenant, list_members, list_tenants, disable_tenant,
  set_capability, create_tenant, add_member, remove_member, drawer_key, filtered, load, loaded,
  switch_capability, capability_set, members_read, member_changed, reload_admins,
}
use testkit_service.TenantList.Events.{
  Event, on_found, act, run, name_searched, key_searched, load_answered, capabilities_clicked,
  admins_clicked, toggle_clicked, delete_clicked, capabilities_closed, admins_closed,
  delete_cancelled, capability_switched, capability_answered, members_answered, member_removed,
  member_added, removal_answered, addition_answered, toggle_answered, echo_typed, deletion_answered,
  tenant_submitted, creation_answered, opened, open_deletion, toggled, confirm_deletion, deleted,
  created, creation, delete_confirmed,
}

list_members-ne-delete : (k key : String) → list_members k ≢ delete_tenant key
list_members-ne-delete k key e = cc

-- The dialog, where it is open, is about a disabled tenant.
abbrev OnDisabled : Option Row → Type 0
OnDisabled none = Unit {0}
OnDisabled (some r) = r.disabled ≡ true

-- The button is pressed in the dialog of a disabled tenant whose key is typed.
pub record IsConfirmed (e : Event) (page : Page) (key : String) : Type 0 where
  pub target : Row
  pub pressed : e ≡ delete_confirmed
  pub shown : page.delete_target ≡ some target
  pub disabled : target.disabled ≡ true
  pub typed : target.tenant_key ≡ some page.delete_echo
  pub named : key ≡ page.delete_echo

-- What an event may do about deletion.
abbrev IsGuarded : Event → Page → Page → Type 0
IsGuarded e page page' =
    OnDisabled page'.delete_target
    × ((key : String)
        → Listed (delete_tenant key) page'.calls
        → Listed (delete_tenant key) page.calls ⊎ IsConfirmed e page key)

-- A request that is no deletion.
other_call :
    (e : Event) (page : Page) (c : Call)
    → ((key : String) → c ≢ delete_tenant key)
    → (key : String) → Listed (delete_tenant key) (c ∷ page.calls)
    → Listed (delete_tenant key) page.calls ⊎ IsConfirmed e page key
other_call e page c other key (inl same) = absurd (other key same)
other_call e page c other key (inr m) = inl m

member_calls :
    (e : Event) (page : Page) (ts : List Row) (key : String)
    → Listed
        (delete_tenant key)
        (map (λ (t : Row). list_members (get_or t.tenant_key "")) ts ++ page.calls)
    → Listed (delete_tenant key) page.calls ⊎ IsConfirmed e page key
member_calls e page [] key m = inl m
member_calls e page (t ∷ ts) key (inl same) = absurd (list_members-ne-delete _ _ same)
member_calls e page (t ∷ ts) key (inr m) = member_calls e page ts key m

found-IsGuarded :
    (e : Event) (f : Row → Page → Page) (o : Option Row) (page : Page)
    → OnDisabled page.delete_target
    → ((r : Row) → IsGuarded e page (f r page))
    → IsGuarded e page (on_found f o page)
found-IsGuarded e f none page h each = (h, λ key m. inl m)
found-IsGuarded e f (some r) page h each = each r

open_deletion-IsGuarded :
    (e : Event) (r : Row) (page : Page)
    → OnDisabled page.delete_target
    → IsGuarded e page (open_deletion r page)
unfolding open_deletion
open_deletion-IsGuarded e r page h = elim (Bool-cases r.disabled) [
  | inl gone ↦ simp gone (refl, λ key m. inl m)
  | inr kept ↦ simp kept (h, λ key m. inl m)
]

pressed_on :
    (r : Row) (page : Page)
    → page.delete_target ≡ some r
    → r.disabled ≡ true
    → r.tenant_key ≡ some page.delete_echo
    → (key : String)
    → Listed (delete_tenant key) (delete_tenant (get_or r.tenant_key "") ∷ page.calls)
    → Listed (delete_tenant key) page.calls ⊎ IsConfirmed delete_confirmed page key
pressed_on r page shown off typed key (inr m) = inl m
pressed_on r page shown off typed key (inl same) = inr (record {
  target = r;
  pressed = refl;
  shown = shown;
  disabled = off;
  typed = typed;
  named = ground (arith, same, typed);
})

confirm_deletion-IsGuarded :
    (o : Option Row) (page : Page)
    → page.delete_target ≡ o
    → OnDisabled o
    → IsGuarded delete_confirmed page (confirm_deletion o page)
unfolding confirm_deletion
confirm_deletion-IsGuarded none page e h = (rw e tt, λ key m. inl m)
confirm_deletion-IsGuarded (some r) page e h =
    elim (Bool-cases (is_text r.tenant_key page.delete_echo)) [
      | inl typed ↦ simp typed (rw e h, pressed_on r page e h ((is_text_iff _ _).0 typed))
      | inr untyped ↦ simp untyped (rw e h, λ key m. inl m)
    ]

switch_capability-IsGuarded :
    (e : Event) (service : String) (enabled : Bool) (o : Option Row) (page : Page)
    → OnDisabled page.delete_target
    → IsGuarded e page (switch_capability service enabled o page)
unfolding switch_capability
switch_capability-IsGuarded e service enabled none page h = (h, λ key m. inl m)
switch_capability-IsGuarded e service enabled (some r) page h = elim (Bool-cases r.disabled) [
  | inl off ↦ simp off (h, λ key m. inl m)
  | inr on ↦
      simp on (
        h,
        other_call e page (set_capability (get_or r.tenant_key "") service enabled) (λ key e. cc),
      )
]

act-IsGuarded :
    (e : Event) (page : Page) → OnDisabled page.delete_target → IsGuarded e page (act e page)
unfolding act loaded load capability_set members_read member_changed reload_admins toggled deleted
    created
act-IsGuarded (name_searched s) page h = (h, λ key m. inl m)
act-IsGuarded (key_searched s) page h = (h, λ key m. inl m)
act-IsGuarded (load_answered (granted ts) members) page h = (h, member_calls _ page (get_or ts []))
act-IsGuarded (load_answered (refused t) members) page h = (h, λ key m. inl m)
act-IsGuarded (capabilities_clicked i) page h =
    found-IsGuarded _ _ (get_elem? (filtered page) i) page h (λ r. (h, λ key m. inl m))
act-IsGuarded (admins_clicked i) page h =
    found-IsGuarded _ _ (get_elem? (filtered page) i) page h (λ r. (h, λ key m. inl m))
act-IsGuarded (toggle_clicked i) page h =
    found-IsGuarded _ _ (get_elem? (filtered page) i) page h (λ r. (
      h,
      other_call _ page (disable_tenant (get_or r.tenant_key "") (not r.disabled)) (λ key e. cc),
    ))
act-IsGuarded (delete_clicked i) page h =
    found-IsGuarded _ _ (get_elem? (filtered page) i) page h
      (λ r. open_deletion-IsGuarded _ r page h)
act-IsGuarded capabilities_closed page h = (h, λ key m. inl m)
act-IsGuarded admins_closed page h = (h, λ key m. inl m)
act-IsGuarded delete_cancelled page h = (tt, λ key m. inl m)
act-IsGuarded delete_confirmed page h = confirm_deletion-IsGuarded page.delete_target page refl h
act-IsGuarded (capability_switched service enabled) page h =
    switch_capability-IsGuarded _ service enabled page.cap_drawer page h
act-IsGuarded (capability_answered key service enabled (granted _)) page h = (h, λ key m. inl m)
act-IsGuarded (capability_answered key service enabled (refused t)) page h = (h, λ key m. inl m)
act-IsGuarded (members_answered key (granted ms)) page h = (h, λ key m. inl m)
act-IsGuarded (members_answered key (refused t)) page h = (h, λ key m. inl m)
act-IsGuarded (member_removed m) page h = (
  h,
  other_call _ page (remove_member (drawer_key page.admin_drawer) (get_or m.user_id "0"))
      (λ key e. cc),
)
act-IsGuarded (member_added u) page h =
    (h, other_call _ page (add_member (drawer_key page.admin_drawer) u) (λ key e. cc))
act-IsGuarded (removal_answered key (granted _)) page h =
    (h, other_call _ page (list_members key) (λ key e. cc))
act-IsGuarded (removal_answered key (refused t)) page h = (h, λ key m. inl m)
act-IsGuarded (addition_answered key (granted _)) page h =
    (h, other_call _ page (list_members key) (λ key e. cc))
act-IsGuarded (addition_answered key (refused t)) page h = (h, λ key m. inl m)
act-IsGuarded (toggle_answered d (granted _)) page h =
    (h, other_call _ page (list_tenants) (λ key e. cc))
act-IsGuarded (toggle_answered d (refused t)) page h = (h, λ key m. inl m)
act-IsGuarded (echo_typed s) page h = (h, λ key m. inl m)
act-IsGuarded (deletion_answered key (granted _)) page h =
    (tt, other_call _ page (list_tenants) (λ key e. cc))
act-IsGuarded (deletion_answered key (refused t)) page h = (h, λ key m. inl m)
act-IsGuarded (tenant_submitted vals) page h =
    (h, other_call _ page (create_tenant (creation vals)) (λ key e. cc))
act-IsGuarded (creation_answered (granted s)) page h =
    (h, other_call _ page (list_tenants) (λ key e. cc))
act-IsGuarded (creation_answered (refused t)) page h = (h, λ key m. inl m)

run-OnDisabled :
    (es : List Event) (page : Page)
    → OnDisabled page.delete_target
    → OnDisabled (run es page).delete_target
unfolding run
run-OnDisabled [] page h = h
run-OnDisabled (e ∷ es) page h = run-OnDisabled es (act e page) (act-IsGuarded e page h).0

-- Whatever the user does and whatever the server answers, in any order: a request to delete a tenant is
-- only ever added by a press of the dialog's button, while the dialog shows a tenant that was disabled
-- when it opened and whose key the typed text equals; and it names that key.
pub deletion-IsConfirmed :
    (es : List Event) (e : Event) (key : String)
    → Listed (delete_tenant key) (act e (run es opened)).calls
    → Listed (delete_tenant key) (run es opened).calls ⊎ IsConfirmed e (run es opened) key
unfolding opened load
deletion-IsConfirmed es e key m =
    (act-IsGuarded e (run es opened) (run-OnDisabled es opened tt)).1 key m

-- ===== src/TenantList/Drawers.antt =====
-- The drawers of the tenant list keep copies of rows: that they show what the table shows.
use testkit_service.Prelude.{
  ℕ, zero, suc, String, Bool, true, false, Option, none, some, List, [], ◌∷◌, map, ◌≡◌, refl, ap,
  ◌∙◌, arith, is_text, get_elem?, Bool-cases, inl, inr, All, Listed, Listed-keep,
}
use testkit_service.TenantList.Copies.{
  IsUnique, Shows, Shows-update, Shows-other, Shows-open, update_row-key,
}
use testkit_service.TenantList.{Row, Member, switched, same_key, is_shown}
use testkit_service.TenantList.Page.{
  set_admins, loaded, granted, refused, Page, update_row, switch_row, set_admins, filtered, load,
  reload_admins, switch_capability, capability_set, members_read, member_changed,
}
use testkit_service.TenantList.Events.{
  Event, on_found, act, run, name_searched, key_searched, load_answered, capabilities_clicked,
  admins_clicked, toggle_clicked, delete_clicked, capabilities_closed, admins_closed,
  delete_cancelled, delete_confirmed, capability_switched, capability_answered, members_answered,
  member_removed, member_added, removal_answered, addition_answered, toggle_answered, echo_typed,
  deletion_answered, tenant_submitted, creation_answered, open_deletion, toggled, confirm_deletion,
  deleted, created,
}

-- Both drawers show what the table shows, and its keys are all different.
abbrev pub IsSynced : Page → Type 0
IsSynced page =
    Shows (λ r. r.enabled_capabilities) page.cap_drawer page.rows
    × Shows (λ r. r.admins) page.admin_drawer page.rows
    × IsUnique page.rows

apart-update :
    (key : Option String) (f : Row → Row)
    → ((r : Row) → (f r).tenant_key ≡ r.tenant_key)
    → (r : Row) (rows : List Row)
    → All (λ (s : Row). same_key s.tenant_key r.tenant_key ≡ false) rows
    → All
        (λ (s : Row). same_key s.tenant_key (update_row key f r).tenant_key ≡ false)
        (map (update_row key f) rows)
apart-update key f same r [] h = tt
apart-update key f same r (s ∷ rows) h = (
  ap (λ k. same_key k (update_row key f r).tenant_key) (update_row-key key f s (same s))
      ∙ ap (same_key s.tenant_key) (update_row-key key f r (same r))
      ∙ h.0,
  apart-update key f same r rows h.1,
)

IsUnique-update :
    (key : Option String) (f : Row → Row)
    → ((r : Row) → (f r).tenant_key ≡ r.tenant_key)
    → (rows : List Row) → IsUnique rows
    → IsUnique (map (update_row key f) rows)
IsUnique-update key f same [] u = tt
IsUnique-update key f same (r ∷ rows) u =
    (apart-update key f same r rows u.0, IsUnique-update key f same rows u.1)

get_elem?-Listed : (rows : List Row) (i : ℕ) (r : Row) → get_elem? rows i ≡ some r → Listed r rows
get_elem?-Listed [] i r e = cc
get_elem?-Listed (s ∷ rows) zero r e = inl (ground (arith, e))
get_elem?-Listed (s ∷ rows) (suc i) r e = inr (get_elem?-Listed rows i r e)

shown_row :
    (page : Page) (i : ℕ) (r : Row) → get_elem? (filtered page) i ≡ some r → Listed r page.rows
unfolding filtered
shown_row page i r e =
    ((Listed-keep (is_shown page.filter_name page.filter_key) page.rows r).0
      (get_elem?-Listed (filtered page) i r e)).0

found-IsSynced :
    (f : Row → Page → Page) (o : Option Row) (page : Page)
    → ((r : Row) → o ≡ some r → IsSynced (f r page))
    → IsSynced page
    → IsSynced (on_found f o page)
found-IsSynced f none page each h = h
found-IsSynced f (some r) page each h = each r refl

-- the events that replace the table
abbrev pub is_load : Event → Bool
is_load (load_answered (granted _) _) = true
is_load _ = false

open_deletion-IsSynced : (r : Row) (page : Page) → IsSynced page → IsSynced (open_deletion r page)
unfolding open_deletion
open_deletion-IsSynced r page h = elim (Bool-cases r.disabled) [
  | inl off ↦ simp off h
  | inr on ↦ simp on h
]

confirm_deletion-IsSynced :
    (o : Option Row) (page : Page) → IsSynced page → IsSynced (confirm_deletion o page)
unfolding confirm_deletion
confirm_deletion-IsSynced none page h = h
confirm_deletion-IsSynced (some r) page h =
    elim (Bool-cases (is_text r.tenant_key page.delete_echo)) [
      | inl typed ↦ simp typed h
      | inr untyped ↦ simp untyped h
    ]

switch_capability-IsSynced :
    (service : String) (enabled : Bool) (o : Option Row) (page : Page)
    → IsSynced page
    → IsSynced (switch_capability service enabled o page)
unfolding switch_capability
switch_capability-IsSynced service enabled none page h = h
switch_capability-IsSynced service enabled (some r) page h = elim (Bool-cases r.disabled) [
  | inl off ↦ simp off h
  | inr on ↦ simp on h
]

capability_set-IsSynced :
    (key : Option String) (service : String) (enabled : Bool) (page : Page)
    → IsSynced page
    → IsSynced (capability_set key service enabled (granted tt) page)
unfolding capability_set
capability_set-IsSynced key service enabled page h =
    let f = switch_row service enabled in
    (
      Shows-update _ key f (λ r. refl) (λ r d e. ap (λ c. some (switched service enabled c)) e)
          page.cap_drawer page.rows h.0,
      Shows-other _ key f (λ r. refl) (λ r. refl) page.admin_drawer page.rows h.1,
      IsUnique-update key f (λ r. refl) page.rows h.2,
    )

members_read-IsSynced :
    (key : String) (members : Option (List Member)) (page : Page)
    → IsSynced page
    → IsSynced (members_read key (granted members) page)
unfolding members_read
members_read-IsSynced key members page h =
    let f = set_admins members in
    (
      Shows-other _ (some key) f (λ r. refl) (λ r. refl) page.cap_drawer page.rows h.0,
      Shows-update _ (some key) f (λ r. refl) (λ r d e. refl) page.admin_drawer page.rows h.1,
      IsUnique-update (some key) f (λ r. refl) page.rows h.2,
    )

capability_failed :
    (key : Option String) (service : String) (enabled : Bool) (text : Option String) (page : Page)
    → IsSynced page
    → IsSynced (capability_set key service enabled (refused text) page)
unfolding capability_set
capability_failed key service enabled text page h = h

members_failed :
    (key : String) (text : Option String) (page : Page)
    → IsSynced page
    → IsSynced (members_read key (refused text) page)
unfolding members_read
members_failed key text page h = h

act-IsSynced : (e : Event) (page : Page) → IsSynced page → is_load e ≡ false → IsSynced (act e page)
unfolding act loaded load reload_admins member_changed toggled deleted created
act-IsSynced (name_searched s) page h n = h
act-IsSynced (key_searched s) page h n = h
act-IsSynced (load_answered (granted ts) members) page h n = cc
act-IsSynced (load_answered (refused t) members) page h n = h
act-IsSynced (capabilities_clicked i) page h n =
    found-IsSynced _ (get_elem? (filtered page) i) page
      (λ r e. (Shows-open _ r page.rows h.2 (shown_row page i r e), h.1, h.2)) h
act-IsSynced (admins_clicked i) page h n =
    found-IsSynced _ (get_elem? (filtered page) i) page
      (λ r e. (h.0, Shows-open _ r page.rows h.2 (shown_row page i r e), h.2)) h
act-IsSynced (toggle_clicked i) page h n =
    found-IsSynced _ (get_elem? (filtered page) i) page (λ r e. h) h
act-IsSynced (delete_clicked i) page h n =
    found-IsSynced _ (get_elem? (filtered page) i) page (λ r e. open_deletion-IsSynced r page h) h
act-IsSynced capabilities_closed page h n = (tt, h.1, h.2)
act-IsSynced admins_closed page h n = (h.0, tt, h.2)
act-IsSynced delete_cancelled page h n = h
act-IsSynced delete_confirmed page h n = confirm_deletion-IsSynced page.delete_target page h
act-IsSynced (capability_switched service enabled) page h n =
    switch_capability-IsSynced service enabled page.cap_drawer page h
act-IsSynced (capability_answered key service enabled (granted _)) page h n =
    capability_set-IsSynced key service enabled page h
act-IsSynced (capability_answered key service enabled (refused t)) page h n =
    capability_failed key service enabled t page h
act-IsSynced (members_answered key (granted ms)) page h n = members_read-IsSynced key ms page h
act-IsSynced (members_answered key (refused t)) page h n = members_failed key t page h
act-IsSynced (member_removed m) page h n = h
act-IsSynced (member_added u) page h n = h
act-IsSynced (removal_answered key (granted _)) page h n = h
act-IsSynced (removal_answered key (refused t)) page h n = h
act-IsSynced (addition_answered key (granted _)) page h n = h
act-IsSynced (addition_answered key (refused t)) page h n = h
act-IsSynced (toggle_answered d (granted _)) page h n = h
act-IsSynced (toggle_answered d (refused t)) page h n = h
act-IsSynced (echo_typed s) page h n = h
act-IsSynced (deletion_answered key (granted _)) page h n = h
act-IsSynced (deletion_answered key (refused t)) page h n = h
act-IsSynced (tenant_submitted vals) page h n = h
act-IsSynced (creation_answered (granted s)) page h n = h
act-IsSynced (creation_answered (refused t)) page h n = h

-- While the table is not loaded again, whatever the user does and whatever the server answers, in any
-- order: where the keys of the table are all different and both drawers, as far as they are open, show
-- what the table shows of their tenants, they still do afterwards.
pub run-IsSynced :
    (es : List Event) (page : Page)
    → All (λ e. is_load e ≡ false) es
    → IsSynced page
    → IsSynced (run es page)
unfolding run
run-IsSynced [] page quiet h = h
run-IsSynced (e ∷ es) page quiet h =
    run-IsSynced es (act e page) quiet.1 (act-IsSynced e page h quiet.0)

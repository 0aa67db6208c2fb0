-- ===== src/Switcher/Laws.antt =====
-- A choice is dropped with its tenant, and a switch lands on a page of the new view.
use testkit_service.Prelude.{
  ◌+◌, String, Bool, true, Option, some, List, [], ◌∷◌, ◌≡◌, ◌⊎◌, inl, inr, refl, ◌∙◌, arith, any,
  any_elim, Listed, is_text, is_text_iff, nonempty, nonempty_iff, get_or, ◌==◌, Bool-cases,
  if◌then◌else◌, not, ◌&&◌,
}
use testkit_service.Browser.{Browser, ok, assigned, update, choice_key}
use testkit_service.Browser.Laws.{IsUsable, by_usable}
use testkit_service.Access.{access}
use testkit_service.Access.Laws.{HasSession, granted, access_lem}
use testkit_service.Choice.{write_tenant_choice}
use testkit_service.Choice.Laws.{seen_choice, read_tenant_choice_lem}
use testkit_service.Identity.{User, Codec, platform}
use testkit_service.Identity.Laws.{seen_user}
use testkit_service.Request.{Server, replied, settle}
use testkit_service.Request.Laws.{carried, call_lem, after_send}
use testkit_service.Services.{portal_list_tenants}
use testkit_service.Routes.Guards.{IsServed, serves-IsServed, landings_served}
use testkit_service.Bootstrap.Laws.{choiceless, clear_tenant_choice_lem}
use testkit_service.Switcher.{
  TenantInfo, SwitcherState, cross_view, take_tenants, load_tenants, apply_choice, pick,
}

-- A key that a tenant of the list has.
abbrev pub IsRegistered : List TenantInfo → String → Type 0
IsRegistered list key = (t : TenantInfo) × Listed t list × (t.tenant_key ≡ some key)

abbrev is_registered : List TenantInfo → String → Bool
is_registered list key = any (λ (t : TenantInfo). is_text t.tenant_key key) list

registered :
    (list : List TenantInfo) (key : String) → is_registered list key ≡ true → IsRegistered list key
registered list key h =
    let (t, listed, e) = any_elim (λ (t : TenantInfo). is_text t.tenant_key key) list h in
    (t, listed, (is_text_iff t.tenant_key key).0 e)

-- The choice that stays: the stored one unless it names no tenant of the list.
abbrev remaining : List TenantInfo → String → String
remaining list stored = if nonempty stored && not (is_registered list stored) then "" else stored

take_tenants_lem :
    (list : List TenantInfo) (s : SwitcherState) (w : Browser)
    → IsUsable w
    → (s' : SwitcherState) × (r : Browser) × (take_tenants list s w ≡ (ok s', r))
      × (s'.tenants ≡ list)
      × (seen_choice r ≡ remaining list (seen_choice w))
unfolding take_tenants
take_tenants_lem list s w usable =
    elim (Bool-cases (nonempty (seen_choice w) && not (is_registered list (seen_choice w)))) [
      | inl gone ↦ (
        record { tenants = list; choice_rev = s.choice_rev + 1 },
        choiceless w,
        rw (read_tenant_choice_lem w, gone, clear_tenant_choice_lem w usable.unblocked),
        refl,
        ground arith,
      )
      | inr kept ↦
          (record s { tenants = list }, w, rw (read_tenant_choice_lem w, kept), refl, rw kept)
    ]

remaining-IsRegistered :
    (list : List TenantInfo) (stored : String)
    → (remaining list stored ≡ "") ⊎ IsRegistered list (remaining list stored)
remaining-IsRegistered list stored = elim (Bool-cases (is_registered list stored)) [
  | inl here ↦ rw here (elim (Bool-cases (nonempty stored)) [
    | inl full ↦ rw full (inr (registered list stored here))
    | inr empty ↦ rw empty (inl ((nonempty_iff stored).0 empty))
  ])
  | inr gone ↦ inl (ground (arith, nonempty_iff stored))
]

-- A platform user's switcher, once the registry has answered: the list is the registry's, and the
-- choice that later reads see is empty or names a tenant of it.
pub load_tenants-IsRegistered :
    (server : Server (Option (List TenantInfo))) (answer : Option (List TenantInfo))
    (s : SwitcherState) (w : Browser)
    → IsUsable w
    → server w.log (record portal_list_tenants { headers = carried w [] }) ≡ replied answer
    → (s' : SwitcherState) × (r : Browser) × (load_tenants server (some platform) true s w
        ≡ (ok s', r))
      × (s'.tenants ≡ get_or answer [])
      × ((seen_choice r ≡ "") ⊎ IsRegistered (get_or answer []) (seen_choice r))
unfolding load_tenants settle
load_tenants-IsRegistered server answer s w usable replies =
    let after = after_send w portal_list_tenants in
    let list = get_or answer [] in
    let (s', r, run, tenants, choice) =
      take_tenants_lem list s after
        (record { unblocked = usable.unblocked; writable = usable.writable }) in
    (
      s',
      r,
      rw (call_lem server portal_list_tenants w usable.unblocked, replies) (rw run),
      tenants,
      rw choice (remaining-IsRegistered list (seen_choice after)),
    )

abbrev home_of : String → String
home_of key = if nonempty key then "/tenant/credentials" else "/dashboard"

home_of-IsServed :
    (u : User) (key : String)
    → u.user_type ≡ some platform
    → IsServed (home_of key) (granted true (some u) key)
home_of-IsServed u key type = elim (Bool-cases (nonempty key)) [
  | inl full ↦
      rw (type, full)
        (serves-IsServed "/tenant/credentials" ("canTenantAdmin" ∷ []) _ landings_served.1 refl)
  | inr empty ↦
      rw (type, empty) (serves-IsServed "/dashboard" ("canPlatform" ∷ []) _ landings_served.0 refl)
]

-- The browser in which a platform user has chosen a key.
abbrev pub switched : String → Browser → Browser
switched key w = record w {
  local = update w.local choice_key (some key);
  pathname = home_of key;
  log = assigned (home_of key) ∷ w.log;
}

apply_choice_lem :
    (key : String) (w : Browser)
    → IsUsable w
    → apply_choice (some platform) key w ≡ (ok tt, switched key w)
unfolding apply_choice write_tenant_choice
apply_choice_lem key w usable =
    by_usable (λ x. apply_choice (some platform) key x ≡ (ok tt, switched key x)) w usable refl

-- A platform user who picks an entry of the registry, or the cross-tenant view, in a browser whose
-- storage works: the choice that is read is the picked key, empty for the cross-tenant view, and the
-- page that is opened is in the route table and open under the access flags of that choice.
pub pick-IsServed :
    (json : Codec) (u : User) (v : String) (w : Browser)
    → IsUsable w
    → HasSession json w u
    → u.user_type ≡ some platform
    → (r : Browser) × (pick v w ≡ (ok tt, r))
      × (seen_choice r ≡ (if v == cross_view then "" else v))
      × (access json r ≡ (ok (granted true (some u) (seen_choice r)), r))
      × IsServed r.pathname (granted true (some u) (seen_choice r))
unfolding pick
pick-IsServed json u v w usable session type =
    let key = if v == cross_view then "" else v in
    let r = switched key w in
    let chosen : seen_choice r ≡ key = ground arith in
    let seen : seen_user json r ≡ some u = ground arith in
    (
      r,
      apply_choice_lem key w usable,
      chosen,
      access_lem json r usable.unblocked ∙ (rw (seen, session.token)),
      rw chosen (home_of-IsServed u key type),
    )

-- ===== src/Scope/Laws.antt =====
-- What a tenant view shows, what it lets a user manage, and the filters against their options.
use testkit_service.Prelude.{
  String, Bool, true, false, Option, some, List, keep, truthy, is_text, is_text_iff, ◌==◌, ◌≡◌, ◌≢◌,
  ◌↔◌, ◌⊎◌, refl, inl, arith, eq_iff, nonempty_iff, Listed, Listed-keep, Bool-cases, ◌&&◌, not,
  if◌then◌else◌,
}
use testkit_service.Browser.{Browser, ok}
use testkit_service.Choice.Laws.{seen_choice, read_tenant_choice_lem}
use testkit_service.Identity.{User, type_of, platform}
use testkit_service.Scope.{
  TenantView, use_tenant_view, scope_of, is_other, can_manage, filter_tenant_rows,
}

-- The view of a browser is a function of the user and of the stored choice.
abbrev pub view_of : Option User → Browser → TenantView
view_of user w = record {
  tenant_key = seen_choice w;
  cross_view = is_text (type_of user) platform && seen_choice w == "";
  is_platform = is_text (type_of user) platform;
}

pub use_tenant_view_lem :
    (user : Option User) (w : Browser) → use_tenant_view user w ≡ (ok (view_of user w), w)
unfolding use_tenant_view
use_tenant_view_lem user w = rw (read_tenant_choice_lem w)

-- A row is visible in a view: everything in the cross-tenant view, else the pool and the own rows.
abbrev pub IsVisible : TenantView → Option String → Type 0
IsVisible view row =
    (view.cross_view ≡ true) ⊎ ((truthy row ≡ false) ⊎ (row ≡ some view.tenant_key))

other_iff :
    (view : TenantView) (row : Option String)
    → (not (is_other (scope_of view row)) ≡ true)
      ↔ ((truthy row ≡ false) ⊎ ((view.cross_view ≡ false) × (row ≡ some view.tenant_key)))
unfolding scope_of
other_iff view row = ground (arith, is_text_iff row view.tenant_key)

unless_kept :
    {T : Type 0} (everything : Bool) (p : T → Bool) (rows : List T) (r : T)
    → Listed r (if everything then rows else keep p rows)
      ↔ (Listed r rows × ((everything ≡ true) ⊎ (p r ≡ true)))
unless_kept true p rows r = (λ h. (h, inl refl), λ h. h.0)
unless_kept false p rows r = ground (arith, Listed-keep p rows r)

-- A list in a view holds exactly the rows of the loaded list that are visible in the view: in the
-- cross-tenant view all of them, and else those of the platform's pool and of the view's tenant.
pub filter_tenant_rows-IsVisible :
    {T : Type 0} (get_key : T → Option String) (view : TenantView) (rows : List T) (r : T)
    → Listed r (filter_tenant_rows get_key view rows) ↔ (Listed r rows × IsVisible view (get_key r))
unfolding filter_tenant_rows
filter_tenant_rows-IsVisible {T} get_key view rows r =
    let shown = λ (x : T). not (is_other (scope_of view (get_key x))) in
    ground (
      arith,
      unless_kept view.cross_view shown rows r,
      other_iff view (get_key r),
      Bool-cases view.cross_view,
    )

-- Platform staff manage every row. Everybody else manages exactly the private rows of the chosen
-- tenant: never a row of the platform's pool, never another tenant's.
pub can_manage_iff :
    (user : Option User) (w : Browser) (row : Option String)
    → (can_manage (view_of user w) row ≡ true)
      ↔ ((type_of user ≡ some platform) ⊎ ((row ≡ some (seen_choice w)) × (seen_choice w ≢ "")))
unfolding can_manage
can_manage_iff user w row = ground (
  arith,
  is_text_iff (type_of user) platform,
  is_text_iff row (seen_choice w),
  nonempty_iff (seen_choice w),
  eq_iff (seen_choice w) "",
)

-- What a user other than platform staff may manage is shown.
pub can_manage-IsVisible :
    (user : Option User) (w : Browser) (row : Option String)
    → type_of user ≢ some platform
    → can_manage (view_of user w) row ≡ true
    → IsVisible (view_of user w) row
can_manage-IsVisible user w row staff h = ground (arith, can_manage_iff user w row)

-- ===== src/Scope.antt =====
-- web/src/components/tenantScope.tsx: what a row of a resource is to the current view, who may
-- manage it, and the filters of the lists. A row's tenant key may be absent (the platform's pool).
pub mod Laws
pub mod Filters
use testkit_service.Prelude.{
  String, Bool, true, false, Option, none, some, List, [], ◌∷◌, ◌++◌, map, keep, includes, truthy,
  is_text, get_or, ◌==◌, ◌&&◌, ◌||◌, not, if◌then◌else◌,
}
use testkit_service.Browser.{M, pure, ◌>>=◌}
use testkit_service.Choice.{read_tenant_choice}
use testkit_service.Identity.{User, type_of, platform}

abbrev pub filter_all : String
filter_all = "__all__"

abbrev pub filter_pool : String
filter_pool = "__platform_pool__"

pub data TenantScope : Type 0 where
  from_platform own other : TenantScope

-- TenantView, its data fields; the two methods are `scope_of` and `can_manage`.
pub record TenantView : Type 0 where
  pub tenant_key : String
  pub cross_view : Bool
  pub is_platform : Bool

-- useTenantView
unfoldable pub use_tenant_view : Option User → M TenantView
use_tenant_view current_user = do
  tenant_key ← read_tenant_choice
  let is_platform = is_text (type_of current_user) platform
  pure (record {
    tenant_key = tenant_key;
    cross_view = is_platform && tenant_key == "";
    is_platform = is_platform;
  })

-- scopeOf
unfoldable pub scope_of : TenantView → Option String → TenantScope
scope_of view row =
    if not (truthy row)
    then from_platform
    else (if not view.cross_view && is_text row view.tenant_key then own else other)

abbrev pub is_own : TenantScope → Bool
is_own own = true
is_own _ = false

abbrev pub is_other : TenantScope → Bool
is_other other = true
is_other _ = false

-- canManage
unfoldable pub can_manage : TenantView → Option String → Bool
unfolding scope_of
can_manage view row = view.is_platform || is_own (scope_of view row)

-- renderTenantScope: the colour and the text of the tag
unfoldable pub render_tenant_scope : TenantView → Option String → Option String × Option String
unfolding scope_of
render_tenant_scope view row =
    if view.cross_view
    then (if truthy row then (some "purple", row) else (none, some "平台池"))
    else scope_tag (scope_of view row)
  where
    scope_tag : TenantScope → Option String × Option String
    scope_tag from_platform = (some "geekblue", some "平台共享")
    scope_tag own = (some "green", some "本租户")
    scope_tag other = (some "red", row)

-- `new Set(keys)` as a list, in the order of first insertion
abbrev pub distinct_from : List String → List String → List String
distinct_from seen [] = []
distinct_from seen (k ∷ ks) =
    if includes seen k then distinct_from seen ks else k ∷ distinct_from (k ∷ seen) ks

abbrev insert_sorted : (String → String → Bool) → String → List String → List String
insert_sorted before k [] = k ∷ []
insert_sorted before k (j ∷ js) = if before k j then k ∷ j ∷ js else j ∷ insert_sorted before k js

-- `.sort()` by an order of texts
abbrev pub sort_texts : (String → String → Bool) → List String → List String
sort_texts before [] = []
sort_texts before (k ∷ ks) = insert_sorted before k (sort_texts before ks)

-- `.filter((k) => !!k)` on optional texts
abbrev pub present : List (Option String) → List String
present [] = []
present (o ∷ os) = if truthy o then get_or o "" ∷ present os else present os

module _ {T : Type 0} (get_key : T → Option String) where
  -- filterTenantRows
  unfoldable pub filter_tenant_rows : TenantView → List T → List T
  filter_tenant_rows view rows =
      if view.cross_view then rows else keep (λ r. not (is_other (scope_of view (get_key r)))) rows

  -- tenantFilterOptions: values and labels. The order of texts is a parameter: JavaScript's
  -- compares UTF-16 units.
  unfoldable pub tenant_filter_options : (String → String → Bool) → List T → List (String × String)
  tenant_filter_options before rows =
      (filter_all, "全部租户")
      ∷ (filter_pool, "平台池")
      ∷ map (λ k. (k, k)) (sort_texts before (distinct_from [] (present (map get_key rows))))

  -- applyTenantFilter
  unfoldable pub apply_tenant_filter : String → List T → List T
  apply_tenant_filter filter rows =
      if filter == filter_all
      then rows
      else (if filter == filter_pool
          then keep (λ r. not (truthy (get_key r))) rows
          else keep (λ r. is_text (get_key r) filter) rows)

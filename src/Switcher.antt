-- ===== src/Switcher.antt =====
-- web/src/components/TenantSwitcher.tsx: the switcher of the top bar. It offers a tenant admin the
-- bound tenants and a platform user the registry, and applies a choice.
pub mod Laws
use testkit_service.Prelude.{
  ℕ, ◌+◌, String, Bool, true, false, Option, none, some, List, [], ◌∷◌, ◌==◌, ◌&&◌, not, map, keep,
  any, truthy, get_or, is_text, nonempty, or_undefined, or_else, if◌then◌else◌,
}
use Prim.Native.String
use testkit_service.Browser.{M, pure, ok, ◌>>=◌, ◌>>◌, catch, emit, navigate, assigned, reloaded}
use testkit_service.Choice.{
  Membership, read_tenant_choice, write_tenant_choice, clear_tenant_choice,
}
use testkit_service.Identity.{platform, tenant_admin}
use testkit_service.Request.{Server, call}
use testkit_service.Services.{portal_list_tenants}

-- API.TenantInfo, the fields that the switcher reads
pub record TenantInfo : Type 0 where
  pub tenant_key : Option String
  pub name : Option String

abbrev pub cross_view : String
cross_view = "__cross_view__"

-- tenantLabel
unfoldable pub tenant_label : Option String → Option String → String
tenant_label name key =
    if truthy name
    then String.◌++◌ (get_or name "") (String.◌++◌ "（" (String.◌++◌ (get_or key "") "）"))
    else get_or key ""

-- the component's state
pub record SwitcherState : Type 0 where
  pub tenants : List TenantInfo
  pub choice_rev : ℕ

-- what follows the answer of ListTenants in a component that is still mounted
unfoldable pub take_tenants : List TenantInfo → SwitcherState → M SwitcherState
take_tenants list s = do
  stored ← read_tenant_choice
  let drop = do clear_tenant_choice; pure (record { tenants = list; choice_rev = s.choice_rev + 1 })
  let is_gone = nonempty stored && not (any (λ (t : TenantInfo). is_text t.tenant_key stored) list)
  if is_gone then drop else pure (record s { tenants = list })

-- the effect: a failure is caught and leaves the state; `alive` is false once it was unmounted
unfoldable pub load_tenants :
    Server (Option (List TenantInfo)) → Option String → Bool → SwitcherState → M SwitcherState
load_tenants server user_type alive s =
    if not (is_text user_type platform)
    then pure s
    else catch
        (do
          resp ← call server portal_list_tenants
          if not alive then pure s else take_tenants (get_or resp []) s)
        (λ _. pure s)

-- applyChoice
unfoldable pub apply_choice : Option String → String → M (Unit {0})
apply_choice user_type key = do
  write_tenant_choice key
  let target = if nonempty key then "/tenant/credentials" else "/dashboard"
  if is_text user_type platform then navigate assigned target else emit reloaded

-- onChange of a platform user's list
unfoldable pub pick : String → M (Unit {0})
pick v = apply_choice (some platform) (if v == cross_view then "" else v)

-- tenantOptions: values and labels
unfoldable pub tenant_options : List TenantInfo → List (String × String)
tenant_options tenants =
    map (λ t. (get_or t.tenant_key "", tenant_label t.name t.tenant_key))
      (keep (λ (t : TenantInfo). truthy t.tenant_key) tenants)

-- What is rendered: nothing, the red tag of an admin without tenants, the list of the bound tenants,
-- or the registry, behind the tag of the cross-tenant view where no choice is stored.
pub data Rendered : Type 0 where
  nothing unbound : Rendered
  bound_list : (value : Option String) → List (String × String) → Rendered
  registry : (cross_tag : Bool) (value : String) → List (String × String) → Rendered

abbrev admin_list : String → List Membership → Rendered
admin_list choice [] = unbound
admin_list choice (m ∷ []) = nothing
admin_list choice (m ∷ n ∷ ms) = bound_list (or_undefined (some choice)) (
    map (λ (b : Membership). (get_or b.tenant_key "", tenant_label b.tenant_name b.tenant_key))
      (m ∷ n ∷ ms))

-- the component's result, for the choice that is stored
unfoldable pub render_switcher :
    Option String → Option (List Membership) → List TenantInfo → String → Rendered
render_switcher user_type memberships tenants choice =
    if is_text user_type tenant_admin
    then admin_list choice (get_or memberships [])
    else (if is_text user_type platform
        then registry (not (nonempty choice)) (or_else (some choice) cross_view)
            ((cross_view, "跨租户（全部）") ∷ tenant_options tenants)
        else nothing)

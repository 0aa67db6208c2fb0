-- ===== src/Choice.antt =====
-- web/src/utils/tenantChoice.ts: the tenant that a management request operates as, kept in local
-- storage. Storage failures are caught here and never reach the caller.
pub mod Laws
use testkit_service.Prelude.{
  String, Option, none, some, List, [], ◌∷◌, map, keep, first, includes, get_or, nonempty,
  if◌then◌else◌,
}
use testkit_service.Browser.{
  M, pure, ◌>>=◌, ◌>>◌, catch, get_item, set_item, remove_item, choice_key,
}

-- API.TenantMembership, the fields that the console reads.
pub record Membership : Type 0 where
  pub tenant_key : Option String
  pub tenant_name : Option String

-- readTenantChoice
unfoldable pub read_tenant_choice : M String
read_tenant_choice = catch (do pure (get_or (← get_item choice_key) "")) (λ _. pure "")

-- writeTenantChoice
unfoldable pub write_tenant_choice : String → M (Unit {0})
write_tenant_choice key = catch (set_item choice_key key) (λ _. pure tt)

-- clearTenantChoice
unfoldable pub clear_tenant_choice : M (Unit {0})
clear_tenant_choice = catch (remove_item choice_key) (λ _. pure tt)

-- `memberships.map((m) => m.tenantKey ?? "").filter(Boolean)`
unfoldable pub bound_keys : List Membership → List String
bound_keys memberships = keep nonempty (map (λ m. get_or m.tenant_key "") memberships)

-- ensureTenantChoice
unfoldable pub ensure_tenant_choice : List Membership → M String
unfolding read_tenant_choice write_tenant_choice bound_keys
ensure_tenant_choice memberships = do
  stored ← read_tenant_choice
  let keys = bound_keys memberships
  let fallback = get_or (first keys) ""
  if includes keys stored then pure stored else (do write_tenant_choice fallback; pure fallback)

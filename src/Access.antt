-- ===== src/Access.antt =====
-- web/src/access.ts: the three flags that gate the routes.
pub mod Laws
use testkit_service.Prelude.{
  String, Bool, Option, none, some, ◌&&◌, ◌||◌, not, truthy, is_text, nonempty, true, false,
  if◌then◌else◌,
}
use testkit_service.Browser.{M, pure, ◌>>=◌, get_item, token_key}
use testkit_service.Identity.{User, Codec, read_user, type_of, platform, tenant_admin}
use testkit_service.Choice.{read_tenant_choice}

pub record Access : Type 0 where
  pub can_user : Bool
  pub can_platform : Bool
  pub can_tenant_admin : Bool

abbrev is_user : Option User → Bool
is_user none = false
is_user (some u) = true

-- access
unfoldable pub access : Codec → M Access
access json = do
  user ← read_user json
  token ← get_item token_key
  let logged_in = truthy token && is_user user
  let type = type_of user
  choice ← read_tenant_choice
  let drilled = is_text type platform && nonempty choice
  pure (record {
    can_user = logged_in;
    can_platform = logged_in && is_text type platform && not drilled;
    can_tenant_admin = logged_in && (is_text type tenant_admin || is_text type platform);
  })

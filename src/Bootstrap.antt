-- ===== src/Bootstrap.antt =====
-- web/src/app.tsx: the state that the layout starts from, and the two gates that send a visitor
-- elsewhere. `who` answers WhoAmI; JSON is a parameter.
pub mod Laws
pub mod Gates
pub mod Recovery
pub mod GateLaws
use testkit_service.Prelude.{
  String, Bool, Option, none, some, List, [], ◌&&◌, ◌||◌, not, truthy, get_or, is_text, nonempty,
  if◌then◌else◌, true, false,
}
use testkit_service.Browser.{M, pure, throw, ◌>>=◌, ◌>>◌, catch, get_item, token_key, Failure}
use testkit_service.Choice.{
  Membership, read_tenant_choice, clear_tenant_choice, ensure_tenant_choice,
}
use testkit_service.Identity.{User, Codec, read_user, tenant_admin}
use testkit_service.Request.{Server, call, status_of, has_status}
use testkit_service.Services.{portal_who_am_i}

pub record InitialState : Type 0 where
  pub current_user : Option User
  pub tenant_memberships : Option (List Membership)

abbrev pub state : Option User → Option (List Membership) → InitialState
state user memberships = record { current_user = user; tenant_memberships = memberships }

-- WhoAmIResponse.memberships
abbrev pub WhoAmI : Type 0
WhoAmI = Server (Option (List Membership))

-- the body that both `try` blocks share
unfoldable pub learn_bindings : WhoAmI → User → M InitialState
learn_bindings who user = do
  answer ← call who portal_who_am_i
  let memberships = get_or answer []
  _ ← ensure_tenant_choice memberships
  pure (state (some user) (some memberships))

-- the outer `catch`: a 403 with a stored choice is retried once without it
unfoldable pub recover_bindings : WhoAmI → User → Failure → M InitialState
recover_bindings who user error = do
  choice ← read_tenant_choice
  let degraded = state (some user) (some [])
  let retry = clear_tenant_choice >> catch (learn_bindings who user) (λ _. pure degraded)
  if has_status (status_of error) 403 && nonempty choice then retry else pure degraded

-- getInitialState, once the user and the token have been read
unfoldable pub start_state : WhoAmI → Option User → Bool → M InitialState
start_state who none has_token = pure (state none none)
start_state who (some user) has_token =
    if not has_token
    then pure (state none none)
    else (if not (is_text user.user_type tenant_admin)
        then pure (state (some user) none)
        else catch (learn_bindings who user) (recover_bindings who user))

-- getInitialState
unfoldable pub get_initial_state : Codec → WhoAmI → M InitialState
get_initial_state json who = do
  current_user ← read_user json
  token ← get_item token_key
  start_state who current_user (truthy token)

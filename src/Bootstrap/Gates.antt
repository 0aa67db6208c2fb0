-- ===== src/Bootstrap/Gates.antt =====
-- web/src/app.tsx: `render` and the layout's `onPageChange`, which look at the address.
use testkit_service.Prelude.{
  String, Bool, List, [], ◌∷◌, ◌&&◌, not, truthy, get_or, is_text, nonempty, any, has_prefix,
  if◌then◌else◌, false,
}
use testkit_service.Browser.{
  M, pure, ok, throw, thrown, ◌>>=◌, ◌>>◌, when, catch, get_item, emit, at_path, navigate, pushed,
  replaced, rendered, token_key, user_key,
}
use testkit_service.Choice.{read_tenant_choice}
use testkit_service.Identity.{Codec, Parsed, invalid, falsy, object, platform}

abbrev pub login_path : String
login_path = "/user/login"

abbrev pub public_prefix : String
public_prefix = "/user/"

-- render
unfoldable pub render : M (Unit {0})
render = do
  token ← get_item token_key
  is_public ← at_path public_prefix
  when (not (truthy token) && not is_public) (navigate pushed login_path)
  emit rendered

abbrev pub tenant_visible : List String
tenant_visible =
    "/tenant/credentials" ∷ "/tenant/files" ∷ "/files" ∷ "/storage" ∷ "/profile" ∷ "/identity"
    ∷ "/sessions" ∷ "/message/admin" ∷ "/telemetry" ∷ []

-- `user?.userType === 'USER_TYPE_PLATFORM'`, of what `JSON.parse` gave
abbrev pub is_platform : Parsed → M Bool
is_platform invalid = throw (thrown "SyntaxError")
is_platform falsy = pure false
is_platform (object u) = pure (is_text u.user_type platform)

abbrev pub pathname : M String
pathname w = (ok w.pathname, w)

-- the `try` block of onPageChange
unfoldable pub fall_back : Codec → Bool → M (Unit {0})
fall_back json on_login = do
  raw ← get_item user_key
  from_platform ← is_platform (json.parse (get_or raw "{}"))
  choice ← read_tenant_choice
  path ← pathname
  when
      (from_platform
        && nonempty choice
        && not on_login
        && not (any (has_prefix path) tenant_visible))
      (navigate replaced "/tenant/capabilities")

-- onPageChange
unfoldable pub on_page_change : Codec → M (Unit {0})
on_page_change json = do
  token ← get_item token_key
  on_login ← at_path login_path
  let gate = catch (fall_back json on_login) (λ _. pure tt)
  if not (truthy token) && not on_login then navigate pushed login_path else gate

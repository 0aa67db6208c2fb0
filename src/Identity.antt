-- ===== src/Identity.antt =====
-- The signed-in user as the console keeps it: API.User in local storage as JSON, its three user
-- types, and where each lands (web/src/utils/landing.ts). JSON is a parameter.
pub mod Laws
use testkit_service.Prelude.{
  String, Bool, true, Option, none, some, ◌≡◌, truthy, get_or, is_text, nonempty, if◌then◌else◌,
}
use testkit_service.Browser.{M, pure, ◌>>=◌, catch, get_item, user_key, throw, thrown}

-- API.User, the fields that the console's session code reads.
pub record User : Type 0 where
  pub user_type : Option String
  pub nickname : Option String
  pub username : Option String

-- What `JSON.parse` may answer: a syntax error, null or another falsy value, or a value.
pub data Parsed : Type 0 where
  invalid falsy : Parsed
  object : User → Parsed

pub record Codec : Type 0 where
  pub parse : String → Parsed
  pub print : User → String

-- What the console relies on: `JSON.parse` reads what `JSON.stringify` wrote, which is never "".
pub record IsRoundTrip (json : Codec) : Type 0 where
  pub parse_print : (u : User) → json.parse (json.print u) ≡ object u
  pub print_nonempty : (u : User) → nonempty (json.print u) ≡ true

abbrev pub platform : String
platform = "USER_TYPE_PLATFORM"

abbrev pub tenant_admin : String
tenant_admin = "USER_TYPE_TENANT_ADMIN"

abbrev parsed : Parsed → M (Option User)
parsed invalid = throw (thrown "SyntaxError")
parsed falsy = pure none
parsed (object u) = pure (some u)

-- readUser, as access.ts and app.tsx both have it
unfoldable pub read_user : Codec → M (Option User)
read_user json =
    catch
      (do
        raw ← get_item user_key
        if truthy raw then parsed (json.parse (get_or raw "")) else pure none)
      (λ _. pure none)

-- `user?.userType`
abbrev pub type_of : Option User → Option String
type_of none = none
type_of (some u) = u.user_type

-- postLoginTarget
unfoldable pub post_login_target : Option String → String
post_login_target user_type =
    if is_text user_type platform
    then "/dashboard"
    else (if is_text user_type tenant_admin then "/tenant/credentials" else "/profile")

-- ===== src/Access/Laws.antt =====
-- Who may open which pages.
use testkit_service.Prelude.{
  String, Bool, true, false, Option, none, some, ◌≡◌, ◌↔◌, ◌⊎◌, refl, arith, truthy, get_or,
  nonempty, is_text, ◌&&◌, ◌||◌, not, is_text_iff, nonempty_iff,
}
use testkit_service.Browser.{Browser, ok, token_key, user_key}
use testkit_service.Choice.Laws.{seen_choice, read_tenant_choice_lem}
use testkit_service.Identity.Laws.{seen_user, read_user_lem}
use testkit_service.Identity.{User, Codec, object, platform, tenant_admin, type_of}
use testkit_service.Access.{Access, access, is_user}

-- A stored session: a token and a user that parses.
pub record HasSession (json : Codec) (w : Browser) (u : User) : Type 0 where
  pub token : truthy (w.local token_key) ≡ true
  pub cached : truthy (w.local user_key) ≡ true
  pub parsed : json.parse (get_or (w.local user_key) "") ≡ object u

-- The flags as a function of the token, the user and the choice that are read.
abbrev pub granted : Bool → Option User → String → Access
granted has_token user choice =
    let logged_in = has_token && is_user user in
    let type = type_of user in
    record {
      can_user = logged_in;
      can_platform =
          logged_in && is_text type platform && not (is_text type platform && nonempty choice);
      can_tenant_admin = logged_in && (is_text type tenant_admin || is_text type platform);
    }

pub access_lem :
    (json : Codec) (w : Browser)
    → w.blocked ≡ false
    → access json w
      ≡ (ok (granted (truthy (w.local token_key)) (seen_user json w) (seen_choice w)), w)
unfolding access
access_lem json w b = rw (read_user_lem json w) (simp (b, read_tenant_choice_lem w))

granted-platform :
    (u : User) (choice : String)
    → ((granted true (some u) choice).can_platform ≡ true)
      ↔ ((u.user_type ≡ some platform) × (choice ≡ ""))
granted-platform u choice = ground (arith, is_text_iff u.user_type platform, nonempty_iff choice)

granted-tenant_admin :
    (u : User) (choice : String)
    → ((granted true (some u) choice).can_tenant_admin ≡ true)
      ↔ ((u.user_type ≡ some tenant_admin) ⊎ (u.user_type ≡ some platform))
granted-tenant_admin u choice =
    ground (arith, is_text_iff u.user_type platform, is_text_iff u.user_type tenant_admin)

-- With a stored session and readable storage: every user has the self-service pages, the platform
-- pages are open exactly to a platform user with no tenant chosen, and the tenant pages exactly to
-- tenant admins and platform users.
pub access-session :
    (json : Codec) (w : Browser) (u : User)
    → w.blocked ≡ false
    → HasSession json w u
    → (a : Access) × (access json w ≡ (ok a, w))
      × (a.can_user ≡ true)
      × ((a.can_platform ≡ true) ↔ ((u.user_type ≡ some platform) × (seen_choice w ≡ "")))
      × ((a.can_tenant_admin ≡ true)
          ↔ ((u.user_type ≡ some tenant_admin) ⊎ (u.user_type ≡ some platform)))
unfolding access
access-session json w u b s =
    let seen : seen_user json w ≡ some u = ground arith in
    (
      granted true (some u) (seen_choice w),
      rw (access_lem json w b, s.token, seen),
      refl,
      granted-platform u (seen_choice w),
      granted-tenant_admin u (seen_choice w),
    )

-- With no token stored nothing is open.
pub access-signed_out :
    (json : Codec) (w : Browser)
    → w.blocked ≡ false
    → w.local token_key ≡ none
    → access json w
      ≡ (ok (record { can_user = false; can_platform = false; can_tenant_admin = false }), w)
access-signed_out json w b t = rw (access_lem json w b, t)

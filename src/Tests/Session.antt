-- ===== src/Tests/Session.antt =====
-- Sessions at concrete browsers and servers: their end, their start, what they open and carry.
use testkit_service.Prelude.{
  ℕ, String, true, false, Option, none, some, List, [], ◌∷◌, ◌++◌, ◌≡◌, ◌≢◌, refl, truthy,
  if◌then◌else◌, ◌↔◌, ◌⊎◌, All, lookup, Holds, has_prefix, includes, arith,
}
use testkit_service.Browser.{
  Browser, Effect, ok, err, http, assigned, sent, token_key, user_key, choice_key,
}
use testkit_service.Request.{Server, replied, failed, error_handler}
use testkit_service.Request.Laws.{carried, error_handler-unauthorized}
use testkit_service.Services.{logout}
use testkit_service.Choice.{Membership, ensure_tenant_choice, bound_keys}
use testkit_service.Choice.Laws.{seen_choice, ensure_tenant_choice-bound}
use testkit_service.Identity.{platform, tenant_admin, post_login_target}
use testkit_service.Identity.Laws.{seen_user}
use testkit_service.Access.{Access, access}
use testkit_service.Access.Laws.{granted, HasSession, access-session}
use testkit_service.Session.{end_session}
use testkit_service.Session.Laws.{IsSignedOut, end_session-IsSignedOut}
use testkit_service.Bootstrap.{InitialState, WhoAmI, state, get_initial_state}
use testkit_service.Bootstrap.Laws.{asked, choiceless}
use testkit_service.Bootstrap.Recovery.{
  IsFaithful, get_initial_state-recovers, get_initial_state-IsFaithful,
}
use testkit_service.Login.{TokenResponse, submit_login}
use testkit_service.Login.Laws.{submit_login-HasSession}
use testkit_service.Tests.Data.{
  json, json-IsRoundTrip, staff, admin, empty_at, with_session, with_session-HasSession,
  with_session-IsUsable,
}

-- A gateway that takes the session for expired.
abbrev expired : Server (Unit {0})
expired log req = failed (http (some 401) none none)

abbrev desk : Browser
desk = with_session admin "t9" "/storage/upload"

end_session-IsSignedOut_example :
    (later : List Effect) × (r : Browser) × (end_session expired desk ≡ (ok tt, r))
    × IsSignedOut r
    × (r.log ≡ later ++ sent (record logout { headers = carried desk [] }) ∷ desk.log)
    × All (λ e. e ≡ assigned "/user/login") later
    × (access json r
        ≡ (ok (record { can_user = false; can_platform = false; can_tenant_admin = false }), r))
end_session-IsSignedOut_example = end_session-IsSignedOut expired desk json refl

-- WhoAmI refuses a request that carries a choice, and binds the others to one tenant.
abbrev bindings : List Membership
bindings = record { tenant_key = some "t1"; tenant_name = none } ∷ []

abbrev strict : WhoAmI
strict log req =
    if truthy (lookup "x-tenant-choice" req.headers)
    then failed (http (some 403) none none)
    else replied (some bindings)

chosen_desk : seen_choice desk ≢ ""
chosen_desk e = cc

get_initial_state-recovers_example :
    (r : Browser) × (get_initial_state json strict desk
      ≡ (ok (state (some admin) (some bindings)), r))
    × (r.log ≡ asked (choiceless desk) ∷ asked desk ∷ desk.log)
    × (lookup "x-tenant-choice" (carried (choiceless desk) []) ≡ none)
    × (((bound_keys bindings ≡ []) × (seen_choice r ≡ ""))
        ⊎ Holds (seen_choice r) (bound_keys bindings))
get_initial_state-recovers_example =
    get_initial_state-recovers strict admin desk json (some bindings) none none
      (with_session-IsUsable admin "t9" "/storage/upload")
      (with_session-HasSession admin "t9" "/storage/upload") refl chosen_desk refl refl

get_initial_state-IsFaithful_example :
    (s : InitialState) × (r : Browser) × (get_initial_state json strict desk ≡ (ok s, r))
    × IsFaithful (if truthy (desk.local token_key) then seen_user json desk else none) s
get_initial_state-IsFaithful_example = get_initial_state-IsFaithful json strict desk refl

access-session_example :
    (a : Access) × (access json desk ≡ (ok a, desk))
    × (a.can_user ≡ true)
    × ((a.can_platform ≡ true) ↔ ((admin.user_type ≡ some platform) × (seen_choice desk ≡ "")))
    × ((a.can_tenant_admin ≡ true)
        ↔ ((admin.user_type ≡ some tenant_admin) ⊎ (admin.user_type ≡ some platform)))
access-session_example =
    access-session json desk admin refl (with_session-HasSession admin "t9" "/storage/upload")

abbrev form : Browser
form = empty_at "/user/login"

abbrev accepting : Server TokenResponse
accepting log req = replied (record { token = some "t1"; user = some staff })

platform_ne : staff.user_type ≢ some tenant_admin
platform_ne e = cc

submit_login-HasSession_example :
    (r : Browser) × (submit_login json strict accepting "ann" "secret" form ≡ (ok true, r))
    × (r.local token_key ≡ some "t1")
    × (r.local user_key ≡ some (json.print staff))
    × HasSession json r staff
    × (seen_choice r ≡ "")
    × (r.pathname ≡ post_login_target staff.user_type)
    × (access json r ≡ (ok (granted true (some staff) ""), r))
submit_login-HasSession_example =
    submit_login-HasSession json strict staff "t1" json-IsRoundTrip refl platform_ne accepting "ann"
      "secret" form (record { unblocked = refl; writable = refl }) refl

not_unauthorized : ◌≢◌ {A = Option ℕ} (some 400) (some 401)
not_unauthorized e = ground (arith, e)

error_handler-unauthorized_example :
    let e = http (some 401) none none in
    let r = error_handler {A = ℕ} e desk in
    (r.0 ≡ err e)
    × (r.1.local token_key ≡ none)
    × (r.1.local user_key ≡ none)
    × (r.1.local choice_key ≡ none)
    × (has_prefix r.1.pathname "/user/login" ≡ true)
error_handler-unauthorized_example = error_handler-unauthorized desk none none refl

ensure_tenant_choice-bound_example :
    (k : String) × ((ensure_tenant_choice bindings desk).0 ≡ ok k)
    × (seen_choice (ensure_tenant_choice bindings desk).1 ≡ k)
    × (((bound_keys bindings ≡ []) × (k ≡ "")) ⊎ Holds k (bound_keys bindings))
    × ((k ≡ seen_choice desk) ⊎ (includes (bound_keys bindings) (seen_choice desk) ≡ false))
ensure_tenant_choice-bound_example =
    ensure_tenant_choice-bound desk bindings (with_session-IsUsable admin "t9" "/storage/upload")

-- ===== src/Login/Laws.antt =====
-- What a submit of the login form leaves behind.
use testkit_service.Prelude.{
  String, true, false, Option, none, some, List, [], ◌∷◌, ◌≡◌, ◌≢◌, ◌∙◌, refl, arith, is_text_iff,
  nonempty,
}
use testkit_service.Browser.{
  Browser, ok, Failure, pushed, toasted, success, error, token_key, user_key, choice_key, update,
}
use testkit_service.Browser.Laws.{IsUsable, by_usable}
use testkit_service.Access.{access}
use testkit_service.Access.Laws.{HasSession, granted, access_lem}
use testkit_service.Choice.{clear_tenant_choice}
use testkit_service.Choice.Laws.{seen_choice}
use testkit_service.Identity.{User, Codec, IsRoundTrip, tenant_admin, post_login_target}
use testkit_service.Identity.Laws.{seen_user}
use testkit_service.Bootstrap.{WhoAmI, state, start_state, get_initial_state}
use testkit_service.Bootstrap.Recovery.{get_initial_state_lem}
use testkit_service.Request.{Server, replied, failed, settle, status_of}
use testkit_service.Request.Laws.{carried, call_lem, after_send, error_handler-other}
use testkit_service.Services.{login}
use testkit_service.Login.{TokenResponse, biz_message, adopt, submit_login}

abbrev pub credentials : (username password : String) → List (String × Option String)
credentials username password =
    ("method", some "LOGIN_METHOD_USERNAME_PASSWORD")
    ∷ ("username", some username)
    ∷ ("password", some password)
    ∷ ("dialCode", some "+86")
    ∷ []

-- The storage of a browser in which `u` has just signed in with the token `t`.
abbrev pub signed_in : Codec → User → String → (String → Option String) → String → Option String
signed_in json u t local =
    update (update (update local choice_key none) token_key (some t)) user_key (some (json.print u))

-- Only a tenant admin's bootstrap makes a request.
start_state-other :
    (who : WhoAmI) (u : User) (w : Browser)
    → u.user_type ≢ some tenant_admin
    → start_state who (some u) true w ≡ (ok (state (some u) none), w)
unfolding start_state
start_state-other who u w ne = ground (arith, is_text_iff u.user_type tenant_admin)

module _ (json : Codec) (who : WhoAmI) (u : User) (t : String) (rt : IsRoundTrip json)
    (full : nonempty t ≡ true) (other : u.user_type ≢ some tenant_admin) where
  refreshed :
      (w : Browser)
      → w.blocked ≡ false
      → HasSession json w u
      → get_initial_state json who w ≡ (ok (state (some u) none), w)
  refreshed w b s =
      let seen : seen_user json w ≡ some u = ground arith in
      get_initial_state_lem json who w b ∙ (rw (seen, s.token) (start_state-other who u w other))

  -- The browser in which `u` has just signed in with the token `t`.
  abbrev pub stored : Browser → Browser
  stored w = record w { local = signed_in json u t w.local }

  stored-HasSession : (w : Browser) → HasSession json (stored w) u
  stored-HasSession w = record {
    token = full;
    cached = rt.print_nonempty u;
    parsed = rt.parse_print u;
  }

  pub adopt_lem :
      (missing : String) (welcome : User → String) (w : Browser)
      → IsUsable w
      → adopt json who missing welcome (record { token = some t; user = some u }) w ≡ (
        ok true,
        record (stored w) {
          pathname = post_login_target u.user_type;
          log = pushed (post_login_target u.user_type) ∷ toasted success (welcome u) ∷ w.log;
        },
      )
  unfolding adopt clear_tenant_choice
  adopt_lem missing welcome w usable =
      by_usable
        (λ v. adopt json who missing welcome (record { token = some t; user = some u }) v ≡ (
          ok true,
          record (stored v) {
            pathname = post_login_target u.user_type;
            log = pushed (post_login_target u.user_type) ∷ toasted success (welcome u) ∷ v.log;
          },
        ))
        w usable
        (rw full (
          rw (
            refreshed (stored (record w { blocked = false; full = false })) refl
              (stored-HasSession (record w { blocked = false; full = false })))))

  -- A login that the server accepts for a user who is not a tenant admin, in a browser whose storage
  -- works and where JSON reads back what it wrote: the form reports success, the browser is at the
  -- landing page of the user's type, storage holds the token of the answer and its user as JSON, which
  -- is a session, and no tenant choice of an earlier session is left.
  pub submit_login-HasSession :
      (server : Server TokenResponse) (username password : String) (w : Browser)
      → IsUsable w
      → server w.log (record (login (credentials username password)) {
        headers = carried w (("Content-Type", "application/json") ∷ []);
      })
        ≡ replied (record { token = some t; user = some u })
      → (r : Browser) × (submit_login json who server username password w ≡ (ok true, r))
        × (r.local token_key ≡ some t)
        × (r.local user_key ≡ some (json.print u))
        × HasSession json r u
        × (seen_choice r ≡ "")
        × (r.pathname ≡ post_login_target u.user_type)
        × (access json r ≡ (ok (granted true (some u) ""), r))
  unfolding submit_login settle
  submit_login-HasSession server username password w usable answered =
      let sent_from = after_send w (login (credentials username password)) in
      let r : Browser = record (stored sent_from) {
        pathname = post_login_target u.user_type;
        log = pushed (post_login_target u.user_type) ∷ toasted success "登录成功" ∷ sent_from.log;
      } in
      let session : HasSession json r u = record {
        token = full;
        cached = rt.print_nonempty u;
        parsed = rt.parse_print u;
      } in
      let b = usable.unblocked in
      let no_choice : seen_choice r ≡ "" = ground arith in
      let seen : seen_user json r ≡ some u = ground arith in
      (
        r,
        rw (call_lem server (login (credentials username password)) w b, answered)
            (rw (
              adopt_lem "登录失败：响应缺少 token 或用户信息" (λ _. "登录成功") sent_from
                (record { unblocked = b; writable = usable.writable }))),
        refl,
        refl,
        session,
        no_choice,
        refl,
        access_lem json r b ∙ (rw (seen, no_choice, session.token)),
      )

-- A login that the server refuses with a status other than 401: the form reports the failure and
-- stays, one message is shown, `data.message` before `response.data.message` before the fallback,
-- and storage and address are as they were.
pub submit_login-refused :
    (json : Codec) (who : WhoAmI) (server : Server TokenResponse) (username password : String)
    (e : Failure) (w : Browser)
    → w.blocked ≡ false
    → status_of e ≢ some 401
    → server w.log (record (login (credentials username password)) {
      headers = carried w (("Content-Type", "application/json") ∷ []);
    })
      ≡ failed e
    → submit_login json who server username password w ≡ (
      ok false,
      record w {
        log =
            toasted error (biz_message e "登录失败")
            ∷ (after_send w (login (credentials username password))).log;
      },
    )
unfolding submit_login settle
submit_login-refused json who server username password e w b other refused =
    rw (call_lem server (login (credentials username password)) w b, refused)
      (rw (
        error_handler-other {A = TokenResponse}
          (after_send w (login (credentials username password))) e other))

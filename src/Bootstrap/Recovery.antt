-- ===== src/Bootstrap/Recovery.antt =====
-- The whole of getInitialState: it always answers, and it recovers from a stale tenant choice.
use testkit_service.Prelude.{
  String, Bool, true, false, Option, none, some, List, [], ◌∷◌, ◌≡◌, ◌≢◌, ◌∙◌, refl, ◌⊎◌, inl, inr,
  arith, get_or, truthy, is_text, is_text_iff, Bool-cases, has_prefix, eq_iff, lookup, Holds,
  if◌then◌else◌, ◌↔◌,
}
use testkit_service.Browser.{Browser, Outcome, ok, err, Failure, http, catch, token_key}
use testkit_service.Browser.Laws.{IsUsable, >>=-eq}
use testkit_service.Access.Laws.{HasSession}
use testkit_service.Choice.{Membership, ensure_tenant_choice, bound_keys}
use testkit_service.Choice.Laws.{
  seen_choice, settled_bound, ensure_tenant_choice_lem, ensure_tenant_choice-seen,
  ensure_tenant_choice-log,
}
use testkit_service.Identity.{User, Codec, tenant_admin, type_of}
use testkit_service.Identity.Laws.{seen_user, read_user_lem}
use testkit_service.Request.{call, replied, failed, settle, error_handler, status_of}
use testkit_service.Request.Laws.{
  bearer, carried, call_lem, after_send, call-IsSettled, IsSettled, logged_out,
}
use testkit_service.Services.{portal_who_am_i}
use testkit_service.Bootstrap.{
  InitialState, state, WhoAmI, learn_bindings, recover_bindings, start_state, get_initial_state,
}
use testkit_service.Bootstrap.Laws.{
  asked, choiceless, learn_bindings_lem, recover_bindings_retry, recover_bindings_degraded,
}

-- The reading half of getInitialState.
pub get_initial_state_lem :
    (json : Codec) (who : WhoAmI) (w : Browser)
    → w.blocked ≡ false
    → get_initial_state json who w
      ≡ start_state who (seen_user json w) (truthy (w.local token_key)) w
unfolding get_initial_state
get_initial_state_lem json who w b = rw (read_user_lem json w) (simp b)

no_choice :
    (has_token : Bool) (value : String)
    → lookup "x-tenant-choice" (if has_token then ("Authorization", value) ∷ [] else []) ≡ none
no_choice true value = refl
no_choice false value = refl

module _ (who : WhoAmI) (u : User) (w : Browser) where
  -- A signed-in tenant admin is asked about.
  start_state-tenant_admin :
      u.user_type ≡ some tenant_admin
      → start_state who (some u) true w ≡ catch (learn_bindings who u) (recover_bindings who u) w
  unfolding start_state
  start_state-tenant_admin t = rw t

  learn_bindings_forbidden :
      (dm rm : Option String)
      → w.blocked ≡ false
      → who w.log (record portal_who_am_i { headers = carried w [] })
        ≡ failed (http (some 403) dm rm)
      → learn_bindings who u w ≡ (err (http (some 403) dm rm), after_send w portal_who_am_i)
  unfolding learn_bindings settle error_handler
  learn_bindings_forbidden dm rm b r = rw (call_lem who portal_who_am_i w b, r)

  get_initial_state_session :
      (json : Codec)
      → HasSession json w u
      → w.blocked ≡ false
      → get_initial_state json who w ≡ start_state who (some u) true w
  get_initial_state_session json session b =
      let seen : seen_user json w ≡ some u = ground arith in
      rw (get_initial_state_lem json who w b, seen, session.token)

  -- A tenant admin whose stored choice has gone stale, in a browser whose storage works: if WhoAmI
  -- answers 403 and then, without the choice, with a binding set, the initial state holds that set.
  -- The second request carries no `x-tenant-choice`, no third one is made, and the choice that is
  -- read from then on is a bound key, or empty where nothing is bound.
  pub get_initial_state-recovers :
      (json : Codec) (ms : Option (List Membership)) (dm rm : Option String)
      → IsUsable w
      → HasSession json w u
      → u.user_type ≡ some tenant_admin
      → seen_choice w ≢ ""
      → who w.log (record portal_who_am_i { headers = carried w [] })
        ≡ failed (http (some 403) dm rm)
      → who (asked w ∷ w.log) (record portal_who_am_i { headers = carried (choiceless w) [] })
        ≡ replied ms
      → (r : Browser) × (get_initial_state json who w
          ≡ (ok (state (some u) (some (get_or ms []))), r))
        × (r.log ≡ asked (choiceless w) ∷ asked w ∷ w.log)
        × (lookup "x-tenant-choice" (carried (choiceless w) []) ≡ none)
        × (((bound_keys (get_or ms []) ≡ []) × (seen_choice r ≡ ""))
            ⊎ Holds (seen_choice r) (bound_keys (get_or ms [])))
  get_initial_state-recovers json ms dm rm usable session type chosen first second =
      let w1 = after_send w portal_who_am_i in
      let w2 = after_send (choiceless w1) portal_who_am_i in
      let b = usable.unblocked in
      let keys = bound_keys (get_or ms []) in
      (
        (ensure_tenant_choice (get_or ms []) w2).1,
        get_initial_state_session json session b
            ∙ start_state-tenant_admin type
            ∙ (rw (learn_bindings_forbidden dm rm b first) (
                recover_bindings_retry who u (http (some 403) dm rm) w1 b refl chosen
                ∙ (rw (learn_bindings_lem who u (choiceless w1) ms b second)))),
        (ensure_tenant_choice-log w2 (get_or ms [])).0,
        no_choice (truthy (w.local token_key)) (bearer (choiceless w)),
        rw (ensure_tenant_choice-seen w2 (get_or ms []) usable2)
            (settled_bound (seen_choice w2) keys),
      )
    where
      usable2 : IsUsable (after_send (choiceless (after_send w portal_who_am_i)) portal_who_am_i)
      usable2 = record { unblocked = usable.unblocked; writable = usable.writable }

logged_out-blocked : (w : Browser) → w.blocked ≡ false → (logged_out w).blocked ≡ false
logged_out-blocked w b = elim (Bool-cases (has_prefix w.pathname "/user/login")) [
  | inl at ↦ rw at b
  | inr away ↦ rw away b
]

retry-cases :
    (f : Failure) (w : Browser)
    → ((status_of f ≡ some 403) × (seen_choice w ≢ ""))
      ⊎ ((status_of f ≢ some 403) ⊎ (seen_choice w ≡ ""))
retry-cases f w = ground (arith, eq_iff (seen_choice w) "")

-- How a run of the bootstrap ends for a tenant admin: with some binding set, or with an exception.
abbrev Answered : User → Outcome InitialState × Browser → Type 0
Answered u r = (ms : List Membership) × (v : Browser) × (r ≡ (ok (state (some u) (some ms)), v))

abbrev Thrown : Outcome InitialState × Browser → Type 0
Thrown r = (e : Failure) × (v : Browser) × (v.blocked ≡ false) × (r ≡ (err e, v))

module _ (who : WhoAmI) (u : User) where
  learn_bindings-cases :
      (w : Browser)
      → w.blocked ≡ false
      → Answered u (learn_bindings who u w) ⊎ Thrown (learn_bindings who u w)
  unfolding learn_bindings
  learn_bindings-cases w b = from_call (call-IsSettled who portal_who_am_i w b)
    where
      from_call :
          IsSettled (call who portal_who_am_i w) (after_send w portal_who_am_i)
          → Answered u (learn_bindings who u w) ⊎ Thrown (learn_bindings who u w)
      from_call (inl (ms, e)) = inl (
        get_or ms [],
        (ensure_tenant_choice (get_or ms []) (after_send w portal_who_am_i)).1,
        rw e (
            >>=-eq (ensure_tenant_choice (get_or ms [])) _ (after_send w portal_who_am_i)
              (ensure_tenant_choice_lem (after_send w portal_who_am_i) (get_or ms []))),
      )
      from_call (inr (inl (f, e))) = inr (f, after_send w portal_who_am_i, b, rw e)
      from_call (inr (inr (f, e))) =
          let left = logged_out (after_send w portal_who_am_i) in
          inr (f, left, logged_out-blocked (after_send w portal_who_am_i) b, rw e)

  degraded_answer :
      (w : Browser)
      → w.blocked ≡ false
      → Answered u (catch (learn_bindings who u) (λ _ v. (ok (state (some u) (some [])), v)) w)
  degraded_answer w b = from_learned (learn_bindings-cases w b)
    where
      from_learned :
          Answered u (learn_bindings who u w) ⊎ Thrown (learn_bindings who u w)
          → Answered u (catch (learn_bindings who u) (λ _ v. (ok (state (some u) (some [])), v)) w)
      from_learned (inl (ms, v, e)) = (ms, v, rw e)
      from_learned (inr (f, v, _, e)) = ([], v, rw e)

  recover_answer :
      (f : Failure) (w : Browser) → w.blocked ≡ false → Answered u (recover_bindings who u f w)
  recover_answer f w b = from_decision (retry-cases f w)
    where
      from_decision :
          ((status_of f ≡ some 403) × (seen_choice w ≢ ""))
            ⊎ ((status_of f ≢ some 403) ⊎ (seen_choice w ≡ ""))
          → Answered u (recover_bindings who u f w)
      from_decision (inl (forbidden, chosen)) =
          let (ms, v, e) = degraded_answer (choiceless w) b in
          (ms, v, recover_bindings_retry who u f w b forbidden chosen ∙ e)
      from_decision (inr h) = ([], w, recover_bindings_degraded who u f w h)

  admin_answer :
      (w : Browser)
      → w.blocked ≡ false
      → Answered u (catch (learn_bindings who u) (recover_bindings who u) w)
  admin_answer w b = from_learned (learn_bindings-cases w b)
    where
      from_learned :
          Answered u (learn_bindings who u w) ⊎ Thrown (learn_bindings who u w)
          → Answered u (catch (learn_bindings who u) (recover_bindings who u) w)
      from_learned (inl (ms, v, e)) = (ms, v, rw e)
      from_learned (inr (f, v, b', e)) = let (ms, x, e') = recover_answer f v b' in (ms, x, rw e e')

-- What an initial state says of the session that it was made from.
pub record IsFaithful (session : Option User) (s : InitialState) : Type 0 where
  pub user : s.current_user ≡ session
  pub bindings : (type_of session ≡ some tenant_admin) ↔ (s.tenant_memberships ≢ none)

start_answer :
    (who : WhoAmI) (user : Option User) (has_token : Bool) (w : Browser)
    → w.blocked ≡ false
    → (s : InitialState) × (r : Browser) × (start_state who user has_token w ≡ (ok s, r))
      × IsFaithful (if has_token then user else none) s
unfolding start_state
start_answer who none true w b =
    (state none none, w, refl, record { user = refl; bindings = ground arith })
start_answer who none false w b =
    (state none none, w, refl, record { user = refl; bindings = ground arith })
start_answer who (some u) false w b =
    (state none none, w, refl, record { user = refl; bindings = ground arith })
start_answer who (some u) true w b = elim (Bool-cases (is_text u.user_type tenant_admin)) [
  | inl admin ↦
      let (ms, r, e) = admin_answer who u w b in
      (
        state (some u) (some ms),
        r,
        rw admin e,
        record { user = refl; bindings = ground (arith, is_text_iff u.user_type tenant_admin) },
      )
  | inr other ↦ (
    state (some u) none,
    w,
    rw other,
    record { user = refl; bindings = ground (arith, is_text_iff u.user_type tenant_admin) },
  )
]

-- Where storage can be read, the bootstrap always answers, whatever the server does: its user is the
-- stored one if there is a token, and a binding set is there exactly for a tenant admin.
pub get_initial_state-IsFaithful :
    (json : Codec) (who : WhoAmI) (w : Browser)
    → w.blocked ≡ false
    → (s : InitialState) × (r : Browser) × (get_initial_state json who w ≡ (ok s, r))
      × IsFaithful (if truthy (w.local token_key) then seen_user json w else none) s
get_initial_state-IsFaithful json who w b =
    let (s, r, run, faithful) =
      start_answer who (seen_user json w) (truthy (w.local token_key)) w b in
    (s, r, get_initial_state_lem json who w b ∙ run, faithful)

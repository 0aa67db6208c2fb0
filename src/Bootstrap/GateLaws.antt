-- ===== src/Bootstrap/GateLaws.antt =====
-- Where the two gates of app.tsx send a visitor.
use Prim.Native.Char.{code}
use Prim.Native.String
use mathlib.Core.Path.{subst}
use testkit_service.Browser.Laws.{by_unblocked}
use text.Mathlib.TextEquality.{starts_with_iff}
use text.Mathlib.TextLemmas.{cons-append}
use testkit_service.Prelude.{
  ℕ, ◌+◌, length, suc, zero, String, Bool, true, false, Option, none, some, ◌∷◌, ◌≡◌, ◌≢◌, ◌∙◌,
  refl, sym, arith, get_or, truthy, is_text, nonempty, Bool-cases, has_prefix, any, if◌then◌else◌,
  is_text_iff, nonempty_of_ne, inl, inr, ap, ◌⊎◌, not, ◌&&◌,
}
use testkit_service.Browser.{
  Browser, ok, pushed, replaced, rendered, token_key, user_key, navigate, when, catch,
}
use testkit_service.Access.Laws.{HasSession}
use testkit_service.Choice.Laws.{seen_choice, read_tenant_choice_lem}
use testkit_service.Identity.{User, Codec, object, platform}
use testkit_service.Bootstrap.Gates.{render, fall_back, on_page_change, tenant_visible}

abbrev second_code : String → ℕ
second_code (String.◌∷◌ _ (String.◌∷◌ d _)) = code d
second_code _ = 0

second_of_link : (a : String) → second_code (String.◌++◌ "/link/" a) ≡ b'l'
second_of_link a = rw (cons-append "/" "link/" a) (rw (cons-append "l" "ink/" a))

second_of_user : (a : String) → second_code (String.◌++◌ "/user/" a) ≡ b'u'
second_of_user a = rw (cons-append "/" "user/" a) (rw (cons-append "u" "ser/" a))

-- An address under /link/ is not under /user/.
link_not_user : (p : String) → has_prefix p "/link/" ≡ true → has_prefix p "/user/" ≡ false
unfolding has_prefix
link_not_user p h = elim (Bool-cases (has_prefix p "/user/")) [
  | inr no_user ↦ no_user
  | inl u ↦
      let (a, is_link) = (starts_with_iff p "/link/").0 h in
      let (b, is_user) = (starts_with_iff p "/user/").0 u in
      absurd (
        omega (
          arith,
          second_of_link a,
          second_of_user b,
          ap second_code is_link,
          ap second_code is_user,
        ))
]

-- Where storage can be read, a visitor with no token who opens an address under /link/, the
-- anonymous download page, is sent to the login page before anything renders.
pub render-link_bounced :
    (w : Browser)
    → w.blocked ≡ false
    → truthy (w.local token_key) ≡ false
    → has_prefix w.pathname "/link/" ≡ true
    → render w ≡ (
      ok tt,
      record w { pathname = "/user/login"; log = rendered ∷ pushed "/user/login" ∷ w.log },
    )
unfolding render
render-link_bounced w b anonymous link =
    by_unblocked
      (λ v.
        truthy (v.local token_key) ≡ false
        → has_prefix v.pathname "/user/" ≡ false
        → render v ≡ (
          ok tt,
          record v { pathname = "/user/login"; log = rendered ∷ pushed "/user/login" ∷ v.log },
        ))
      w b (λ t p. rw (t, p)) anonymous (link_not_user w.pathname link)

-- Every other visitor is let through: with a token, or under /user/, only the rendering happens.
pub render-admitted :
    (w : Browser)
    → w.blocked ≡ false
    → (truthy (w.local token_key) ≡ true) ⊎ (has_prefix w.pathname "/user/" ≡ true)
    → render w ≡ (ok tt, record w { log = rendered ∷ w.log })
unfolding render
render-admitted w b h =
    by_unblocked
      (λ v.
        (truthy (v.local token_key) ≡ true) ⊎ (has_prefix v.pathname "/user/" ≡ true)
        → render v ≡ (ok tt, record v { log = rendered ∷ v.log }))
      w b (λ k. ground arith) h

-- Whether a drilled platform user is moved away from an address.
abbrev pub is_misplaced : String → Bool
is_misplaced path =
    not (has_prefix path "/user/login") && not (any (has_prefix path) tenant_visible)

-- A stored session of a platform user who has chosen a tenant.
pub record IsDrilled (json : Codec) (w : Browser) (u : User) : Type 0 where
  pub session : HasSession json w u
  pub type : u.user_type ≡ some platform
  pub chosen : seen_choice w ≢ ""

default_irrelevant : (o : Option String) → truthy o ≡ true → get_or o "{}" ≡ get_or o ""
default_irrelevant none h = cc
default_irrelevant (some s) h = refl

fall_back_drilled :
    (json : Codec) (w : Browser) (u : User) (on_login : Bool)
    → w.blocked ≡ false
    → IsDrilled json w u
    → fall_back json on_login w
      ≡ when
          (not on_login && not (any (has_prefix w.pathname) tenant_visible))
          (navigate replaced "/tenant/capabilities")
          w
unfolding fall_back
fall_back_drilled json w u on_login b d =
    let parsed : json.parse (get_or (w.local user_key) "{}") ≡ object u =
      ap json.parse (default_irrelevant (w.local user_key) d.session.cached) ∙ d.session.parsed in
    let typed : is_text u.user_type platform ≡ true = (is_text_iff u.user_type platform).1 d.type in
    let chosen : nonempty (seen_choice w) ≡ true = nonempty_of_ne (seen_choice w) d.chosen in
    by_unblocked
      (λ v.
        json.parse (get_or (v.local user_key) "{}") ≡ object u
        → nonempty (seen_choice v) ≡ true
        → fall_back json on_login v
          ≡ when (not on_login && not (any (has_prefix v.pathname) tenant_visible))
              (navigate replaced "/tenant/capabilities") v)
      w b
      (λ p c. rw p (rw typed (rw (read_tenant_choice_lem (record w { blocked = false })) (rw c))))
      parsed chosen

signed_in_page :
    (json : Codec) (w : Browser)
    → w.blocked ≡ false
    → truthy (w.local token_key) ≡ true
    → on_page_change json w
      ≡ catch (fall_back json (has_prefix w.pathname "/user/login")) (λ _ v. (ok tt, v)) w
unfolding on_page_change
signed_in_page json w b t = simp (b, t)

abbrev pub fallen_back : Browser → Browser
fallen_back w = record w {
  pathname = "/tenant/capabilities";
  log = replaced "/tenant/capabilities" ∷ w.log;
}

caught_when :
    (p : Bool) (w : Browser)
    → catch (when p (navigate replaced "/tenant/capabilities")) (λ _ v. (ok tt, v)) w
      ≡ (ok tt, if p then fallen_back w else w)
caught_when true w = refl
caught_when false w = refl

-- Where storage can be read, for a platform user with a chosen tenant, a page change keeps an
-- address that is login or tenant-visible, and replaces any other one.
pub on_page_change-drilled :
    (json : Codec) (w : Browser) (u : User)
    → w.blocked ≡ false
    → IsDrilled json w u
    → on_page_change json w ≡ (ok tt, if is_misplaced w.pathname then fallen_back w else w)
on_page_change-drilled json w u b d =
    signed_in_page json w b d.session.token
    ∙ (rw (fall_back_drilled json w u (has_prefix w.pathname "/user/login") b d)
        (caught_when (is_misplaced w.pathname) w))

-- `n` page changes in a row.
unfoldable pub page_changes : Codec → ℕ → Browser → Browser
page_changes json zero w = w
page_changes json (suc n) w = page_changes json n (on_page_change json w).1

fallback_misplaced : is_misplaced "/tenant/capabilities" ≡ true
unfolding has_prefix
fallback_misplaced = refl

-- Where storage can be read, the fallback never settles: once a platform user with a chosen
-- tenant is at an address that is neither login nor tenant-visible, every one of the next page
-- changes replaces the address again, and after any number of them it is one that a further
-- change replaces.
pub page_changes-unsettled :
    (json : Codec) (u : User) (n : ℕ) (w : Browser)
    → w.blocked ≡ false
    → IsDrilled json w u
    → is_misplaced w.pathname ≡ true
    → (length (page_changes json n w).log ≡ n + length w.log)
      × (is_misplaced (page_changes json n w).pathname ≡ true)
unfolding page_changes
page_changes-unsettled json u zero w b d m = (omega arith, m)
page_changes-unsettled json u (suc n) w b d m =
    let again : IsDrilled json (fallen_back w) u = record {
      session = record {
        token = d.session.token;
        cached = d.session.cached;
        parsed = d.session.parsed;
      };
      type = d.type;
      chosen = d.chosen;
    } in
    let ih = page_changes-unsettled json u n (fallen_back w) b again fallback_misplaced in
    let moved : (on_page_change json w).1 ≡ fallen_back w =
      rw (on_page_change-drilled json w u b d, m) in
    subst
      (λ v.
        (length (page_changes json n v).log ≡ suc n + length w.log)
        × (is_misplaced (page_changes json n v).pathname ≡ true))
      (sym moved) (omega (arith, ih.0), ih.1)

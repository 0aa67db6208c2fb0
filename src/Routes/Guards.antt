-- ===== src/Routes/Guards.antt =====
-- Redirects, landing pages and the fallback of a drilled session, against the route table.
use mathlib.Core.Path.{subst}
use testkit_service.Prelude.{
  String, Bool, true, false, Option, none, some, List, [], ◌∷◌, ◌≡◌, refl, inl, inr, arith, all,
  any, includes, Listed, all_elim, any_elim, is_text, is_text_iff, ◌==◌, eq_iff, ◌&&◌, ◌||◌,
  Bool-cases,
}
use testkit_service.Access.{Access}
use testkit_service.Access.Laws.{granted}
use testkit_service.Identity.{User, platform, tenant_admin, post_login_target}
use testkit_service.Routes.Tree.{Page, all_pages}
use testkit_service.Routes.Table.{routes}

unfoldable pub pages : List Page
unfolding all_pages routes
pages = all_pages routes

-- The flag that a guard names; an unknown name is no flag.
abbrev pub flag_of : Access → String → Bool
flag_of a g =
    (g == "canUser" && a.can_user)
    || ((g == "canPlatform" && a.can_platform) || (g == "canTenantAdmin" && a.can_tenant_admin))

abbrev pub is_open : Access → Page → Bool
is_open a p = all (flag_of a) p.guards

abbrev pub is_some_text : Option String → Bool
is_some_text none = false
is_some_text (some s) = true

-- A page with a component at an address, whose guards are all among the given ones.
abbrev pub serves : String → List String → Page → Bool
serves path guards q =
    is_text q.entry.path path && (is_some_text q.entry.component && all (includes guards) q.guards)

-- The guards of a redirect; "/" stands outside every group and is judged for signed-in users.
abbrev pub guards_of_redirect : List String → List String
guards_of_redirect [] = "canUser" ∷ []
guards_of_redirect (g ∷ gs) = g ∷ gs

abbrev redirect_served_by : Option String → List String → Bool
redirect_served_by none guards = true
redirect_served_by (some target) guards = any (serves target (guards_of_redirect guards)) pages

abbrev redirect_served : Page → Bool
redirect_served p = redirect_served_by p.entry.redirect p.guards

all_redirects : all redirect_served pages ≡ true
unfolding pages
all_redirects = refl

flag_of_includes :
    (f : String → Bool) (gs : List String) (h : String)
    → includes gs h ≡ true
    → all f gs ≡ true
    → f h ≡ true
flag_of_includes f [] h i a = cc
flag_of_includes f (g ∷ gs) h i a = elim (Bool-cases (g == h)) [
  | inl here ↦ rw (← (eq_iff g h).0 here) (ground arith)
  | inr there ↦ flag_of_includes f gs h (ground arith) (ground arith)
]

guards_weaken :
    (f : String → Bool) (gs hs : List String)
    → all (includes gs) hs ≡ true
    → all f gs ≡ true
    → all f hs ≡ true
guards_weaken f gs [] sub a = refl
guards_weaken f gs (h ∷ hs) sub a = ground (arith, flag_of_includes f gs h, guards_weaken f gs hs)

-- What a page that serves an address gives.
pub record IsServed (path : String) (a : Access) : Type 0 where
  pub page : Page
  pub listed : Listed page pages
  pub at : page.entry.path ≡ some path
  pub rendered : is_some_text page.entry.component ≡ true
  pub open_to : is_open a page ≡ true

pub serves-IsServed :
    (path : String) (guards : List String) (a : Access)
    → any (serves path guards) pages ≡ true
    → all (flag_of a) guards ≡ true
    → IsServed path a
serves-IsServed path guards a found granted_all =
    let (q, listed, e) = any_elim (serves path guards) pages found in
    record {
      page = q;
      listed = listed;
      at = (is_text_iff q.entry.path path).0 (ground arith);
      rendered = ground arith;
      open_to = guards_weaken (flag_of a) guards q.guards (ground arith) granted_all;
    }

-- Every redirect of the table leads to a page with a component, and nobody is sent to a page that is
-- closed to them: whoever passes the guards of a redirect passes those of its target. The redirect of
-- "/", which has no guard, is judged for users who are signed in.
pub redirect-IsServed :
    (p : Page) (target : String) (a : Access)
    → Listed p pages
    → p.entry.redirect ≡ some target
    → all (flag_of a) (guards_of_redirect p.guards) ≡ true
    → IsServed target a
redirect-IsServed p target a listed e passes =
    let served : redirect_served_by (some target) p.guards ≡ true =
      subst (λ o. redirect_served_by o p.guards ≡ true) e
        (all_elim redirect_served pages p all_redirects listed) in
    serves-IsServed target (guards_of_redirect p.guards) a served passes

pub landings_served :
    (any (serves "/dashboard" ("canPlatform" ∷ [])) pages ≡ true)
    × (any (serves "/tenant/credentials" ("canTenantAdmin" ∷ [])) pages ≡ true)
    × (any (serves "/profile" ("canUser" ∷ [])) pages ≡ true)
unfolding pages
landings_served = (refl, refl, refl)

-- The landing page of every user, right after a login with no tenant chosen, is in the table and
-- open to that user.
pub post_login_target-IsServed :
    (u : User) → IsServed (post_login_target u.user_type) (granted true (some u) "")
unfolding post_login_target
post_login_target-IsServed u = elim (Bool-cases (is_text u.user_type platform)) [
  | inl staff ↦
      rw staff (serves-IsServed "/dashboard" ("canPlatform" ∷ []) _ landings_served.0 refl)
  | inr other ↦ elim (Bool-cases (is_text u.user_type tenant_admin)) [
    | inl admin ↦
        rw (other, admin)
          (serves-IsServed "/tenant/credentials" ("canTenantAdmin" ∷ []) _ landings_served.1 refl)
    | inr plain ↦
        rw (other, plain) (serves-IsServed "/profile" ("canUser" ∷ []) _ landings_served.2 refl)
  ]
]

-- ===== src/Routes/Drilled.antt =====
-- The pages of a platform user who has chosen a tenant: what the access flags open against what the
-- address list of `onPageChange` keeps.
use testkit_service.Prelude.{
  String, Bool, true, false, Option, none, some, List, [], ◌∷◌, ◌≡◌, ◌≢◌, ◌↔◌, refl, sym, arith,
  all, Listed, all_elim, is_text, is_text_iff, ◌==◌, eq_iff, ◌&&◌, ◌||◌, not, has_prefix,
  nonempty_of_ne,
}
use mathlib.Core.Path.{subst}
use testkit_service.Access.{Access}
use testkit_service.Access.Laws.{granted}
use testkit_service.Bootstrap.GateLaws.{is_misplaced}
use testkit_service.Identity.{User, platform}
use testkit_service.Routes.Tree.{Page}
use testkit_service.Routes.Guards.{pages, is_open, is_some_text}

abbrev pub drilled : Access
drilled = record { can_user = true; can_platform = false; can_tenant_admin = true }

granted-drilled :
    (u : User) (choice : String)
    → u.user_type ≡ some platform
    → choice ≢ ""
    → granted true (some u) choice ≡ drilled
granted-drilled u choice t chosen = rw (t, nonempty_of_ne choice chosen)

abbrev is_guarded : List String → Bool
is_guarded [] = false
is_guarded (g ∷ gs) = true

abbrev same_bool : Bool → Bool → Bool
same_bool true b = b
same_bool false b = not b

abbrev kept_iff_open : Option String → Bool → Bool
kept_iff_open none open_ = true
kept_iff_open (some path) open_ =
    path == "/telemetry/stats" || same_bool open_ (not (is_misplaced path))

abbrev is_consistent : Page → Bool
is_consistent p =
    not (is_guarded p.guards && is_some_text p.entry.component)
    || kept_iff_open p.entry.path (is_open drilled p)

all_consistent : all is_consistent pages ≡ true
unfolding pages has_prefix
all_consistent = refl

guarded_iff : (gs : List String) → gs ≢ [] → is_guarded gs ≡ true
guarded_iff [] h = absurd (h refl)
guarded_iff (g ∷ gs) h = refl

second_of_or : (a b : Bool) → a ≡ true → (not a || b) ≡ true → b ≡ true
second_of_or a b h k = ground arith

both : (a b : Bool) → a ≡ true → b ≡ true → (a && b) ≡ true
both a b h k = ground arith

double_negation : (a : Bool) → not (not a) ≡ a
double_negation a = ground arith

agree : (o m : Bool) → same_bool o (not m) ≡ true → (o ≡ true) ↔ (m ≡ false)
agree o m h = ground arith

-- For a platform user with a chosen tenant, the address list agrees with the access flags on every guarded
-- page of the table that has a component, but for /telemetry/stats: the address is kept exactly if
-- its page is open.
pub is_open-iff_kept :
    (u : User) (choice : String) (p : Page) (path : String)
    → u.user_type ≡ some platform
    → choice ≢ ""
    → Listed p pages
    → p.guards ≢ []
    → is_some_text p.entry.component ≡ true
    → p.entry.path ≡ some path
    → path ≢ "/telemetry/stats"
    → (is_open (granted true (some u) choice) p ≡ true) ↔ (is_misplaced path ≡ false)
is_open-iff_kept u choice p path t chosen listed guarded rendered at not_stats =
    let consistent : is_consistent p ≡ true =
      all_elim is_consistent pages p all_consistent listed in
    let kept : kept_iff_open p.entry.path (is_open drilled p) ≡ true =
      second_of_or (is_guarded p.guards && is_some_text p.entry.component) _
        (both _ _ (guarded_iff p.guards guarded) rendered) consistent in
    let here : kept_iff_open (some path) (is_open drilled p) ≡ true =
      subst (λ o. kept_iff_open o (is_open drilled p) ≡ true) at kept in
    subst (λ a. (is_open a p ≡ true) ↔ (is_misplaced path ≡ false))
      (sym (granted-drilled u choice t chosen))
      (agree (is_open drilled p) (is_misplaced path) (
        second_of_or (not (path == "/telemetry/stats")) _
          (ground (arith, eq_iff path "/telemetry/stats"))
          (rw (double_negation (path == "/telemetry/stats")) here)))

abbrev is_elsewhere : Page → Bool
is_elsewhere p = not (is_text p.entry.path "/tenant/capabilities")

all_elsewhere : all is_elsewhere pages ≡ true
unfolding pages
all_elsewhere = refl

-- The address to which the fallback of `onPageChange` goes is that of no entry of the table.
pub fallback_missing : (p : Page) → Listed p pages → p.entry.path ≢ some "/tenant/capabilities"
fallback_missing p listed = ground (
  arith,
  is_text_iff p.entry.path "/tenant/capabilities",
  all_elim is_elsewhere pages p all_elsewhere listed,
)

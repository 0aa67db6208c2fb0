-- ===== src/Users/Laws.antt =====
-- What the link of a row does to the user it shows.
use testkit_service.Prelude.{
  String, Bool, true, false, ◌==◌, eq_iff, Option, none, some, ◌≡◌, ◌↔◌, refl, ap, arith, is_text,
  lookup, Bool-cases, inl, inr, if◌then◌else◌,
}
use testkit_service.Labels.User.{user_status_tag}
use testkit_service.Users.{UserRow, disabled_status, toggle_user_request}

sent_false :
    (b : Bool)
    → (◌≡◌ {A = Option (Option String)}
        (some (some (if b then "false" else "true")))
        (some (some "false")))
      ↔ (b ≡ true)
sent_false true = (λ e. refl, λ e. refl)
sent_false false = (λ e. cc, λ e. cc)

red :
    (o : Option String)
    → (is_text o disabled_status ≡ true) ↔ (user_status_tag o ≡ some ("red", "禁用"))
unfolding user_status_tag
red none = (λ e. cc, λ e. cc)
red (some s) = elim (Bool-cases (s == "USER_STATUS_ACTIVE")) [
  | inl live ↦
      let other : (s == disabled_status) ≡ false =
        ap (λ x. x == disabled_status) ((eq_iff s "USER_STATUS_ACTIVE").0 live) in
      rw (live, other) (λ e. cc, λ e. cc)
  | inr not_live ↦ elim (Bool-cases (s == disabled_status)) [
    | inl stopped ↦ rw (not_live, stopped) (λ e. refl, λ e. refl)
    | inr not_stopped ↦ elim (Bool-cases (s == "USER_STATUS_PENDING_REVIEW")) [
      | inl waiting ↦ rw (not_live, not_stopped, waiting) (λ e. cc, λ e. cc)
      | inr unknown ↦ rw (not_live, not_stopped, unknown) (λ e. cc, λ e. cc)
    ]
  ]
]

-- The link of a row asks to start the user again exactly if the row carries the red tag of a disabled
-- user, and else to disable them.
pub toggle_user_request-tag :
    (r : UserRow)
    → (lookup "disable" (toggle_user_request r).body ≡ some (some "false"))
      ↔ (user_status_tag r.status ≡ some ("red", "禁用"))
unfolding toggle_user_request
toggle_user_request-tag r =
    ground (arith, sent_false (is_text r.status disabled_status), red r.status)

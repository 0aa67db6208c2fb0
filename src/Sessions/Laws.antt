-- ===== src/Sessions/Laws.antt =====
-- Which sessions can be revoked.
use testkit_service.Prelude.{
  String, true, false, Option, none, some, List, [], ◌∷◌, ◌≡◌, ◌↔◌, ◌≢◌, inl, inr, refl, arith,
  get_or, is_text, eq_iff, lookup, ◌==◌, Bool-cases,
}
use testkit_service.Sessions.{SessionInfo, active, status_tag, status_cell, revocable}

none_green : ◌≢◌ {A = Option (String × String)} none (some ("green", "活跃"))
none_green e = cc

tagged_green :
    (colour text : String)
    → "green" == colour ≡ false
    → ◌≢◌ {A = Option (String × String)} (some (colour, text)) (some ("green", "活跃"))
tagged_green colour text other e = ground (arith, eq_iff "green" colour, first_of e)
  where
    first_of :
        ◌≡◌ {A = Option (String × String)} (some (colour, text)) (some ("green", "活跃"))
        → "green" ≡ colour
    first_of e = cc

abbrev other_tags : List (String × (String × String))
other_tags =
    ("SESSION_STATUS_REVOKED", ("orange", "已登出"))
    ∷ ("SESSION_STATUS_EXPIRED", ("default", "已失效"))
    ∷ []

elsewhere : (s : String) → lookup s other_tags ≢ some ("green", "活跃")
elsewhere s = elim (Bool-cases ("SESSION_STATUS_REVOKED" == s)) [
  | inl revoked ↦ rw revoked (tagged_green "orange" "已登出" refl)
  | inr live ↦ elim (Bool-cases ("SESSION_STATUS_EXPIRED" == s)) [
    | inl expired ↦ rw (live, expired) (tagged_green "default" "已失效" refl)
    | inr unknown ↦ rw (live, unknown) none_green
  ]
]

green : (s : String) → (lookup s status_tag ≡ some ("green", "活跃")) ↔ (active ≡ s)
green s = elim (Bool-cases (active == s)) [
  | inl here ↦ rw here (λ e. (eq_iff active s).0 here, λ e. refl)
  | inr other ↦
      rw other (λ e. absurd (elsewhere s e), λ e. ground (arith, other, eq_iff active s, e))
]

status_is : (o : Option String) → (is_text o active ≡ true) ↔ (active ≡ get_or o "")
status_is none = (λ e. cc, λ e. cc)
status_is (some s) = ground (arith, eq_iff s active)

-- A session can be revoked exactly if its row shows the green tag of an active one: never the user's own
-- session, and none that is revoked, expired or of an unknown status.
pub revocable_iff :
    (r : SessionInfo) → (revocable r ≡ true) ↔ (status_cell r ≡ some ("green", "活跃"))
unfolding revocable status_cell
revocable_iff r = elim (Bool-cases r.current) [
  | inl own ↦ simp own (λ e. cc, λ e. cc)
  | inr other ↦ simp other (ground (arith, green (get_or r.status ""), status_is r.status))
]

-- ===== src/Tokens/Laws.antt =====
-- When a token is created, and that a token is shown.
use mathlib.Core.Path.{subst}
use testkit_service.Prelude.{
  true, none, some, List, [], ◌∷◌, ◌≡◌, ◌≢◌, ◌↔◌, ◌⊎◌, inl, inr, refl, keep, first, is_text,
  is_text_iff, truthy, Listed, Listed-keep,
}
use testkit_service.Scope.{TenantView}
use testkit_service.Tokens.{
  TelemetryConfig, TokensPage, own_config, config_found, creates, rotates, offered,
}

-- the rows of the view's tenant
abbrev pub IsOwnRow : TenantView → List TelemetryConfig → TelemetryConfig → Type 0
IsOwnRow view configs c = Listed c configs × (c.tenant_key ≡ some view.tenant_key)

first_or_none :
    {A : Type 0} (xs : List A)
    → ((x : A) × (first xs ≡ some x) × Listed x xs) ⊎ ((first xs ≡ none) × (xs ≡ []))
first_or_none [] = inr (refl, refl)
first_or_none (x ∷ xs) = inl (x, refl, inl refl)

own_row :
    (view : TenantView) (configs : List TelemetryConfig)
    → ((c : TelemetryConfig) × (own_config view configs ≡ some c) × IsOwnRow view configs c)
      ⊎ ((own_config view configs ≡ none) × ((c : TelemetryConfig) → IsOwnRow view configs c → ⊥))
unfolding own_config
own_row view configs =
    let own = λ (a : TelemetryConfig). is_text a.tenant_key view.tenant_key in
    elim (first_or_none (keep own configs)) [
      | inl (c, found, listed) ↦
          let (here, is_own) = (Listed-keep own configs c).0 listed in
          inl (c, found, (here, (is_text_iff c.tenant_key view.tenant_key).0 is_own))
      | inr (found, nothing) ↦ inr (
        found,
        λ c h. no_member c (
            subst (λ xs. Listed c xs) nothing
              ((Listed-keep own configs c).1
                (h.0, (is_text_iff c.tenant_key view.tenant_key).1 (h.1)))),
      )
    ]
  where
    no_member : (c : TelemetryConfig) → Listed c [] → ⊥
    no_member c h = elim h [ ]

-- Where each configuration has an app key that is not empty, the page that has loaded the configurations
-- offers to create the first token exactly if none of them is of the view's tenant; else it offers a
-- rotation.
pub offered-creates_iff :
    (view : TenantView) (configs : List TelemetryConfig) (page : TokensPage)
    → ((c : TelemetryConfig) → Listed c configs → truthy c.app_key ≡ true)
    → (offered (config_found view configs page) ≡ creates)
      ↔ ((c : TelemetryConfig) → IsOwnRow view configs c → ⊥)
unfolding offered config_found
offered-creates_iff view configs page keyed = elim (own_row view configs) [
  | inl (c, found, own) ↦
      rw (found, keyed c (own.0)) (λ e. absurd (not_creates e), λ h. absurd (h c own))
  | inr (found, nobody) ↦ rw found (λ _. nobody, λ _. refl)
]
  where
    not_creates : rotates ≢ creates
    not_creates e = cc

-- ===== src/Credentials/Laws.antt =====
-- Which tenant the credentials are of, and when a secret is shown.
use testkit_service.Prelude.{
  Bool, true, false, some, List, [], ◌∷◌, ◌≡◌, ◌⊎◌, inl, inr, refl, arith, ap, ◌&&◌, nonempty,
  get_or, is_text, is_text_iff, any, any_elim, Listed, Bool-cases,
}
use testkit_service.Browser.{Browser, Outcome, ok, Failure, Effect, toasted, error}
use testkit_service.Request.{Server}
use testkit_service.Services.{portal_rotate_api_key_secret}
use testkit_service.Submit.{data_message, requests}
use testkit_service.Submit.Laws.{sent_request, IsTried, try_send-IsTried}
use testkit_service.TenantList.{Row}
use testkit_service.Credentials.{
  ApiKeyInfo, SecretResponse, CredentialsPage, first_key, tenants_answered, show_secret_once,
  reload, rotate,
}

and_right : (a b : Bool) → a && b ≡ true → b ≡ true
and_right a b h = ground arith

first_key-Listed :
    (tenants : List Row)
    → ((t : Row) × Listed t tenants × (get_or t.tenant_key "" ≡ first_key tenants))
      ⊎ ((tenants ≡ []) × (first_key tenants ≡ ""))
first_key-Listed [] = inr (refl, refl)
first_key-Listed (t ∷ ts) = inl (t, inl refl, refl)

-- After the registry has answered, the credentials are those of a tenant that it lists, or of its first
-- one, or of none where it lists none.
pub tenants_answered-IsListed :
    (tenants : List Row) (page : CredentialsPage)
    → let p = tenants_answered true (some tenants) page in
      ((t : Row) × Listed t tenants × (get_or t.tenant_key "" ≡ p.tenant_key))
      ⊎ ((tenants ≡ []) × (p.tenant_key ≡ ""))
unfolding tenants_answered
tenants_answered-IsListed tenants page =
    elim (Bool-cases (
      nonempty page.tenant_key
      && any (λ (t : Row). is_text t.tenant_key page.tenant_key) tenants)) [
        | inl kept ↦
            let (t, listed, same) =
              any_elim (λ (t : Row). is_text t.tenant_key page.tenant_key) tenants
                (and_right _ _ kept) in
            rw kept (
              inl (
                t,
                listed,
                ap (λ k. get_or k "") ((is_text_iff t.tenant_key page.tenant_key).0 same),
              ))
        | inr gone ↦ rw gone (first_key-Listed tenants)
      ]

module _ (server : Server SecretResponse) (r : ApiKeyInfo) (page : CredentialsPage)
    (w : Browser) where
  -- One request has left. The new secret is in the newest dialog, and in no other way on the page, or the
  -- page is as it was, and the failure's message is shown.
  abbrev pub IsRotated : Outcome CredentialsPage × Browser → Type 0
  IsRotated q =
      (requests q.1.log
        ≡ sent_request w (portal_rotate_api_key_secret (get_or r.access_key "")) ∷ requests w.log)
      × (((resp : SecretResponse) × (q.0
              ≡ ok (reload (show_secret_once "新 Secret（仅此一次）" resp page))))
          ⊎ ((e : Failure) × (log : List Effect) × (q.0 ≡ ok page)
              × (q.1.log ≡ toasted error (get_or (data_message e) "轮换失败") ∷ log)))

  rotated :
      (q : Outcome CredentialsPage × Browser)
      → IsTried server
          (portal_rotate_api_key_secret (get_or r.access_key ""))
          (λ _. "已轮换")
          (λ resp p. reload (show_secret_once "新 Secret（仅此一次）" resp p))
          (λ e. some (get_or (data_message e) "轮换失败"))
          page
          w
          q
      → IsRotated q
  rotated q (one, inl (resp, log, e, l)) = (one, inl (resp, e))
  rotated q (one, inr (f, log, e, l)) = (one, inr (f, log, e, l _ refl))

  -- Where storage can be read, a rotation sends one request; the page is left as it was and the failure
  -- shown, or the new secret is shown in one more dialog and the table reloaded.
  pub rotate-IsRotated : w.blocked ≡ false → IsRotated (rotate server r page w)
  unfolding rotate
  rotate-IsRotated b = rotated (rotate server r page w) (
      try_send-IsTried server (portal_rotate_api_key_secret (get_or r.access_key "")) _ _ _ page w
        b)

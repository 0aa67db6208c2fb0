-- ===== src/Bindings/Laws.antt =====
-- Which identities can be unbound and with what, and whose state a binding carries.
use testkit_service.Prelude.{
  String, true, false, Option, none, some, [], ◌∷◌, ◌+◌, ◌≢◌, if◌then◌else◌, ◌≡◌, ◌⊎◌, refl, arith,
  get_or, includes, is_text_iff,
}
use testkit_service.Browser.{Browser}
use testkit_service.Request.{Server}
use testkit_service.Services.{bind_oauth_identity, unbind_identity}
use testkit_service.Submit.Laws.{IsPassed, send_plain-IsPassed}
use testkit_service.Bindings.{
  IdentityInfo, IdentityPage, BindForm, OAuthLink, oauth_providers, by_email, by_phone,
  bind_request, bind_open_changed, link_taken, needs_code, unbind, unbind_request,
}
use testkit_service.Bindings.Events.{open_changed, link_answered, run, act}

-- A link that is answered after the dialog was closed stays: the next identity of a third party that is
-- bound, of whatever provider, goes out with the state of that link.
pub bind-late_link :
    (resp : OAuthLink) (page : IdentityPage) (vals : BindForm)
    → includes oauth_providers (get_or vals.provider "") ≡ true
    → bind_request vals
        (run (open_changed false ∷ link_answered resp ∷ open_changed true ∷ []) page)
      ≡ bind_oauth_identity (
          ("provider", vals.provider)
          ∷ ("code", vals.code)
          ∷ ("state", some (get_or resp.state ""))
          ∷ [])
unfolding bind_request run act bind_open_changed link_taken
bind-late_link resp page vals oauth = rw oauth refl

sent_code :
    (target : IdentityInfo) (code : Option String)
    → let sent = if needs_code target then code else some "" in
      (((target.provider ≡ some by_email) ⊎ (target.provider ≡ some by_phone)) × (sent ≡ code))
      ⊎ ((target.provider ≢ some by_email) × (target.provider ≢ some by_phone) × (sent ≡ some ""))
unfolding needs_code
sent_code target code =
    ground (arith, is_text_iff target.provider by_email, is_text_iff target.provider by_phone)

module _ (server : Server (Unit {0})) (w : Browser) where
  -- Where storage can be read, unbinding sends one request. It carries the code that was typed if the
  -- identity is an email address or a phone number, and else an empty one. The target is let go of and
  -- the table loaded again when the request succeeds; a failure is the action's.
  pub unbind-IsPassed :
      (target : IdentityInfo) (code : Option String) (page : IdentityPage)
      → w.blocked ≡ false
      → (sent : Option String) × ((((target.provider ≡ some by_email)
              ⊎ (target.provider ≡ some by_phone))
            × (sent ≡ code))
          ⊎ ((target.provider ≢ some by_email)
              × (target.provider ≢ some by_phone)
              × (sent ≡ some "")))
        × IsPassed server
            (unbind_identity (get_or target.id "") (("code", sent) ∷ []))
            (λ _. "已解绑")
            (λ _ (p : IdentityPage). record p { unbind_target = none; reloads = p.reloads + 1 })
            page
            w
            (unbind server target code page w)
  unfolding unbind unbind_request needs_code
  unbind-IsPassed target code page b = (
    if needs_code target then code else some "",
    sent_code target code,
    send_plain-IsPassed server _ _ _ page w b,
  )

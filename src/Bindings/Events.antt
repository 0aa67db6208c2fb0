-- ===== src/Bindings/Events.antt =====
-- The dialog that binds, over what the user does and the answers that arrive.
use testkit_service.Prelude.{Bool, true, false, none, List, [], ◌∷◌, ◌≡◌, refl}
use testkit_service.Bindings.{
  IdentityPage, OAuthLink, bind_open_changed, forget_link, link_taken, bound,
}

-- What happens to the dialog: it is opened or closed, the link of a provider is answered, or an identity
-- is bound.
pub data Event : Type 0 where
  open_changed : Bool → Event
  link_answered : OAuthLink → Event
  bind_answered : Event

unfoldable pub act : Event → IdentityPage → IdentityPage
unfolding bind_open_changed link_taken bound
act (open_changed open_) page = bind_open_changed open_ page
act (link_answered resp) page = link_taken resp page
act bind_answered page = bound page

unfoldable pub run : List Event → IdentityPage → IdentityPage
unfolding act
run [] page = page
run (e ∷ es) page = run es (act e page)

-- A link is answered while the dialog is open.
abbrev pub IsTimely : Event → IdentityPage → Type 0
IsTimely (link_answered resp) page = page.bind_open ≡ true
IsTimely e page = Unit

abbrev pub AreTimely : List Event → IdentityPage → Type 0
AreTimely [] page = Unit
AreTimely (e ∷ es) page = IsTimely e page × AreTimely es (act e page)

-- A closed dialog holds no link.
abbrev pub IsForgotten : IdentityPage → Type 0
IsForgotten page = page.bind_open ≡ false → (page.oauth_state ≡ none) × (page.oauth_url ≡ none)

act-IsForgotten :
    (e : Event) (page : IdentityPage)
    → IsTimely e page
    → IsForgotten page
    → IsForgotten (act e page)
unfolding act bind_open_changed forget_link link_taken bound
act-IsForgotten (open_changed true) page t h closed = cc
act-IsForgotten (open_changed false) page t h closed = (refl, refl)
act-IsForgotten (link_answered resp) page t h closed = cc
act-IsForgotten bind_answered page t h closed = (refl, refl)

-- Where every link is answered while the dialog is open, a closed dialog holds no state and no address
-- of a provider, whatever was done, if it held none at first.
pub run-IsForgotten :
    (es : List Event) (page : IdentityPage)
    → AreTimely es page
    → IsForgotten page
    → IsForgotten (run es page)
unfolding run
run-IsForgotten [] page t h = h
run-IsForgotten (e ∷ es) page (t, ts) h =
    run-IsForgotten es (act e page) ts (act-IsForgotten e page t h)

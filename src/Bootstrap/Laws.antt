-- ===== src/Bootstrap/Laws.antt =====
-- What the initial state holds, and how a stale tenant choice is recovered from.
use testkit_service.Prelude.{
  false, Option, none, some, List, [], ◌≡◌, ◌≢◌, ◌⊎◌, inl, inr, arith, get_or, nonempty_of_ne,
}
use testkit_service.Browser.{Browser, Effect, sent, ok, Failure, update, catch, choice_key}
use testkit_service.Browser.Laws.{>>=-eq}
use testkit_service.Choice.{Membership, ensure_tenant_choice, clear_tenant_choice}
use testkit_service.Choice.Laws.{seen_choice, ensure_tenant_choice_lem, read_tenant_choice_lem}
use testkit_service.Identity.{User}
use testkit_service.Request.{replied, settle, status_of}
use testkit_service.Request.Laws.{carried, call_lem, after_send}
use testkit_service.Services.{portal_who_am_i}
use testkit_service.Bootstrap.{state, WhoAmI, learn_bindings, recover_bindings}

-- The request that asks for the bindings, with the headers that the browser's storage gives it.
abbrev pub asked : Browser → Effect
asked w = sent (record portal_who_am_i { headers = carried w [] })

module _ (who : WhoAmI) (user : User) (w : Browser) (ms : Option (List Membership)) where
  -- A reply in a usable browser: its bindings are the result, and the choice is settled on them.
  pub learn_bindings_lem :
      w.blocked ≡ false
      → who w.log (record portal_who_am_i { headers = carried w [] }) ≡ replied ms
      → learn_bindings who user w ≡ (
        ok (state (some user) (some (get_or ms []))),
        (ensure_tenant_choice (get_or ms []) (after_send w portal_who_am_i)).1,
      )
  unfolding learn_bindings settle
  learn_bindings_lem b r =
      rw (call_lem who portal_who_am_i w b, r)
        (>>=-eq (ensure_tenant_choice (get_or ms [])) _ (after_send w portal_who_am_i)
          (ensure_tenant_choice_lem (after_send w portal_who_am_i) (get_or ms [])))

-- The browser after a stale choice has been dropped.
abbrev pub choiceless : Browser → Browser
choiceless w = record w { local = update w.local choice_key none }

pub clear_tenant_choice_lem :
    (w : Browser) → w.blocked ≡ false → clear_tenant_choice w ≡ (ok tt, choiceless w)
unfolding clear_tenant_choice
clear_tenant_choice_lem w b = simp b

module _ (who : WhoAmI) (user : User) (error : Failure) (w : Browser) where
  -- A 403 with a stored choice starts over without the choice.
  pub recover_bindings_retry :
      w.blocked ≡ false
      → status_of error ≡ some 403
      → seen_choice w ≢ ""
      → recover_bindings who user error w
        ≡ catch
            (learn_bindings who user)
            (λ _ v. (ok (state (some user) (some [])), v))
            (choiceless w)
  unfolding recover_bindings
  recover_bindings_retry b forbidden chosen =
      rw (read_tenant_choice_lem w, forbidden, nonempty_of_ne _ chosen, clear_tenant_choice_lem w b)

  -- Any other failure leaves the browser and shows no tenant.
  pub recover_bindings_degraded :
      (status_of error ≢ some 403) ⊎ (seen_choice w ≡ "")
      → recover_bindings who user error w ≡ (ok (state (some user) (some [])), w)
  unfolding recover_bindings
  recover_bindings_degraded (inl other) = rw (read_tenant_choice_lem w) (ground arith)
  recover_bindings_degraded (inr empty) = rw (read_tenant_choice_lem w, empty) (ground arith)

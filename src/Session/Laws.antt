-- ===== src/Session/Laws.antt =====
-- What the end of a session leaves behind, whatever the server answers.
use testkit_service.Prelude.{
  String, false, Option, none, List, [], ◌∷◌, ◌++◌, ◌≡◌, refl, inl, inr, All, Bool-cases,
  has_prefix,
}
use testkit_service.Browser.{
  Browser, Effect, sent, assigned, ok, catch, token_key, user_key, choice_key, update,
}
use testkit_service.Access.{access}
use testkit_service.Access.Laws.{access-signed_out}
use testkit_service.Identity.{Codec}
use testkit_service.Choice.{clear_tenant_choice}
use testkit_service.Request.{Server, call}
use testkit_service.Request.Laws.{IsSettled, call-IsSettled, after_send, logged_out, carried}
use testkit_service.Services.{logout}
use testkit_service.Session.{end_session}

abbrev pub emptied : (String → Option String) → String → Option String
emptied local = update (update (update local token_key none) user_key none) choice_key none

-- No session is stored, and the browser goes to the login page.
pub record IsSignedOut (w : Browser) : Type 0 where
  pub token : w.local token_key ≡ none
  pub user : w.local user_key ≡ none
  pub choice : w.local choice_key ≡ none
  pub at_login : w.pathname ≡ "/user/login"

module _ (server : Server (Unit {0})) (w : Browser) where
  end_after :
      (w' : Browser)
      → w'.blocked ≡ false
      → (catch (call server logout) (λ _ b. (ok tt, b))) w ≡ (ok tt, w')
      → end_session server w ≡ (
        ok tt,
        record w' {
          local = emptied w'.local;
          pathname = "/user/login";
          log = assigned "/user/login" ∷ w'.log;
        },
      )
  unfolding end_session clear_tenant_choice
  end_after w' b e = rw e (simp b)

  -- `logged_out` empties the same keys, and may have gone to the login page before.
  log_after :
      w.blocked ≡ false
      → IsSettled (call server logout w) (after_send w logout)
      → (later : List Effect) × (r : Browser) × (end_session server w ≡ (ok tt, r))
        × IsSignedOut r
        × (r.log ≡ later ++ (after_send w logout).log)
        × All (λ e. e ≡ assigned "/user/login") later
        × (r.blocked ≡ false)
  log_after b (inl (a, e)) = (
    assigned "/user/login" ∷ [],
    _,
    end_after (after_send w logout) b (rw e),
    record { token = refl; user = refl; choice = refl; at_login = refl },
    refl,
    (refl, tt),
    b,
  )
  log_after b (inr (inl (f, e))) = (
    assigned "/user/login" ∷ [],
    _,
    end_after (after_send w logout) b (rw e),
    record { token = refl; user = refl; choice = refl; at_login = refl },
    refl,
    (refl, tt),
    b,
  )
  log_after b (inr (inr (f, e))) = elim (Bool-cases (has_prefix w.pathname "/user/login")) [
    | inl at ↦ (
      assigned "/user/login" ∷ [],
      _,
      end_after (logged_out (after_send w logout)) (rw at b) (rw e),
      record { token = refl; user = refl; choice = refl; at_login = refl },
      rw at,
      (refl, tt),
      rw at b,
    )
    | inr away ↦ (
      assigned "/user/login" ∷ assigned "/user/login" ∷ [],
      _,
      end_after (logged_out (after_send w logout)) (rw away b) (rw e),
      record { token = refl; user = refl; choice = refl; at_login = refl },
      rw away,
      (refl, (refl, tt)),
      rw away b,
    )
  ]

  -- Where storage can be changed, and whatever the server answers, ending the session succeeds; the
  -- logout request leaves first, with the headers of the session that ends; after it only the way to
  -- the login page is taken; no token, user or tenant choice is left, and all three access flags are
  -- off.
  pub end_session-IsSignedOut :
      (json : Codec)
      → w.blocked ≡ false
      → (later : List Effect) × (r : Browser) × (end_session server w ≡ (ok tt, r))
        × IsSignedOut r
        × (r.log ≡ later ++ sent (record logout { headers = carried w [] }) ∷ w.log)
        × All (λ e. e ≡ assigned "/user/login") later
        × (access json r
            ≡ (ok (record { can_user = false; can_platform = false; can_tenant_admin = false }), r))
  end_session-IsSignedOut json b =
      let (later, r, run, out, log, ways, readable) =
        log_after b (call-IsSettled server logout w b) in
      (later, r, run, out, log, ways, access-signed_out json r readable out.token)

-- ===== src/Register/Laws.antt =====
-- What a request for a code and a registration leave behind.
use testkit_service.Prelude.{
  ℕ, zero, suc, ◌-◌, String, true, false, Option, none, some, [], ◌∷◌, ◌≡◌, ◌≢◌, ◌↔◌, ◌⊎◌, inl, inr,
  refl, ap, arith, ltb, truthy, is_text, Option-cases, Bool-cases, nonempty, if◌then◌else◌,
}
use testkit_service.Browser.{
  Browser, ok, toasted, warning, success, error, pushed, token_key, user_key, Failure,
}
use testkit_service.Browser.Laws.{IsUsable}
use testkit_service.Access.Laws.{HasSession}
use testkit_service.Choice.Laws.{seen_choice}
use testkit_service.Identity.{User, Codec, IsRoundTrip, tenant_admin, post_login_target}
use testkit_service.Bootstrap.{WhoAmI}
use testkit_service.Login.{TokenResponse}
use testkit_service.Login.Laws.{adopt_lem, stored}
use testkit_service.Request.{Reply, Server, call, replied, failed, settle}
use testkit_service.Submit.Laws.{sent_request}
use testkit_service.Request.Laws.{
  IsAnswered, call-IsAnswered, after_failure, call_lem, carried, after_send,
}
use testkit_service.Services.{register, send_verification_code}
use testkit_service.Register.{
  RegisterFormValues, RegisterPage, start_countdown, tick, is_disabled, missing_field, code_request,
  code_sent, ask_code, send_code, same_text, register_request, welcome_text, submit_register,
  sent_text, unsent_text,
}

-- A form with an email address, or with a dial code and a phone number, and for +86 with the template
-- and the signature too.
abbrev pub IsComplete : RegisterFormValues → Type 0
IsComplete vals =
    ((is_text vals.channel "email" ≡ true) × (truthy vals.email ≡ true))
    ⊎ ((is_text vals.channel "email" ≡ false)
        × (truthy vals.dial_code ≡ true)
        × (truthy vals.phone ≡ true)
        × ((is_text vals.dial_code "+86" ≡ false)
            ⊎ ((truthy vals.sms_template_id ≡ true) × (truthy vals.sign_name ≡ true))))

missing_field_iff : (vals : RegisterFormValues) → (missing_field vals ≡ none) ↔ IsComplete vals
unfolding missing_field
missing_field_iff vals = ground arith

-- The warning about a form: no email address; no dial code or no phone number; for +86, no template or
-- no signature.
abbrev pub IsWarning : RegisterFormValues → String → Type 0
IsWarning vals text =
    ((is_text vals.channel "email" ≡ true) × (truthy vals.email ≡ false) × (text ≡ "请先填写邮箱"))
    ⊎ ((is_text vals.channel "email" ≡ false)
        × ((((truthy vals.dial_code ≡ false) ⊎ (truthy vals.phone ≡ false))
              × (text ≡ "请先填写国家码和手机号"))
            ⊎ ((truthy vals.dial_code ≡ true)
                × (truthy vals.phone ≡ true)
                × (is_text vals.dial_code "+86" ≡ true)
                × ((truthy vals.sms_template_id ≡ false) ⊎ (truthy vals.sign_name ≡ false))
                × (text ≡ "国内短信需要短信模板 ID 和签名（投递模板面板里填写）"))))

missing_field-IsWarning :
    (vals : RegisterFormValues) (text : String)
    → missing_field vals ≡ some text
    → IsWarning vals text
unfolding missing_field
missing_field-IsWarning vals text m = ground (arith, m)

module _ (server : Server (Option String)) (page : RegisterPage) (w : Browser) where
  abbrev pub code_asked : Browser
  code_asked = after_send w (send_verification_code (code_request page.form))

  -- The answer to the request for a code, as it left.
  abbrev pub answer : Reply (Option String)
  answer = server w.log (sent_request w (send_verification_code (code_request page.form)))

  -- The page that an answer leaves: the countdown has started, a captcha id that came is in the form.
  abbrev pub with_code : Option String → RegisterPage
  with_code captcha = record {
    form = record (page.form) {
      captcha_id = if truthy captcha then captcha else page.form.captcha_id;
    };
    countdown = 60;
    sending = false;
  }

  -- The end of a request for a code: by an answer, or by a failure.
  abbrev pub Finishes : Type 0
  Finishes =
      ((captcha : Option String) × (answer ≡ replied captcha)
        × (send_code server page w ≡ (
          ok (with_code captcha),
          record code_asked { log = toasted success (sent_text captcha) ∷ code_asked.log },
        )))
      ⊎ ((e : Failure) × (answer ≡ failed e)
          × (let left = after_failure e code_asked in
              send_code server page w ≡ (
                ok (record page { sending = false }),
                record left { log = toasted error (unsent_text e) ∷ left.log },
              )))

  code_sent_lem :
      (captcha : Option String)
      → record (code_sent captcha (record page { sending = true })) { sending = false }
        ≡ with_code captcha
  unfolding code_sent start_countdown
  code_sent_lem captcha = elim (Bool-cases (truthy captcha)) [
    | inl full ↦ rw full refl
    | inr empty ↦ rw empty refl
  ]

  finishes :
      missing_field page.form ≡ none
      → IsAnswered server
          (send_verification_code (code_request page.form))
          w
          (call server (send_verification_code (code_request page.form)) w)
      → Finishes
  unfolding send_code ask_code
  finishes m (inl (captcha, came, e)) =
      let shown : Browser = record code_asked {
        log = toasted success (sent_text captcha) ∷ code_asked.log;
      } in
      inl (captcha, came, rw (m, e) (ap (λ p. (ok p, shown)) (code_sent_lem captcha)))
  finishes m (inr (f, came, e)) = inr (f, came, rw (m, e))

  -- Where storage can be read, asking for a code never throws. With a form that lacks its email address,
  -- or its dial code or phone number, or for +86 its template or signature, only the warning about
  -- that is shown, and no request leaves. With these the request for the code leaves. If the server answers it, the countdown is at 60, the captcha id of the answer,
  -- if there is one, is filled in, and the success is shown. If it fails, the countdown and the form are
  -- as they were, and the reason is shown, after a 401 behind its cleanup. In both cases the button is no
  -- longer busy.
  pub send_code-cases :
      w.blocked ≡ false
      → ((IsComplete page.form → ⊥)
          × ((text : String) × IsWarning page.form text
              × (send_code server page w
                  ≡ (ok page, record w { log = toasted warning text ∷ w.log }))))
        ⊎ (IsComplete page.form × Finishes)
  unfolding send_code
  send_code-cases b = elim (Option-cases (missing_field page.form)) [
    | inl m ↦ inr (
      (missing_field_iff page.form).0 m,
      finishes m (call-IsAnswered server (send_verification_code (code_request page.form)) w b),
    )
    | inr (text, m) ↦ inl (
      ground (arith, missing_field_iff page.form),
      (text, missing_field-IsWarning page.form text m, rw m),
    )
  ]

-- `n` seconds of the countdown.
unfoldable pub ticks : ℕ → RegisterPage → RegisterPage
ticks zero page = page
ticks (suc n) page = ticks n (tick page)

ticks-countdown : (n : ℕ) (page : RegisterPage) → (ticks n page).countdown ≡ page.countdown - n
unfolding ticks tick
ticks-countdown zero page = omega arith
ticks-countdown (suc n) page = ground (arith, ticks-countdown n (tick page))

-- Once a countdown has started, the button is disabled for sixty seconds and no longer.
pub ticks-is_disabled :
    (n : ℕ) (page : RegisterPage) → is_disabled (ticks n (start_countdown page)) ≡ ltb n 60
unfolding is_disabled start_countdown
ticks-is_disabled n page = ground (arith, ticks-countdown n (record page { countdown = 60 }))

-- A registration that the server accepts for a user who is not a tenant admin, with equal passwords, in
-- a browser whose storage works and where JSON reads back what it wrote: the form reports success, the
-- browser is at the landing page of the user's type, storage holds the token of the answer and its user
-- as JSON, which is a session, and no tenant choice of an earlier session is left.
pub submit_register-HasSession :
    (json : Codec) (who : WhoAmI) (u : User) (t : String) (rt : IsRoundTrip json)
    → nonempty t ≡ true
    → u.user_type ≢ some tenant_admin
    → (server : Server TokenResponse) (vals : RegisterFormValues) (w : Browser) → IsUsable w
    → same_text vals.password vals.confirm_password ≡ true
    → server w.log (record (register (register_request vals)) {
      headers = carried w (("Content-Type", "application/json") ∷ []);
    })
      ≡ replied (record { token = some t; user = some u })
    → (r : Browser) × (submit_register json who server vals w ≡ (ok true, r))
      × (r.local token_key ≡ some t)
      × (r.local user_key ≡ some (json.print u))
      × HasSession json r u
      × (seen_choice r ≡ "")
      × (r.pathname ≡ post_login_target u.user_type)
unfolding submit_register settle
submit_register-HasSession json who u t rt full other server vals w usable same answered =
    let sent_from = after_send w (register (register_request vals)) in
    let b = usable.unblocked in
    let r : Browser = record (stored json who u t rt full other sent_from) {
      pathname = post_login_target u.user_type;
      log =
          pushed (post_login_target u.user_type) ∷ toasted success (welcome_text u) ∷ sent_from.log;
    } in
    (
      r,
      rw (same, call_lem server (register (register_request vals)) w b, answered)
          (rw (
            adopt_lem json who u t rt full other "注册失败：响应缺少 token 或用户信息" welcome_text sent_from
              (record { unblocked = b; writable = usable.writable }))),
      refl,
      refl,
      record { token = full; cached = rt.print_nonempty u; parsed = rt.parse_print u },
      ground arith,
      refl,
    )

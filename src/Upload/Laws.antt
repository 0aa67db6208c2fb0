-- ===== src/Upload/Laws.antt =====
-- The upload dialog comes to an end, whatever the servers answer.
use testkit_service.Prelude.{
  ℕ, ◌+◌, String, true, false, Option, [], ◌∷◌, ◌≡◌, ◌⊎◌, inl, inr, refl, ◌&&◌, truthy, Bool-cases,
}
use testkit_service.Browser.{
  Browser, Outcome, ok, toasted, success, error, Failure, thrown, Request,
}
use testkit_service.Request.{Reply, replied, failed, Server, call}
use testkit_service.Request.Laws.{IsAnswered, call-IsAnswered, after_send, after_failure}
use testkit_service.Services.{get_sts_credential, confirm_upload}
use testkit_service.Submit.Laws.{sent_request}
use testkit_service.Mail.Attach.{LocalFile}
use testkit_service.Upload.{
  StsCredential, Dialog, Told, success_told, error_told, sts_body, with_credential, failed_text,
  custom_request,
}

module _ (decimal : ℕ → String) (error_message : Failure → Option String)
    (credentials : Server StsCredential) (confirms : Server (Unit {0})) (file : LocalFile)
    (d : Dialog) (w : Browser) where
  abbrev asked : Request
  asked = get_sts_credential (sts_body decimal file)

  -- The browser once the credential is asked for.
  abbrev pub asking : Browser
  asking = after_send w asked

  -- The answer to the request for a credential, as it left.
  abbrev pub granted : Reply StsCredential
  granted = credentials w.log (sent_request w asked)

  abbrev confirmation : StsCredential → Request
  confirmation cred = confirm_upload (("uploadToken", cred.upload_token) ∷ [])

  -- The browser once the upload with a credential is confirmed, and the answer to that request.
  abbrev pub confirming : StsCredential → Browser
  confirming cred = after_send asking (confirmation cred)

  abbrev pub confirmed : StsCredential → Reply (Unit {0})
  confirmed cred = confirms asking.log (sent_request asking (confirmation cred))

  abbrev pub IsInstant : StsCredential → Type 0
  IsInstant cred = (cred.instant && truthy cred.file_id) ≡ true

  -- A credential for a file that the storage does not have, with a token to upload it.
  abbrev pub IsUploaded : StsCredential → Type 0
  IsUploaded cred =
      ((cred.instant && truthy cred.file_id) ≡ false) × (truthy cred.upload_token ≡ true)

  -- The dialog is closed, its owner called once, and the success shown behind what had happened.
  abbrev pub Succeeds : String → Browser → Outcome (Dialog × Told) × Browser → Type 0
  Succeeds text left r = r ≡ (
    ok (record d { open_ = false; uploading = false; dones = d.dones + 1 }, success_told),
    record left { log = toasted success text ∷ left.log },
  )

  -- The dialog stays as it was, and the reason is shown behind what had happened.
  abbrev pub Fails : Failure → Browser → Outcome (Dialog × Told) × Browser → Type 0
  Fails e left r = r ≡ (
    ok (record d { uploading = false }, error_told),
    record left { log = toasted error (failed_text error_message e) ∷ left.log },
  )

  -- The ends of an upload, by the answers of the servers.
  abbrev pub IsEnded : Outcome (Dialog × Told) × Browser → Type 0
  IsEnded r =
      ((cred : StsCredential) × (granted ≡ replied cred)
        × ((IsInstant cred × Succeeds "秒传成功（MD5 命中）" asking r)
            ⊎ ((IsUploaded cred
                  × (confirmed cred ≡ replied tt)
                  × Succeeds "上传成功" (confirming cred) r)
                ⊎ (((e : Failure) × IsUploaded cred
                      × (confirmed cred ≡ failed e)
                      × Fails e (after_failure e (confirming cred)) r)
                    ⊎ (((cred.instant && truthy cred.file_id) ≡ false)
                        × (truthy cred.upload_token ≡ false)
                        × Fails (thrown "未获得上传凭证") asking r)))))
      ⊎ ((e : Failure) × (granted ≡ failed e) × Fails e (after_failure e asking) r)

  -- The way with a token, by the answer to the confirmation.
  confirmed-IsEnded :
      (cred : StsCredential)
      → granted ≡ replied cred
      → call credentials asked w ≡ (ok cred, asking)
      → IsUploaded cred
      → IsAnswered confirms (confirmation cred) asking (call confirms (confirmation cred) asking)
      → IsEnded (custom_request decimal error_message credentials confirms file d w)
  unfolding custom_request with_credential
  confirmed-IsEnded cred came e (new, token) (inl (_, c, f)) =
      inl (cred, came, inr (inl ((new, token), c, rw (e, new, token, f) refl)))
  confirmed-IsEnded cred came e (new, token) (inr (x, c, f)) =
      inl (cred, came, inr (inr (inl (x, (new, token), c, rw (e, new, token, f) refl))))

  ended :
      w.blocked ≡ false
      → IsAnswered credentials asked w (call credentials asked w)
      → IsEnded (custom_request decimal error_message credentials confirms file d w)
  unfolding custom_request with_credential
  ended b (inl (cred, came, e)) = elim (Bool-cases (cred.instant && truthy cred.file_id)) [
    | inl instant ↦ inl (cred, came, inl (instant, rw (e, instant) refl))
    | inr new ↦ elim (Bool-cases (truthy cred.upload_token)) [
      | inl token ↦
          confirmed-IsEnded cred came e (new, token)
            (call-IsAnswered confirms (confirmation cred) asking b)
      | inr missing ↦ inl (cred, came, inr (inr (inr (new, missing, rw (e, new, missing) refl))))
    ]
  ]
  ended b (inr (f, came, e)) = inr (f, came, rw e refl)

  -- Where storage can be read, an upload ends, by what the servers answer. With a credential for a file
  -- that the storage has, the success is shown at once, and no further request leaves. With one that has
  -- an upload token, the confirmation with that token leaves, and the success is shown exactly when it is
  -- answered. Without a token, or where one of the two requests fails, the reason is shown, after a 401
  -- behind its cleanup. After a success the dialog is closed and its owner called once, after a failure
  -- it is as it was, and in both cases it is no longer busy.
  pub custom_request-IsEnded :
      w.blocked ≡ false
      → IsEnded (custom_request decimal error_message credentials confirms file d w)
  custom_request-IsEnded b = ended b (call-IsAnswered credentials asked w b)

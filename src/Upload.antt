-- ===== src/Upload.antt =====
-- The upload dialog of the file list (web/src/pages/Files/MyFiles/UploadModal.tsx). The message of an
-- Error and the decimal text of a number are parameters.
pub mod Laws
use Prim.Native.String as Text
use testkit_service.Prelude.{
  ℕ, ◌+◌, String, Bool, true, false, Option, none, some, List, [], ◌∷◌, not, ◌&&◌, truthy, get_or,
  if◌then◌else◌,
}
use testkit_service.Browser.{
  M, pure, throw, ◌>>=◌, ◌>>◌, catch, emit, toasted, success, error, Failure, thrown,
}
use testkit_service.Request.{Server, call}
use testkit_service.Services.{get_sts_credential, confirm_upload}
use testkit_service.Mail.Attach.{LocalFile}
use testkit_service.Mail.Large.{content_type}

-- v1GetSTSCredentialResponse, the fields that decide; the others go to putToOSS
pub record StsCredential : Type 0 where
  pub instant : Bool
  pub file_id : Option String
  pub upload_token : Option String

-- The dialog, the busy mark, and how often onDone was called.
pub record Dialog : Type 0 where
  pub open_ : Bool
  pub uploading : Bool
  pub dones : ℕ

-- what `opt` is told
pub data Told : Type 0 where
  success_told error_told : Told

-- placeholderMd5
abbrev pub placeholder_md5 : String
placeholder_md5 = "00000000000000000000000000000000"

-- putToOSS: a timer, and no bytes
abbrev put_to_oss : M (Unit {0})
put_to_oss = pure tt

-- onDone, onOpenChange(false) and opt.onSuccess
abbrev pub closed : Dialog → Dialog × Told
closed d = (record d { open_ = false; dones = d.dones + 1 }, success_told)

unfoldable pub sts_body : (decimal : ℕ → String) → LocalFile → List (String × Option String)
sts_body decimal file =
    ("filename", some file.name)
    ∷ ("md5", some placeholder_md5)
    ∷ ("contentType", some (content_type file))
    ∷ ("maxSize", some (decimal file.size))
    ∷ []

-- the `try` once the credential is there
unfoldable pub with_credential : Server (Unit {0}) → Dialog → StsCredential → M (Dialog × Told)
with_credential confirms d cred =
    if cred.instant && truthy cred.file_id
    then (do emit (toasted success "秒传成功（MD5 命中）"); pure (closed d))
    else (if not (truthy cred.upload_token) then throw (thrown "未获得上传凭证") else (do
      put_to_oss
      _ ← call confirms (confirm_upload (("uploadToken", cred.upload_token) ∷ []))
      emit (toasted success "上传成功")
      pure (closed d)))

-- the text of the `catch`
abbrev pub failed_text : (error_message : Failure → Option String) → Failure → String
failed_text error_message e = Text.◌++◌ "上传失败：" (get_or (error_message e) "上传失败")

-- customRequest
unfoldable pub custom_request :
    (decimal : ℕ → String) (error_message : Failure → Option String)
    → Server StsCredential
    → Server (Unit {0})
    → LocalFile
    → Dialog
    → M (Dialog × Told)
unfolding sts_body with_credential
custom_request decimal error_message credentials confirms file d = do
  told ←
      catch
        (do
          cred ← call credentials (get_sts_credential (sts_body decimal file))
          with_credential confirms (record d { uploading = true }) cred)
        (λ e. do
          emit (toasted error (failed_text error_message e))
          pure (record d { uploading = true }, error_told))
  pure (record (told.0) { uploading = false }, told.1)

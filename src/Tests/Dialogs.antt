-- ===== src/Tests/Dialogs.antt =====
-- The upload dialog and the editor at concrete servers and texts.
use Prim.Native.String.{◌++◌}
use testkit_service.Prelude.{ℕ, String, true, false, Option, none, some, List, [], ◌∷◌, inl, refl}
use testkit_service.Browser.{Browser, Failure, thrown, http}
use testkit_service.Request.{Server, replied, failed}
use testkit_service.Mail.Attach.{LocalFile}
use testkit_service.Upload.{StsCredential, Dialog, custom_request}
use testkit_service.Upload.Laws.{IsEnded, custom_request-IsEnded}
use testkit_service.Editor.{
  Event, area_edited, mode_toggled, source_typed, html_appended, tool_used, act, run, blank,
}
use testkit_service.Editor.Laws.{Formats, IsShown, run-IsShown}
use testkit_service.Credentials.{ApiKeyInfo, SecretResponse}
use testkit_service.Tests.Data.{empty_at}

abbrev photo : LocalFile
photo = record { name = "photo.png"; mime = "image/png"; size = 2000000 }

abbrev tokens : Server StsCredential
tokens log req = replied (record { instant = false; file_id = none; upload_token = some "t" })

-- A gateway that no longer knows the session.
abbrev expired : Server (Unit {0})
expired log req = failed (http (some 401) none none)

abbrev text_of : ℕ → String
text_of n = "2000000"

abbrev message_of : Failure → Option String
message_of (thrown m) = some m
message_of e = none

abbrev dialog : Dialog
dialog = record { open_ = true; uploading = false; dones = 0 }

abbrev files : Browser
files = empty_at "/storage/files"

custom_request-IsEnded_example :
    IsEnded text_of message_of tokens expired photo dialog files
      (custom_request text_of message_of tokens expired photo dialog files)
custom_request-IsEnded_example =
    custom_request-IsEnded text_of message_of tokens expired photo dialog files refl

-- An area that keeps texts as they are.
abbrev same : String → String
same s = s

abbrev behind : String → String → String
behind html area = area ++ html

abbrev bold : String → String
bold area = "<b>" ++ area ++ "</b>"

abbrev writing : List (Event String)
writing =
    area_edited "Hi"
    ∷ tool_used bold
    ∷ mode_toggled
    ∷ source_typed "<p>Hi</p>"
    ∷ html_appended "<hr>"
    ∷ []

writing-Formats : Formats same same behind writing (blank same same behind)
unfolding act
writing-Formats = ((λ e. refl), ((λ e. refl), ((λ e. cc), ((λ e. cc), ((λ e. cc), tt)))))

run-IsShown_example :
    IsShown same same behind
      (run same same behind writing (blank same same behind)).source
      (run same same behind writing (blank same same behind))
run-IsShown_example =
    run-IsShown same same behind writing (blank same same behind) writing-Formats (inl refl)

-- A key of a tenant, and a gateway that rotates it.
abbrev api_key : ApiKeyInfo
api_key = record { access_key = some "ak_1"; disabled = false }

abbrev rotates : Server SecretResponse
rotates log req = replied (record { api_key = some api_key; secret = some "sk_2" })

-- ===== src/Mail/Large.antt =====
-- Large attachments of the compose page: handleLargeFileChange. The file goes to object storage, and a
-- link to it into the body. The hash, the servers, `Date.now`, the texts of numbers and the message of
-- an Error are parameters.
pub mod Laws
use testkit_service.Prelude.{
  ℕ, ◌+◌, ◌-◌, ◌*◌, ◌/◌, String, Bool, true, false, Option, none, some, List, [], ◌∷◌, ◌++◌, not,
  ltb, truthy, get_or, insert, nonempty, if◌then◌else◌,
}
use Prim.Native.String
use testkit_service.Browser.{
  Browser, Request, Effect, sent, M, pure, throw, ok, err, ◌>>=◌, ◌>>◌, catch, emit, toasted, error,
  success, Failure, Outcome, thrown,
}
use testkit_service.Request.{Server, call}
use testkit_service.Services.{generate_upload_url, confirm_upload, create_file_link}
use testkit_service.Mail.Attach.{LocalFile}
use testkit_service.Mail.Markup.{LargeAttachment, large_attachment_block_html}

-- v1GenerateUploadURLResponse, the fields that the page reads; a header may have no text for a value
pub record UploadUrl : Type 0 where
  pub instant : Bool
  pub file_id : Option String
  pub upload_token : Option String
  pub upload_url : Option String
  pub headers : List (String × Option String)

-- v1CreateFileLinkResponse
pub record FileLink : Type 0 where
  pub link_token : Option String
  pub retain_until : Option String

-- What `fetch` resolves to or rejects with.
pub data PutReply : Type 0 where
  stored : PutReply
  refused : (status : ℕ) → PutReply
  unreachable : Failure → PutReply

pub record Gateway : Type 0 where
  pub md5 : LocalFile → Outcome String
  pub uploads : Server UploadUrl
  pub storage : List Effect → Request → PutReply
  pub confirms : Server (Option String)
  pub links : Server FileLink
  pub now : List Effect → ℕ
  pub number : String → Option ℕ
  pub decimal : ℕ → String
  pub origin : String
  pub error_message : Failure → Option String

-- The state of the page that the handler changes: the list, the next key, the blocks that were added
-- to the editor, and the busy mark.
pub record LargeCompose : Type 0 where
  pub large : List LargeAttachment
  pub next_key : ℕ
  pub blocks : List String
  pub uploading : Bool

-- `file.type || "application/octet-stream"`
abbrev pub content_type : LocalFile → String
content_type file = if nonempty file.mime then file.mime else "application/octet-stream"

-- putHeaders
abbrev pub with_texts :
    List (String × Option String) → List (String × String) → List (String × String)
with_texts [] headers = headers
with_texts ((k, none) ∷ more) headers = with_texts more headers
with_texts ((k, some v) ∷ more) headers = with_texts more (insert k v headers)

-- `Math.max(1, Math.floor((retainUntil - Date.now()) / 86400000))` for a number above zero: below
-- `Date.now()` the quotient is negative, so it is 1
unfoldable pub days_until : ℕ → ℕ → ℕ
days_until retain_until now =
    let days = (retain_until - now) / 86400000 in if ltb days 1 then 1 else days

abbrev days_of_number : Option ℕ → ℕ → Option ℕ
days_of_number none now = none
days_of_number (some n) now = if ltb 0 n then some (days_until n now) else none

module _ (g : Gateway) where
  -- `expiresDays`, undefined where the time is absent, zero or no number
  unfoldable pub expires_days : Option String → ℕ → Option ℕ
  expires_days retain_until now =
      if truthy retain_until then days_of_number (g.number (get_or retain_until "")) now else none

  abbrev hashed : Outcome String → M String
  hashed (ok hash) = pure hash
  hashed (err e) = throw e

  abbrev put_answered : PutReply → M (Unit {0})
  put_answered stored = pure tt
  put_answered (refused status) =
      throw (thrown (String.◌++◌ "对象存储上传失败（HTTP " (String.◌++◌ (g.decimal status) "）")))
  put_answered (unreachable e) = throw e

  -- the PUT straight to object storage, without the interceptor
  unfoldable pub put_file : String → List (String × String) → M (Unit {0})
  put_file url headers w =
      let req : Request = record { method = "PUT"; url = url; headers = headers; body = [] } in
      put_answered (g.storage w.log req) (record w { log = sent req ∷ w.log })

  -- `if (!up.instant)`: the file's id
  unfoldable pub store_file : LocalFile → UploadUrl → M String
  store_file file up =
      if up.instant
      then pure (get_or up.file_id "")
      else (if not (truthy up.upload_url) then throw (thrown "未获得上传链接") else (do
        put_file (get_or up.upload_url "")
            (with_texts up.headers (("Content-Type", content_type file) ∷ []))
        confirmed ←
            call g.confirms
              (confirm_upload (("uploadToken", some (get_or up.upload_token "")) ∷ []))
        pure (get_or confirmed (get_or up.file_id ""))))

  -- the attachment for a link
  abbrev made : LocalFile → ℕ → FileLink → M LargeAttachment
  made file key link w = (
    ok (record {
      key = key;
      filename = file.name;
      url = String.◌++◌ g.origin (String.◌++◌ "/link/" (get_or link.link_token ""));
      size_bytes = file.size;
      expires_days = expires_days link.retain_until (g.now w.log);
    }),
    w,
  )

  -- the `try` block up to the new attachment, for the key that it takes
  unfoldable pub prepare : LocalFile → ℕ → M LargeAttachment
  prepare file key = do
    hash ← hashed (g.md5 file)
    up ← call g.uploads (
        generate_upload_url (
          ("filename", some file.name)
          ∷ ("size", some (g.decimal file.size))
          ∷ ("md5", some hash)
          ∷ ("contentType", some (content_type file))
          ∷ []))
    file_id ← store_file file up
    link ← call g.links (create_file_link file_id (("retentionTtlSeconds", some "2592000") ∷ []))
    if truthy link.link_token then made file key link else throw (thrown "未获得附件链接令牌")

  -- the state once the attachment is made
  abbrev pub attached : LargeAttachment → LargeCompose → LargeCompose
  attached att s = record s {
    large = s.large ++ att ∷ [];
    next_key = s.next_key + 1;
    blocks = s.blocks ++ large_attachment_block_html g.decimal att ∷ [];
  }

  abbrev pub done_text : LocalFile → String
  done_text file = String.◌++◌ "「" (String.◌++◌ file.name "」上传成功，下载区块已插入正文")

  abbrev pub failed_text : LocalFile → Failure → String
  failed_text file e =
      String.◌++◌ "「"
        (String.◌++◌ file.name (String.◌++◌ "」超大附件上传失败：" (get_or (g.error_message e) "未知错误")))

  -- one round of the loop: `try`, `catch` and `finally`
  unfoldable pub upload_large : LocalFile → LargeCompose → M LargeCompose
  upload_large file s = do
    s' ←
        catch
          (do
            att ← prepare file s.next_key
            emit (toasted success (done_text file))
            pure (attached att (record s { uploading = true })))
          (λ e. do emit (toasted error (failed_text file e)); pure (record s { uploading = true }))
    pure (record s' { uploading = false })

  -- handleLargeFileChange
  unfoldable pub handle_large_file_change : List LocalFile → LargeCompose → M LargeCompose
  handle_large_file_change [] s = pure s
  handle_large_file_change (file ∷ files) s = do
    s' ← upload_large file s
    handle_large_file_change files s'

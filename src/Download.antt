-- ===== src/Download.antt =====
-- web/src/pages/Link/Download/index.tsx: the anonymous page of a file link. `Number` of a text is a
-- parameter, none where it is NaN.
pub mod Laws
use testkit_service.Prelude.{
  ℕ, String, Bool, true, false, Option, none, some, truthy, get_or, if◌then◌else◌,
}
use testkit_service.Browser.{M, pure, ◌>>=◌, catch}
use testkit_service.Request.{Server, call}
use testkit_service.Services.{get_file_link_download}

-- v1GetFileLinkDownloadResponse
pub record LinkDownload : Type 0 where
  pub expired : Bool
  pub filename : Option String
  pub size_bytes : Option String
  pub download_url : Option String

-- The page's state; `scheduled` is the address that the timer goes to, and a size may be NaN.
pub record DownloadPage : Type 0 where
  pub loading : Bool
  pub filename : String
  pub size_bytes : Option (Option ℕ)
  pub download_url : String
  pub expired : Bool
  pub error : String
  pub scheduled : Option String

-- the initial state
abbrev pub opened : DownloadPage
opened = record {
  loading = true;
  filename = "";
  size_bytes = none;
  download_url = "";
  expired = false;
  error = "";
  scheduled = none;
}

-- the handler of an answer
unfoldable pub take_link : (String → Option ℕ) → LinkDownload → DownloadPage → DownloadPage
take_link number resp page =
    if resp.expired
    then record page { expired = true; filename = get_or resp.filename "" }
    else (if truthy resp.download_url
        then record page {
          filename = get_or resp.filename "附件";
          size_bytes =
              if truthy resp.size_bytes then some (number (get_or resp.size_bytes "")) else none;
          download_url = get_or resp.download_url "";
          scheduled = resp.download_url;
        }
        else record page { error = "获取下载链接失败" })

-- the `then` and `catch` of the request
unfoldable pub ask_link :
    (String → Option ℕ) → Server LinkDownload → String → DownloadPage → M DownloadPage
ask_link number server token page =
    catch (do resp ← call server (get_file_link_download token); pure (take_link number resp page))
      (λ _. pure (record page { error = "获取下载链接失败，请稍后重试" }))

-- the effect of the page
unfoldable pub open_link :
    (String → Option ℕ) → Server LinkDownload → Option String → DownloadPage → M DownloadPage
open_link number server token page =
    if truthy token
    then (do
      page' ← ask_link number server (get_or token "") page
      pure (record page' { loading = false }))
    else pure (record page { error = "链接无效"; loading = false })

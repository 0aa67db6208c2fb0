-- ===== src/Files.antt =====
-- web/src/pages/Files/MyFiles/index.tsx: the user's own files. A list of ids in a body stands as its
-- JSON, a number as its decimal text and a query as its text, which are parameters.
pub mod Laws
use Prim.Native.String as Text
use testkit_service.Prelude.{
  ℕ, ◌+◌, String, Bool, true, false, Option, none, some, List, [], ◌∷◌, length, get_or, truthy, ltb,
  if◌then◌else◌,
}
use testkit_service.Browser.{M, pure, ◌>>=◌, ◌>>◌, when, emit, toasted, success, warning, Request}
use testkit_service.Request.{Server, call}
use testkit_service.Services.{
  generate_download_url, delete_my_file, batch_delete_my_files, list_my_files_paged,
}
use testkit_service.Submit.{send_plain}

-- The hooks of the page, the windows that it opened, and how often the table was reloaded.
pub record FilesPage : Type 0 where
  pub selected : List String
  pub upload_open : Bool
  pub windows : List String
  pub reloads : ℕ

-- reload
unfoldable pub reload_files : FilesPage → FilesPage
reload_files page = record page { selected = []; reloads = page.reloads + 1 }

-- handleDownload; the answer is the address
unfoldable pub handle_download :
    Server (Option String) → (file_id : String) → FilesPage → M FilesPage
handle_download server file_id page = do
  url ← call server (generate_download_url file_id)
  when (if truthy url then false else true) (emit (toasted warning "未获得下载地址"))
  pure (if truthy url then record page { windows = get_or url "" ∷ page.windows } else page)

-- handleDelete
unfoldable pub handle_delete : Server (Unit {0}) → (file_id : String) → FilesPage → M FilesPage
unfolding reload_files
handle_delete server file_id page =
    send_plain server (delete_my_file file_id) (λ _. "已删除") (λ _ p. reload_files p) page

-- API.v1BatchDeleteMyFilesResponse
pub record BatchDeleted : Type 0 where
  pub deleted_count : Option ℕ
  pub failed_ids : Option (List String)

-- handleBatchDelete
unfoldable pub handle_batch_delete :
    (decimal : ℕ → String)
    → (ids_text : List String → String) → Server BatchDeleted
    → FilesPage
    → M FilesPage
unfolding reload_files
handle_batch_delete decimal ids_text server page = do
  resp ← call server (batch_delete_my_files (("fileIds", some (ids_text page.selected)) ∷ []))
  emit (
      toasted success (Text.◌++◌ "已删除 " (Text.◌++◌ (decimal (get_or resp.deleted_count 0)) " 个文件")))
  let failed = length (get_or resp.failed_ids [])
  when (ltb 0 failed) (emit (toasted warning (Text.◌++◌ (decimal failed) " 个文件删除失败")))
  pure (reload_files page)

-- request
unfoldable pub files_request :
    (decimal : ℕ → String)
    → (query : List (String × Option String) → String)
    → (path_prefix extension content_type_prefix order_by : Option String)
    → (current page_size : Option ℕ) → Request
files_request decimal query path_prefix extension content_type_prefix order_by current page_size =
    list_my_files_paged (
      query (
        ("page", some (decimal (get_or current 1)))
        ∷ ("pageSize", some (decimal (get_or page_size 20)))
        ∷ ("pathPrefix", path_prefix)
        ∷ ("extension", extension)
        ∷ ("contentTypePrefix", content_type_prefix)
        ∷ ("orderBy", order_by)
        ∷ []))

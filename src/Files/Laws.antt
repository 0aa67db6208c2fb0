-- ===== src/Files/Laws.antt =====
-- What a batch deletion reports, and what it leaves selected.
use Prim.Native.String as Text
use testkit_service.Prelude.{
  ℕ, String, false, some, List, [], ◌∷◌, ◌≡◌, ◌⊎◌, inl, inr, refl, length, get_or, ltb, Bool-cases,
  if◌then◌else◌,
}
use testkit_service.Browser.{
  Browser, Outcome, ok, err, Failure, Effect, toasted, success, warning, Request,
}
use testkit_service.Request.{Server, call}
use testkit_service.Request.Laws.{IsSettled, call-IsSettled, after_send}
use testkit_service.Services.{batch_delete_my_files}
use testkit_service.Submit.{requests}
use testkit_service.Submit.Laws.{sent_request, requests-logged_out}
use testkit_service.Files.{BatchDeleted, FilesPage, handle_batch_delete, reload_files}

module _ (decimal : ℕ → String) (ids_text : List String → String) (server : Server BatchDeleted)
    (page : FilesPage) (w : Browser) where
  abbrev batch : Request
  batch = batch_delete_my_files (("fileIds", some (ids_text page.selected)) ∷ [])

  -- the two messages of an answer, the newest first
  abbrev pub reported : BatchDeleted → List Effect → List Effect
  reported resp log =
      let done =
        toasted success
          (Text.◌++◌ "已删除 " (Text.◌++◌ (decimal (get_or resp.deleted_count 0)) " 个文件"))
        ∷ log in
      let failed = length (get_or resp.failed_ids []) in
      if ltb 0 failed then toasted warning (Text.◌++◌ (decimal failed) " 个文件删除失败") ∷ done else done

  -- One request has left, with the selected files. An answer empties the selection, loads the table again
  -- and is reported; a failure is the action's.
  abbrev pub IsBatched : Outcome FilesPage × Browser → Type 0
  IsBatched r =
      (requests r.1.log ≡ sent_request w batch ∷ requests w.log)
      × (((resp : BatchDeleted) × (log : List Effect) × (r.0 ≡ ok (reload_files page))
            × (r.1.log ≡ reported resp log))
          ⊎ ((e : Failure) × (r.0 ≡ err e)))

  batched :
      IsSettled (call server batch w) (after_send w batch)
      → IsBatched (handle_batch_delete decimal ids_text server page w)
  unfolding handle_batch_delete requests
  batched (inl (resp, e)) = elim (Bool-cases (ltb 0 (length (get_or resp.failed_ids [])))) [
    | inl some_failed ↦
        simp (e, some_failed)
          (refl, inl (resp, (after_send w batch).log, refl, simp some_failed refl))
    | inr all_gone ↦
        simp (e, all_gone) (refl, inl (resp, (after_send w batch).log, refl, simp all_gone refl))
  ]
  batched (inr (inl (f, e))) = rw e (refl, inr (f, refl))
  batched (inr (inr (f, e))) = rw e (requests-logged_out (after_send w batch), inr (f, refl))

  -- Where storage can be read, a batch deletion sends one request for the selected files. An answer
  -- empties the selection, loads the table again, and is reported with a warning exactly if files have
  -- failed; a failure of the request is the action's, and keeps the selection.
  pub handle_batch_delete-IsBatched :
      w.blocked ≡ false → IsBatched (handle_batch_delete decimal ids_text server page w)
  handle_batch_delete-IsBatched b = batched (call-IsSettled server batch w b)

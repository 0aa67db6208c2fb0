-- ===== src/Download/Laws.antt =====
-- The page of a file link comes to exactly one answer.
use testkit_service.Prelude.{
  ℕ, String, true, false, Option, none, some, ◌≡◌, ◌⊎◌, inl, inr, refl, truthy, get_or, nonempty,
  Bool-cases,
}
use testkit_service.Browser.{Browser, ok}
use testkit_service.Request.{Server, call}
use testkit_service.Request.Laws.{call-IsSettled, IsSettled, after_send, logged_out}
use testkit_service.Services.{get_file_link_download}
use testkit_service.Download.{LinkDownload, DownloadPage, opened, take_link, ask_link, open_link}

-- What the page shows when it no longer loads: an error, that the link has expired, or a download
-- that a timer starts.
abbrev pub IsAnswer : DownloadPage → Type 0
IsAnswer p =
    (p.loading ≡ false)
    × (((nonempty p.error ≡ true) × (p.expired ≡ false) × (p.scheduled ≡ none))
        ⊎ (((p.error ≡ "") × (p.expired ≡ true) × (p.scheduled ≡ none))
            ⊎ ((p.error ≡ "")
                × (p.expired ≡ false)
                × (nonempty p.download_url ≡ true)
                × (p.scheduled ≡ some p.download_url))))

take_link-IsAnswer :
    (number : String → Option ℕ) (resp : LinkDownload)
    → IsAnswer (record (take_link number resp opened) { loading = false })
unfolding take_link
take_link-IsAnswer number resp = elim (Bool-cases resp.expired) [
  | inl expired ↦ rw expired (refl, inr (inl (refl, refl, refl)))
  | inr shown_ ↦ by_url resp.download_url shown_ refl
]
  where
    by_url :
        (url : Option String)
        → resp.expired ≡ false
        → resp.download_url ≡ url
        → IsAnswer (record (take_link number resp opened) { loading = false })
    by_url none shown_ e = rw (shown_, e) (refl, inl (refl, refl, refl))
    by_url (some u) shown_ e = elim (Bool-cases (nonempty u)) [
      | inl full ↦ rw (shown_, e, full) (refl, inr (inr (refl, refl, full, refl)))
      | inr empty ↦ rw (shown_, e, empty) (refl, inl (refl, refl, refl))
    ]

-- Where storage can be read, a page that is opened comes to an answer whatever the server does, and
-- never throws: an error, an expired link, or a download from an address that is not empty, to which
-- the timer goes.
pub open_link-IsAnswer :
    (number : String → Option ℕ) (server : Server LinkDownload) (token : Option String)
    (w : Browser)
    → w.blocked ≡ false
    → (p : DownloadPage) × (r : Browser) × (open_link number server token opened w ≡ (ok p, r))
      × IsAnswer p
unfolding open_link ask_link
open_link-IsAnswer number server token w b = elim (Bool-cases (truthy token)) [
  | inr missing ↦ (
    record opened { error = "链接无效"; loading = false },
    w,
    rw missing,
    (refl, inl (refl, refl, refl)),
  )
  | inl given ↦
      from_call given (call-IsSettled server (get_file_link_download (get_or token "")) w b)
]
  where
    from_call :
        truthy token ≡ true
        → IsSettled
            (call server (get_file_link_download (get_or token "")) w)
            (after_send w (get_file_link_download (get_or token "")))
        → (p : DownloadPage) × (r : Browser) × (open_link number server token opened w ≡ (ok p, r))
          × IsAnswer p
    from_call t (inl (resp, e)) = (
      record (take_link number resp opened) { loading = false },
      after_send w (get_file_link_download (get_or token "")),
      rw (t, e),
      take_link-IsAnswer number resp,
    )
    from_call t (inr (inl (f, e))) = (
      record opened { error = "获取下载链接失败，请稍后重试"; loading = false },
      after_send w (get_file_link_download (get_or token "")),
      rw (t, e),
      (refl, inl (refl, refl, refl)),
    )
    from_call t (inr (inr (f, e))) = (
      record opened { error = "获取下载链接失败，请稍后重试"; loading = false },
      logged_out (after_send w (get_file_link_download (get_or token ""))),
      rw (t, e),
      (refl, inl (refl, refl, refl)),
    )

-- ===== src/Records/Laws.antt =====
-- The table of the records always gets an answer.
use testkit_service.Prelude.{◌≡◌, ◌⊎◌, inl, inr}
use testkit_service.Browser.{Browser, Request, ok}
use testkit_service.Browser.Laws.{caught}
use testkit_service.Request.{Server, call}
use testkit_service.Records.{ListResponse, listed, unlisted, request_offset}

-- A numbered page of records comes to an end without a failure, whatever the server does and even where
-- storage cannot be read: the table gets the rows and the total of the answer, or no rows and the word
-- that it did not succeed.
pub request_offset-IsAnswered :
    {A : Type 0} (server : Server (ListResponse A)) (req : Request) (w : Browser)
    → ((resp : ListResponse A) × ((request_offset server req w).0 ≡ ok (listed resp)))
      ⊎ ((request_offset server req w).0 ≡ ok (unlisted {A = A}))
unfolding request_offset
request_offset-IsAnswered {A} server req w =
    elim (caught (λ (resp : ListResponse A). listed resp) (λ _. unlisted) (call server req w)) [
      | inl (resp, e) ↦ inl (resp, e)
      | inr (f, e) ↦ inr e
    ]

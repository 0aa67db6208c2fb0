-- ===== src/Records.antt =====
-- web/src/pages/Message/{Emails,SMS}/index.tsx: the records of what was sent. The two pages load, open
-- and count in the same way; the row and the statistics are type parameters. A number in a query stands
-- as its decimal text, a query as the text that the parameter `query` writes.
pub mod Laws
use testkit_service.Prelude.{
  ℕ, String, Bool, true, false, Option, none, some, List, [], ◌∷◌, map, get_or, or_undefined,
}
use testkit_service.Browser.{M, pure, ◌>>=◌, catch, Request}
use testkit_service.Request.{Server, call}
use testkit_service.Services.{
  message_list_tenant_configs, list_emails, list_emails_by_cursor, list_sms, list_sms_by_cursor,
  list_sms_regions,
}
use testkit_service.Submit.{try_take}
use testkit_service.Admin.{TenantConfig}

-- the filters of the two search forms
pub record EmailFilter : Type 0 where
  pub vendor : Option String
  pub scene : Option String
  pub status : Option String
  pub target : Option String

pub record SmsFilter : Type 0 where
  pub vendor : Option String
  pub scene : Option String
  pub status : Option String
  pub region_code : Option String
  pub phone : Option String

-- the order that every list asks for
abbrev newest_first : List (String × Option String)
newest_first =
    ("sortField", some "SORT_FIELD_CREATED_AT") ∷ ("sortDirection", some "SORT_DIRECTION_DESC") ∷ []

module _ (decimal : ℕ → String) (query : List (String × Option String) → String) where
  -- the requests of the numbered pages
  unfoldable pub emails_request :
      EmailFilter → (current : Option ℕ) → (page_size : Option ℕ) → Request
  emails_request params current page_size = list_emails (
      query (
        ("vendor", params.vendor)
        ∷ ("scene", params.scene)
        ∷ ("status", params.status)
        ∷ ("target", params.target)
        ∷ ("page", some (decimal (get_or current 1)))
        ∷ ("pageSize", some (decimal (get_or page_size 20)))
        ∷ newest_first))

  unfoldable pub sms_list_request :
      SmsFilter → (current : Option ℕ) → (page_size : Option ℕ) → Request
  sms_list_request params current page_size = list_sms (
      query (
        ("vendor", params.vendor)
        ∷ ("scene", params.scene)
        ∷ ("status", params.status)
        ∷ ("regionCode", params.region_code)
        ∷ ("phone", params.phone)
        ∷ ("page", some (decimal (get_or current 1)))
        ∷ ("pageSize", some (decimal (get_or page_size 20)))
        ∷ newest_first))

  -- the fetches of useCursorTable
  unfoldable pub emails_by_cursor_request :
      EmailFilter → (cursor : String) → (page_size : ℕ) → Request
  emails_by_cursor_request params cursor page_size = list_emails_by_cursor (
      query (
        ("pageToken", or_undefined (some cursor))
        ∷ ("pageSize", some (decimal page_size))
        ∷ ("vendor", params.vendor)
        ∷ ("scene", params.scene)
        ∷ ("status", params.status)
        ∷ ("target", params.target)
        ∷ newest_first))

  unfoldable pub sms_by_cursor_request : SmsFilter → (cursor : String) → (page_size : ℕ) → Request
  sms_by_cursor_request params cursor page_size = list_sms_by_cursor (
      query (
        ("pageToken", or_undefined (some cursor))
        ∷ ("pageSize", some (decimal page_size))
        ∷ ("vendor", params.vendor)
        ∷ ("scene", params.scene)
        ∷ ("status", params.status)
        ∷ ("regionCode", params.region_code)
        ∷ ("phone", params.phone)
        ∷ newest_first))

-- API.v1ListEmailsResponse, the fields that the page reads
pub record ListResponse (A : Type 0) : Type 0 where
  pub records : Option (List A)
  pub total : Option ℕ

-- what `request` returns to the table
pub record TableData (A : Type 0) : Type 0 where
  pub rows : List A
  pub success : Bool
  pub total : Option ℕ

-- the two ends of `request` in the mode of the numbered pages
unfoldable pub listed : {A : Type 0} → ListResponse A → TableData A
listed resp = record {
  rows = get_or resp.records [];
  success = true;
  total = some (get_or resp.total 0);
}

abbrev pub unlisted : {A : Type 0} → TableData A
unlisted = record { rows = []; success = false; total = none }

unfoldable pub request_offset : {A : Type 0} → Server (ListResponse A) → Request → M (TableData A)
unfolding listed
request_offset server req =
    catch (do resp ← call server req; pure (listed resp)) (λ _. pure unlisted)

-- The hooks of the page.
pub record RecordsPage (A S : Type 0) : Type 0 where
  pub regions : List String
  pub app_keys : List (Option String)
  pub detail : Option A
  pub stats : Option S

module _ {A S : Type 0} where
  -- the details of a row and the statistics
  unfoldable pub open_detail :
      Server A
      → (get : String → Request) → (id : Option String) → RecordsPage A S
      → M (RecordsPage A S)
  open_detail server get id page =
      try_take server (get (get_or id "")) (λ rec p. record p { detail = some rec })
        (λ _. some "加载详情失败") page

  unfoldable pub open_stats : Server S → Request → RecordsPage A S → M (RecordsPage A S)
  open_stats server req page =
      try_take server req (λ r p. record p { stats = some r }) (λ _. some "加载统计失败") page

  -- the effect: the regions, and the keys of the senders
  unfoldable pub load_regions :
      Server (Option (List String)) → RecordsPage A S → M (RecordsPage A S)
  load_regions server page =
      catch (do r ← call server list_sms_regions; pure (record page { regions = get_or r [] }))
        (λ _. pure page)

  unfoldable pub load_senders :
      Server (Option (List TenantConfig)) → RecordsPage A S → M (RecordsPage A S)
  load_senders server page =
      catch
        (do
          r ← call server message_list_tenant_configs
          pure (record page { app_keys = map (λ (a : TenantConfig). a.app_key) (get_or r []) }))
        (λ _. pure page)

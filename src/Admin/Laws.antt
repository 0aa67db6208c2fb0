-- ===== src/Admin/Laws.antt =====
-- Which rows the tables of the message administration show, and how a form of theirs ends.
use testkit_service.Prelude.{
  ◌∷◌, get_or, String, Bool, true, false, not, Option, some, List, ◌≡◌, ◌≢◌, ◌↔◌, ◌⊎◌, inl, inr,
  refl, arith, Bool-cases, Listed, Listed-keep, truthy, is_text, is_text_iff, eq_iff,
}
use testkit_service.Scope.{
  TenantView, filter_tenant_rows, apply_tenant_filter, filter_all, filter_pool,
}
use testkit_service.Scope.Laws.{IsVisible, filter_tenant_rows-IsVisible}
use testkit_service.Browser.{Browser, Request, Outcome, ok, Failure, Effect, toasted, error}
use testkit_service.Request.{Server}
use testkit_service.Submit.{data_message, requests}
use testkit_service.Submit.Laws.{sent_request, IsTried}
use testkit_service.Admin.{Table, shown_rows, message_or}

-- A row passes the filter of the tenants: everything, the platform's pool, or one tenant's rows.
abbrev pub IsChosen : String → Option String → Type 0
IsChosen filter key =
    (filter ≡ filter_all)
    ⊎ (((filter ≡ filter_pool) × (truthy key ≡ false))
        ⊎ ((filter ≢ filter_pool) × (key ≡ some filter)))

module _ {T : Type 0} (get_key : T → Option String) (before : String → String → Bool) where
  chosen :
      (filter : String) (rows : List T) (r : T)
      → Listed r (apply_tenant_filter get_key filter rows)
        ↔ (Listed r rows × IsChosen filter (get_key r))
  unfolding apply_tenant_filter
  chosen filter rows r = ground (
    arith,
    eq_iff filter filter_all,
    eq_iff filter filter_pool,
    Listed-keep (λ (x : T). not (truthy (get_key x))) rows r,
    Listed-keep (λ (x : T). is_text (get_key x) filter) rows r,
    is_text_iff (get_key r) filter,
  )

  -- The table shows exactly the loaded rows that are visible in the view and, in the cross-tenant view,
  -- pass the filter of the tenants; a tenant's own view has no filter.
  pub shown_rows-IsChosen :
      (view : TenantView) (table : Table) (listed : List T) (r : T)
      → Listed r (shown_rows get_key before view table listed).0 ↔ (
          Listed r listed
          × IsVisible view (get_key r)
          × ((view.cross_view ≡ true) → IsChosen table.tenant_filter (get_key r)))
  unfolding shown_rows
  shown_rows-IsChosen view table listed r =
      let visible = filter_tenant_rows-IsVisible get_key view listed r in
      elim (Bool-cases view.cross_view) [
        | inl cross ↦ simp cross (
            ground (
              arith,
              chosen table.tenant_filter (filter_tenant_rows get_key view listed) r,
              visible,
              cross,
            ))
        | inr own ↦ simp own (ground (arith, visible, own))
      ]

-- One request has left; the form closes over the page as it is after it, or it stays open over the page
-- as it was and the failure's message is shown.
abbrev pub IsSubmitted :
    {P : Type 0} → Browser → Request → P → P → String → Outcome (Bool × P) × Browser → Type 0
IsSubmitted {P} w req page after own r =
    (requests r.1.log ≡ sent_request w req ∷ requests w.log)
    × ((r.0 ≡ ok (true, after))
        ⊎ ((e : Failure) × (log : List Effect) × (r.0 ≡ ok (false, page))
            × (r.1.log ≡ toasted error (get_or (data_message e) own) ∷ log)))

module _ {A P : Type 0} (server : Server A) (w : Browser) where
  pub submitted :
      (req : Request) (page : P) (take : P → P) (done own : String)
      (r : Outcome (Bool × P) × Browser)
      → IsTried server req (λ _. done) (λ _ p. (true, take p.1)) (message_or own) (false, page) w r
      → IsSubmitted w req page (take page) own r
  submitted req page take done own r (one, inl (a, log, e, l)) = (one, inl e)
  submitted req page take done own r (one, inr (f, log, e, l)) = (one, inr (f, log, e, l _ refl))

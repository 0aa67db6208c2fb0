-- ===== src/Admin/Policies/Choices.antt =====
-- Which accounts the routes of a policy may take.
use mathlib.Core.Path.{subst}
use testkit_service.Prelude.{
  sym, ◌∙◌, Bool, true, false, some, List, [], ◌∷◌, map, ◌≡◌, ◌↔◌, inl, inr, refl, ap, truthy,
  Listed, Listed-keep, if◌then◌else◌,
}
use testkit_service.Request.{replied}
use testkit_service.Scope.{TenantView, filter_tenant_rows}
use testkit_service.Scope.Laws.{IsVisible, filter_tenant_rows-IsVisible}
use testkit_service.Admin.{TenantConfig}
use testkit_service.Admin.Templates.{TemplateInfo}
use testkit_service.Admin.Accounts.{ChannelAccountInfo}
use testkit_service.Admin.Policies.{
  SignatureInfo, AccountChoice, Options, account_choice, scoped_options, load_options,
  route_accounts,
}

module _ {A B : Type 0} (f : A → B) where
  Listed-map_of : (xs : List A) (b : B) → Listed b (map f xs) → (a : A) × Listed a xs × (f a ≡ b)
  Listed-map_of [] b h = elim h [ ]
  Listed-map_of (x ∷ xs) b (inl e) = (x, inl refl, e)
  Listed-map_of (x ∷ xs) b (inr h) = let (a, listed, e) = Listed-map_of xs b h in (a, inr listed, e)

  Listed-of_map : (xs : List A) (a : A) → Listed a xs → Listed (f a) (map f xs)
  Listed-of_map [] a h = elim h [ ]
  Listed-of_map (x ∷ xs) a (inl e) = inl (ap f e)
  Listed-of_map (x ∷ xs) a (inr h) = inr (Listed-of_map xs a h)

same_kind : (b c : Bool) → ((if b then c else (if c then false else true)) ≡ true) ↔ (c ≡ b)
same_kind true c = (λ e. e, λ e. e)
same_kind false true = (λ e. cc, λ e. cc)
same_kind false false = (λ e. refl, λ e. refl)

module _ (view : TenantView) (apps : List TenantConfig) (templates : List TemplateInfo)
    (accounts : List ChannelAccountInfo) (signatures : List SignatureInfo) (opts : Options) where
  -- the options once the four lists have been answered
  abbrev pub loaded_options : Options
  loaded_options =
      load_options view (replied (some apps)) (replied (some templates)) (replied (some accounts))
        (replied (some signatures)) opts

  -- Once the four lists are loaded, the accounts that a route may take are exactly those of the loaded
  -- ones that are visible in the view and of the channel: with a vendor of text messages for a policy of
  -- text messages, without one for a policy of mails.
  pub route_accounts-IsVisible :
      (sms : Bool) (c : AccountChoice)
      → Listed c (route_accounts loaded_options sms) ↔ (
          (a : ChannelAccountInfo) × Listed a accounts
          × IsVisible view a.tenant_key
          × (truthy a.sms_vendor ≡ sms)
          × (account_choice view a ≡ c))
  unfolding route_accounts load_options scoped_options account_choice
  route_accounts-IsVisible sms c =
      let key = λ (a : ChannelAccountInfo). a.tenant_key in
      let rows = filter_tenant_rows key view accounts in
      let kept =
        Listed-keep (λ (x : AccountChoice). if sms then x.sms else (if x.sms then false else true))
          (map (account_choice view) rows) c in
      (
        λ h.
            let (listed, fits) = kept.0 h in
            let (a, row, e) = Listed-map_of (account_choice view) rows c listed in
            let (loaded, visible) = (filter_tenant_rows-IsVisible key view accounts a).0 row in
            (
              a,
              loaded,
              visible,
              ap (λ (x : AccountChoice). x.sms) e ∙ (same_kind sms c.sms).0 fits,
              e,
            ),
        λ (a, loaded, visible, vendor, e). kept.1 (
          subst (λ x. Listed x (map (account_choice view) rows)) e
              (Listed-of_map (account_choice view) rows a
                ((filter_tenant_rows-IsVisible key view accounts a).1 (loaded, visible))),
          (same_kind sms c.sms).1 (ap (λ (x : AccountChoice). x.sms) (sym e) ∙ vendor),
        ),
      )

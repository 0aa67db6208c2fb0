-- ===== src/Admin/Templates/Owned.antt =====
-- Whom a new template belongs to, and what an edit that changes nothing sends.
use testkit_service.Prelude.{
  String, Bool, true, false, not, ◌&&◌, Option, none, some, List, [], ◌∷◌, ◌≡◌, inl, refl, arith,
  first, is_text, is_text_iff, lookup, Listed, Listed-keep, if◌then◌else◌,
}
use testkit_service.Browser.{Browser}
use testkit_service.Request.{Server}
use testkit_service.Scope.{TenantView}
use testkit_service.Submit.Laws.{try_send-IsTried}
use testkit_service.Admin.{TenantConfig}
use testkit_service.Admin.Laws.{IsSubmitted, submitted}
use testkit_service.Admin.Templates.{
  TemplateInfo, TemplateForm, TemplatesPage, app_found, field_of, create_request, create_template,
  reloaded,
}

first-Listed : {A : Type 0} (xs : List A) (x : A) → first xs ≡ some x → Listed x xs
first-Listed [] x h = cc
first-Listed (y ∷ ys) x h = inl (cc)

-- The configuration that a found app is of: one of the view's tenant.
abbrev pub IsOwnApp : TenantView → List TenantConfig → String → Type 0
IsOwnApp view configs id =
    (c : TenantConfig) × Listed c configs × (c.tenant_key ≡ some view.tenant_key) × (c.id ≡ some id)

found :
    (o : Option TenantConfig) (id : String)
    → field_of (λ (c : TenantConfig). c.id) o ≡ some id
    → (c : TenantConfig) × (o ≡ some c) × (c.id ≡ some id)
found none id h = cc
found (some c) id h = (c, refl, h)

app_found-IsOwnApp :
    (view : TenantView) (configs : List TenantConfig) (page : TemplatesPage) (id : String)
    → (app_found view configs page).tenant_app_id ≡ some id
    → IsOwnApp view configs id
unfolding app_found
app_found-IsOwnApp view configs page id h =
    let own = λ (c : TenantConfig). is_text c.tenant_key view.tenant_key in
    let (c, here, named) = found _ id h in
    let (listed, is_own) = (Listed-keep own configs c).0 (first-Listed _ c here) in
    (c, listed, (is_text_iff c.tenant_key view.tenant_key).0 is_own, named)

named_if :
    (b : Bool) (o : Option String) (id : String)
    → ◌≡◌ {A = Option (Option String)} (some (if b then o else none)) (some (some id))
    → (b ≡ true) × (o ≡ some id)
named_if true o id h = (refl, cc)
named_if false o id h = cc

both_left : (a b : Bool) → not a && b ≡ true → a ≡ false
both_left a b h = ground arith

both_right : (a b : Bool) → not a && b ≡ true → b ≡ true
both_right a b h = ground arith

module _ (text : TemplateInfo → String) (server : Server (Unit {0})) (w : Browser) where
  -- Where storage can be read, the form for a new template sends one request. If that names an app, the
  -- view is a tenant's own, the private scope was picked, and the app is of a configuration that the
  -- page has loaded and that carries the view's tenant.
  pub create_template-IsOwned :
      (view : TenantView) (scope : Option String) (vals : TemplateForm)
      (configs : List TenantConfig) (page : TemplatesPage)
      → w.blocked ≡ false
      → let p = app_found view configs page in
        IsSubmitted w
          (create_request text server view scope vals p)
          p
          (reloaded p)
          "创建失败"
          (create_template text server view scope vals p w)
        × ((id : String)
            → lookup "appId" (create_request text server view scope vals p).body ≡ some (some id)
            → (view.cross_view ≡ false) × (scope ≡ some "private") × IsOwnApp view configs id)
  unfolding create_template create_request
  create_template-IsOwned view scope vals configs page b =
      let p = app_found view configs page in
      (
        submitted server w (create_request text server view scope vals p) p reloaded "已创建" "创建失败"
            (create_template text server view scope vals p w)
            (try_send-IsTried server _ _ _ _ (false, p) w b),
        λ id named.
            let (private_, app) =
              named_if (not view.cross_view && is_text scope "private") p.tenant_app_id id named in
            (
              both_left view.cross_view _ private_,
              (is_text_iff scope "private").0 (both_right view.cross_view _ private_),
              app_found-IsOwnApp view configs page id app,
            ),
      )

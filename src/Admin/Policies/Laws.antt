-- ===== src/Admin/Policies/Laws.antt =====
-- What a saved policy sends, and what an edit leaves out.
use testkit_service.Prelude.{String, true, false, Option, List, ◌≡◌, refl, truthy, if◌then◌else◌}
use testkit_service.Browser.{Browser}
use testkit_service.Request.{Server}
use testkit_service.Submit.Laws.{try_send-IsTried}
use testkit_service.Admin.Laws.{IsSubmitted, submitted}
use testkit_service.Admin.Policies.{
  RouteRule, PolicyForm, Scene, PoliciesPage, policy_request, submit, saved,
}

module _ (routes_text : List RouteRule → String) (scene_text : Scene → String)
    (server : Server (Unit {0})) (w : Browser) where
  -- Where storage can be read, saving a policy sends one request; the form closes and the table is loaded
  -- again, or the form stays open over the page as it was and the failure's message is shown.
  pub submit-IsSubmitted :
      (vals : PolicyForm) (id : Option String) (page : PoliciesPage)
      → w.blocked ≡ false
      → IsSubmitted w
          (policy_request routes_text scene_text vals id)
          page
          (saved page)
          (if truthy id then "更新失败" else "创建失败")
          (submit routes_text scene_text server vals id page w)
  unfolding submit
  submit-IsSubmitted vals id page b =
      submitted server w (policy_request routes_text scene_text vals id) page saved
        (if truthy id then "已更新" else "已创建") (if truthy id then "更新失败" else "创建失败")
        (submit routes_text scene_text server vals id page w)
        (try_send-IsTried server _ _ _ _ (false, page) w b)

  -- An edit leaves out the app, the channel and the scene: two forms that agree on the template and the
  -- two chains do the same to the browser and the page, whatever else they hold, for every policy with an
  -- id.
  pub submit-ignores :
      (vals other : PolicyForm) (id : Option String) (page : PoliciesPage)
      → truthy id ≡ true
      → vals.template_id ≡ other.template_id
      → vals.routes ≡ other.routes
      → vals.intl_routes ≡ other.intl_routes
      → submit routes_text scene_text server vals id page w
        ≡ submit routes_text scene_text server other id page w
  unfolding submit policy_request
  submit-ignores vals other id page edit template routes intl =
      simp (edit, template, routes, intl) refl

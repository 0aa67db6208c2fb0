-- ===== src/Tests/Tenants.antt =====
-- The tenant list at concrete tenants and events.
use testkit_service.Prelude.{
  String, Bool, true, false, none, some, List, [], ◌∷◌, ◌⊎◌, inl, refl, Listed,
}
use testkit_service.TenantList.{Row, is_shown}
use testkit_service.TenantList.Page.{
  granted, refused, Page, delete_tenant, load, loaded, with_admins, filtered,
}
use testkit_service.TenantList.Events.{
  Event, load_answered, delete_clicked, echo_typed, delete_confirmed, capabilities_clicked,
  capability_switched, capability_answered, act, run, opened, open_deletion, confirm_deletion,
}
use testkit_service.TenantList.Deletion.{IsConfirmed, deletion-IsConfirmed}
use testkit_service.TenantList.Drawers.{IsSynced, run-IsSynced}

abbrev tenant : String → Bool → Row
tenant key disabled = record {
  tenant_key = some key;
  name = some key;
  enabled_capabilities = some ("USER" ∷ []);
  disabled = disabled;
  created_at = none;
  admins = none;
}

-- The registry is read, and the deletion of the disabled tenant opened and its key typed.
abbrev typed_out : List Event
typed_out =
    load_answered (granted (some (tenant "t1" false ∷ tenant "t2" true ∷ []))) (λ _. refused none)
    ∷ delete_clicked 1
    ∷ echo_typed "t2"
    ∷ []

asked_for_it : Listed (delete_tenant "t2") (act delete_confirmed (run typed_out opened)).calls
unfolding run act opened load loaded with_admins filtered is_shown open_deletion confirm_deletion
asked_for_it = inl refl

deletion-IsConfirmed_example :
    Listed (delete_tenant "t2") (run typed_out opened).calls
    ⊎ IsConfirmed delete_confirmed (run typed_out opened) "t2"
deletion-IsConfirmed_example = deletion-IsConfirmed typed_out delete_confirmed "t2" asked_for_it

abbrev listed : Page
listed = record {
  rows = tenant "t1" false ∷ tenant "t2" true ∷ [];
  loading = false;
  filter_name = "";
  filter_key = "";
  cap_drawer = some (tenant "t1" false);
  admin_drawer = none;
  delete_target = none;
  delete_echo = "";
  calls = [];
  toasts = [];
  dialogs = [];
}

-- A switch of the open drawer, and its answer.
abbrev switching : List Event
switching =
    capability_switched "LICENSE" true
    ∷ capability_answered (some "t1") "LICENSE" true (granted tt)
    ∷ capabilities_clicked 1
    ∷ []

run-IsSynced_example : IsSynced (run switching listed)
run-IsSynced_example =
    run-IsSynced switching listed (refl, (refl, (refl, tt)))
      ((λ e. refl, (λ e. cc, tt)), tt, ((refl, tt), (tt, tt)))

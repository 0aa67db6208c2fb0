-- ===== src/License/Device.antt =====
-- web/src/pages/License/Console.tsx: the requests of the buttons.
use testkit_service.Prelude.{String, Option, some, [], ◌∷◌, or_else}
use testkit_service.Browser.{Request}
use testkit_service.Services.{activate, deactivate, trial_start}

-- the values of the two forms
pub record DeviceForm : Type 0 where
  pub license_key : Option String
  pub module_ : Option String
  pub fingerprint_id : Option String
  pub device_token : Option String

-- the requests of the buttons
unfoldable pub activate_request : DeviceForm → Request
activate_request vals = activate (
    ("licenseKey", vals.license_key)
    ∷ ("fingerprintId", vals.fingerprint_id)
    ∷ ("deviceToken", vals.device_token)
    ∷ [])

unfoldable pub deactivate_request : DeviceForm → Request
deactivate_request vals =
    deactivate (("licenseKey", vals.license_key) ∷ ("deviceToken", vals.device_token) ∷ [])

unfoldable pub trial_request : DeviceForm → Request
trial_request vals = trial_start (
    ("module", some (or_else vals.module_ "MODULE_UNSPECIFIED"))
    ∷ ("fingerprintId", vals.fingerprint_id)
    ∷ ("deviceToken", vals.device_token)
    ∷ [])

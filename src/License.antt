-- ===== src/License.antt =====
-- web/src/pages/License: Keys.tsx, the keys and their actions, and in Console the device that calls the
-- public surface. The grants in a body and an answer stand as their JSON, which are parameters.
pub mod Console
pub mod Device
pub mod Laws
use Prim.Native.String as Text
use testkit_service.Prelude.{
  ℕ, ◌+◌, String, Bool, true, false, Option, none, some, List, [], ◌∷◌, map, get_or, is_text,
  if◌then◌else◌,
}
use testkit_service.Browser.{M, pure, ◌>>=◌, catch, Request}
use testkit_service.Request.{Server, call}
use testkit_service.Services.{list_keys, create_key, show_key, delete_key, revoke_key, unrevoke_key}
use testkit_service.Submit.{send_plain, try_take}
use testkit_service.Admin.{message_or}

-- API.v1KeyInfo, the fields that the table reads
pub record KeyInfo : Type 0 where
  pub license_id : Option String
  pub label : Option String
  pub key_prefix : Option String
  pub max_slots : Option ℕ
  pub used_slots : Option ℕ
  pub status : Option String

-- API.v1EntitlementInput
pub record EntitlementInput : Type 0 where
  pub module_ : Option String
  pub kind : Option String
  pub duration_days : Option ℕ

-- The hooks of the page, the answers that its dialogs show, the newest first, and how often the table
-- was reloaded.
pub record KeysPage : Type 0 where
  pub detail : Option KeyInfo
  pub create_open : Bool
  pub dialogs : List String
  pub reloads : ℕ

abbrev pub is_active : KeyInfo → Bool
is_active r = is_text r.status "KEY_STATUS_ACTIVE"

-- the cells of the slots and of the status, and the title of the link that revokes
unfoldable pub slots_cell : (decimal : ℕ → String) → KeyInfo → String
slots_cell decimal r =
    Text.◌++◌ (decimal (get_or r.used_slots 0)) (Text.◌++◌ " / " (decimal (get_or r.max_slots 0)))

unfoldable pub key_status_cell : KeyInfo → String × String
key_status_cell r = if is_active r then ("green", "正常") else ("red", "已吊销")

-- onClick of the details
unfoldable pub show_detail : Server (Option KeyInfo) → KeyInfo → KeysPage → M KeysPage
show_detail server r page =
    catch
      (do
        resp ← call server (show_key (get_or r.license_id ""))
        pure (record page { detail = some (get_or resp r) }))
      (λ _. pure (record page { detail = some r }))

abbrev pub reload_keys : KeysPage → KeysPage
reload_keys page = record page { reloads = page.reloads + 1 }

-- onConfirm of the link that revokes or restores
unfoldable pub toggle_request : KeyInfo → Request
toggle_request r =
    let id = get_or r.license_id "" in if is_active r then revoke_key id else unrevoke_key id

unfoldable pub toggle : Server (Unit {0}) → KeyInfo → KeysPage → M KeysPage
unfolding toggle_request
toggle server r page = send_plain server (toggle_request r) (λ _. "已操作") (λ _ p. reload_keys p) page

-- onConfirm of the deletion
unfoldable pub delete : Server (Unit {0}) → KeyInfo → KeysPage → M KeysPage
delete server r page =
    send_plain server (delete_key (get_or r.license_id "")) (λ _. "已删除") (λ _ p. reload_keys p) page

-- the values of the form for a new key
pub record KeyForm : Type 0 where
  pub label : Option String
  pub slots : Option ℕ
  pub grants : Option (List EntitlementInput)

abbrev pub perpetual : String
perpetual = "ENTITLEMENT_KIND_PERPETUAL"

-- a grant as it is sent
unfoldable pub grant_sent : EntitlementInput → EntitlementInput
grant_sent g = record {
  module_ = g.module_;
  kind = g.kind;
  duration_days = some (if is_text g.kind perpetual then 0 else get_or g.duration_days 0);
}

unfoldable pub grants_sent : Option (List EntitlementInput) → List EntitlementInput
unfolding grant_sent
grants_sent grants = map grant_sent (get_or grants [])

module _ {A : Type 0} (pretty : A → String) (grants_text : List EntitlementInput → String)
    (number_text : Option ℕ → Option String) where
  -- onFinish of the form for a new key; the answer is shown, and the Boolean closes the form
  unfoldable pub create : Server A → KeyForm → KeysPage → M (Bool × KeysPage)
  unfolding grants_sent
  create server vals page =
      try_take server
        (create_key (
          ("label", vals.label)
          ∷ ("slots", number_text vals.slots)
          ∷ ("grants", some (grants_text (grants_sent vals.grants)))
          ∷ []))
        (λ resp p. (true, reload_keys (record (p.1) { dialogs = pretty resp ∷ (p.1).dialogs })))
        (message_or "创建失败") (false, page)

-- request
unfoldable pub request_keys : Server (Option (List KeyInfo)) → M (List KeyInfo)
request_keys server = do resp ← call server list_keys; pure (get_or resp [])

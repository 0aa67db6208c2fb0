-- ===== src/Services.antt =====
-- web/src/services/testkit/testkitService.ts, the calls that the session code makes: the request
-- that each builds. `Server` stands for the gateway behind them.
use testkit_service.Prelude.{String, Option, List, [], ◌∷◌}
use Prim.Native.String
use testkit_service.Browser.{Request}

-- a call with no body
abbrev bare : String → String → Request
bare method url = record { method = method; url = url; headers = []; body = [] }

-- a call with a JSON body
abbrev json : String → String → List (String × Option String) → Request
json method url body = record {
  method = method;
  url = url;
  headers = ("Content-Type", "application/json") ∷ [];
  body = body;
}

-- login
abbrev pub login : List (String × Option String) → Request
login body = json "POST" "/api/v1/auth/login" body

-- logout
abbrev pub logout : Request
logout = bare "POST" "/api/v1/auth/logout"

-- register
abbrev pub register : List (String × Option String) → Request
register body = json "POST" "/api/v1/auth/register" body

-- sendVerificationCode
abbrev pub send_verification_code : List (String × Option String) → Request
send_verification_code body = json "POST" "/api/v1/captcha/send" body

-- portalWhoAmI
abbrev pub portal_who_am_i : Request
portal_who_am_i = bare "GET" "/api/v1/portal/whoami"

-- portalListTenants
abbrev pub portal_list_tenants : Request
portal_list_tenants = bare "GET" "/api/v1/portal/tenants"

-- generateUploadUrl
abbrev pub generate_upload_url : List (String × Option String) → Request
generate_upload_url body = json "POST" "/api/v1/files/uploads" body

-- confirmUpload
abbrev pub confirm_upload : List (String × Option String) → Request
confirm_upload body = json "POST" "/api/v1/files/uploads:confirm" body

-- createFileLink; a number in the body stands as its text
abbrev pub create_file_link : String → List (String × Option String) → Request
create_file_link file_id body =
    json "POST" (String.◌++◌ "/api/v1/files/" (String.◌++◌ file_id "/links")) body

-- getFileLinkDownload
abbrev pub get_file_link_download : String → Request
get_file_link_download token =
    bare "GET" (String.◌++◌ "/api/v1/links/" (String.◌++◌ token "/download"))

-- sendSms, sendEmail
abbrev pub send_sms : List (String × Option String) → Request
send_sms body = json "POST" "/api/v1/messages:sms" body

abbrev pub send_email : List (String × Option String) → Request
send_email body = json "POST" "/api/v1/messages:email" body

-- getStsCredential
abbrev pub get_sts_credential : List (String × Option String) → Request
get_sts_credential body = json "POST" "/api/v1/files/sts" body

-- portalRotateApiKeySecret, portalDisableApiKey, portalListApiKeys and portalCreateApiKey; a Boolean in
-- a body stands as its text
abbrev api_key_url : String → String → String
api_key_url access_key verb = String.◌++◌ "/api/v1/portal/api-keys/" (String.◌++◌ access_key verb)

abbrev pub portal_rotate_api_key_secret : String → Request
portal_rotate_api_key_secret access_key = json "POST" (api_key_url access_key ":rotateSecret") []

abbrev pub portal_disable_api_key : String → List (String × Option String) → Request
portal_disable_api_key access_key body = json "POST" (api_key_url access_key ":disable") body

abbrev tenant_keys_url : String → String
tenant_keys_url key = String.◌++◌ "/api/v1/portal/tenants/" (String.◌++◌ key "/api-keys")

abbrev pub portal_list_api_keys : String → Request
portal_list_api_keys key = bare "GET" (tenant_keys_url key)

abbrev pub portal_create_api_key : String → List (String × Option String) → Request
portal_create_api_key key body = json "POST" (tenant_keys_url key) body

-- the administration of messages: templates
abbrev templates_url : String
templates_url = "/api/v1/message/admin/templates"

-- `/${id}`
abbrev item_url : String → String → String
item_url url id = String.◌++◌ url (String.◌++◌ "/" id)

-- messageListTemplates with no parameter of its own
abbrev pub message_list_templates : Request
message_list_templates =
    bare "GET" (String.◌++◌ templates_url "?channel=TEMPLATE_CHANNEL_UNSPECIFIED")

-- messageCreateTemplate, messageUpdateTemplate, messageDeleteTemplate
abbrev pub message_create_template : List (String × Option String) → Request
message_create_template body = json "POST" templates_url body

abbrev pub message_update_template : String → List (String × Option String) → Request
message_update_template id body = json "PUT" (item_url templates_url id) body

abbrev pub message_delete_template : String → Request
message_delete_template id = bare "DELETE" (item_url templates_url id)

-- messageListTenantConfigs
abbrev pub message_list_tenant_configs : Request
message_list_tenant_configs = bare "GET" "/api/v1/message/admin/tenant-configs"

-- the administration of messages: policies
abbrev policies_url : String
policies_url = "/api/v1/message/admin/policies"

-- listPolicies with no parameter of its own
abbrev pub list_policies : Request
list_policies = bare "GET" (String.◌++◌ policies_url "?channel=TEMPLATE_CHANNEL_UNSPECIFIED")

-- messageCreatePolicy, messageUpdatePolicy, messageDeletePolicy
abbrev pub message_create_policy : List (String × Option String) → Request
message_create_policy body = json "POST" policies_url body

abbrev pub message_update_policy : String → List (String × Option String) → Request
message_update_policy id body = json "PUT" (item_url policies_url id) body

abbrev pub message_delete_policy : String → Request
message_delete_policy id = bare "DELETE" (item_url policies_url id)

-- the administration of messages: channel accounts
abbrev accounts_url : String
accounts_url = "/api/v1/message/admin/accounts"

-- messageListChannelAccounts
abbrev pub message_list_channel_accounts : Request
message_list_channel_accounts = bare "GET" accounts_url

-- messageCreateChannelAccount, messageUpdateChannelAccount, messageDeleteChannelAccount
abbrev pub message_create_channel_account : List (String × Option String) → Request
message_create_channel_account body = json "POST" accounts_url body

abbrev pub message_update_channel_account : String → List (String × Option String) → Request
message_update_channel_account id body = json "PUT" (item_url accounts_url id) body

abbrev pub message_delete_channel_account : String → Request
message_delete_channel_account id = bare "DELETE" (item_url accounts_url id)

-- listIdentities, bindIdentity, bindOAuthIdentity, unbindIdentity
abbrev pub list_identities : Request
list_identities = bare "GET" "/api/v1/identities"

abbrev pub bind_identity : List (String × Option String) → Request
bind_identity body = json "POST" "/api/v1/identities" body

abbrev pub bind_oauth_identity : List (String × Option String) → Request
bind_oauth_identity body = json "POST" "/api/v1/identities/oauth" body

abbrev pub unbind_identity : String → List (String × Option String) → Request
unbind_identity id body =
    json "POST" (String.◌++◌ "/api/v1/identities/" (String.◌++◌ id ":unbind")) body

-- getOAuthUrl; the query is behind the path
abbrev pub get_oauth_url : String → (query : String) → Request
get_oauth_url provider query =
    bare "GET" (String.◌++◌ "/api/v1/social/" (String.◌++◌ provider (String.◌++◌ "/url?" query)))

-- listSessions, revokeSession, revokeAllSessions
abbrev pub list_sessions : (query : String) → Request
list_sessions query = bare "GET" (String.◌++◌ "/api/v1/sessions?" query)

abbrev pub revoke_session : String → Request
revoke_session id = bare "POST" (String.◌++◌ "/api/v1/sessions/" (String.◌++◌ id "/revoke"))

abbrev pub revoke_all_sessions : Request
revoke_all_sessions = bare "POST" "/api/v1/sessions/revoke-all"

-- listKeys, createKey, showKey, deleteKey, revokeKey, unrevokeKey
abbrev keys_url : String
keys_url = "/api/v1/license/admin/keys"

abbrev pub list_keys : Request
list_keys = bare "GET" (String.◌++◌ keys_url "?status=KEY_STATUS_UNSPECIFIED&limit=100")

abbrev pub create_key : List (String × Option String) → Request
create_key body = json "POST" keys_url body

abbrev pub show_key : String → Request
show_key id = bare "GET" (item_url keys_url id)

abbrev pub delete_key : String → Request
delete_key id = bare "DELETE" (item_url keys_url id)

abbrev pub revoke_key : String → Request
revoke_key id = json "POST" (String.◌++◌ (item_url keys_url id) "/revoke") []

abbrev pub unrevoke_key : String → Request
unrevoke_key id = json "POST" (String.◌++◌ (item_url keys_url id) "/unrevoke") []

-- activate, deactivate, trialStart, showPubKey, health
abbrev pub activate : List (String × Option String) → Request
activate body = json "POST" "/api/v1/license/activate" body

abbrev pub deactivate : List (String × Option String) → Request
deactivate body = json "POST" "/api/v1/license/deactivate" body

abbrev pub trial_start : List (String × Option String) → Request
trial_start body = json "POST" "/api/v1/license/trial/start" body

abbrev pub show_pub_key : Request
show_pub_key = bare "GET" "/api/v1/license/admin/signing/pubkey"

abbrev pub health : Request
health = bare "GET" "/api/v1/license/healthz"

-- createUser, disableUser, listUsersPaged, userListApps
abbrev pub create_user : List (String × Option String) → Request
create_user body = json "POST" "/api/v1/users" body

abbrev pub disable_user : String → List (String × Option String) → Request
disable_user id body = json "POST" (String.◌++◌ "/api/v1/users/" (String.◌++◌ id "/disable")) body

abbrev pub list_users_paged : (query : String) → Request
list_users_paged query = bare "GET" (String.◌++◌ "/api/v1/users/paged?" query)

abbrev pub user_list_apps : Request
user_list_apps = bare "GET" "/api/v1/user/admin/apps"

-- listEmails, listEmailsByCursor, getEmail, getEmailStats; a query stands behind the path
abbrev pub list_emails : (query : String) → Request
list_emails query = bare "GET" (String.◌++◌ "/api/v1/emails?" query)

abbrev pub list_emails_by_cursor : (query : String) → Request
list_emails_by_cursor query = bare "GET" (String.◌++◌ "/api/v1/emails:cursor?" query)

abbrev pub get_email : String → Request
get_email id = bare "GET" (item_url "/api/v1/emails" id)

abbrev pub get_email_stats : Request
get_email_stats =
    bare "GET" "/api/v1/emails:stats?vendor=EMAIL_VENDOR_UNSPECIFIED&scene=EMAIL_SCENE_UNSPECIFIED"

-- listSms, listSmsByCursor, getSms, getSmsStats, listSmsRegions
abbrev pub list_sms : (query : String) → Request
list_sms query = bare "GET" (String.◌++◌ "/api/v1/sms?" query)

abbrev pub list_sms_by_cursor : (query : String) → Request
list_sms_by_cursor query = bare "GET" (String.◌++◌ "/api/v1/sms:cursor?" query)

abbrev pub get_sms : String → Request
get_sms id = bare "GET" (item_url "/api/v1/sms" id)

abbrev pub get_sms_stats : Request
get_sms_stats =
    bare "GET" "/api/v1/sms:stats?vendor=SMS_VENDOR_UNSPECIFIED&scene=SMS_SCENE_UNSPECIFIED"

abbrev pub list_sms_regions : Request
list_sms_regions = bare "GET" "/api/v1/sms:regions"

-- the administration of messages: signatures
abbrev signatures_url : String
signatures_url = "/api/v1/message/admin/signatures"

-- messageListSignatures, messageCreateSignature, messageUpdateSignature, messageDeleteSignature
abbrev pub message_list_signatures : Request
message_list_signatures = bare "GET" signatures_url

abbrev pub message_create_signature : List (String × Option String) → Request
message_create_signature body = json "POST" signatures_url body

abbrev pub message_update_signature : String → List (String × Option String) → Request
message_update_signature id body = json "PUT" (item_url signatures_url id) body

abbrev pub message_delete_signature : String → Request
message_delete_signature id = bare "DELETE" (item_url signatures_url id)

-- listTenantConfigs, getTenantConfig, createTenantConfig, rotateToken, revokeToken
abbrev tenant_configs_url : String
tenant_configs_url = "/api/v1/telemetry/admin/tenant-configs"

abbrev pub list_tenant_configs : Request
list_tenant_configs = bare "GET" tenant_configs_url

abbrev pub get_tenant_config : String → Request
get_tenant_config key = bare "GET" (item_url tenant_configs_url key)

abbrev pub create_tenant_config : List (String × Option String) → Request
create_tenant_config body = json "POST" tenant_configs_url body

abbrev pub rotate_token : String → Request
rotate_token key = json "POST" (String.◌++◌ (item_url tenant_configs_url key) "/tokens") []

abbrev pub revoke_token : (key prefix : String) → Request
revoke_token key prefix =
    bare "DELETE" (item_url (String.◌++◌ (item_url tenant_configs_url key) "/tokens") prefix)

-- generateDownloadUrl, deleteMyFile, batchDeleteMyFiles, listMyFilesPaged
abbrev pub generate_download_url : String → Request
generate_download_url id =
    json "POST" (String.◌++◌ "/api/v1/files/" (String.◌++◌ id ":downloadUrl")) []

abbrev pub delete_my_file : String → Request
delete_my_file id = bare "DELETE" (item_url "/api/v1/files" id)

abbrev pub batch_delete_my_files : List (String × Option String) → Request
batch_delete_my_files body = json "POST" "/api/v1/files:batchDelete" body

abbrev pub list_my_files_paged : (query : String) → Request
list_my_files_paged query = bare "GET" (String.◌++◌ "/api/v1/files:page?" query)

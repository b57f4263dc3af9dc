-- ===== src/Http/Dto.antt =====
-- httpapi/dto.go, httpapi/respond.go: what the handlers answer.
pub mod Keys
pub mod Providers
pub mod Trail
use donkey_work_vault.Base.{
  ℕ, Bool, List, Option, none, some, Text, text, Error, validation, oauth_authorization,
  oauth_refresh, invalid_slug, plain, panic, if◌then◌else◌, Result, ok, err,
}
use donkey_work_vault.Base.Exec.{Exec}
use donkey_work_vault.Store.Types.{Uuid}
use donkey_work_vault.Audit.Log.{Backend}
use donkey_work_vault.Http.Dto.Keys.{
  ApiKeyDto, CreatedApiKeyResponse, RevealApiKeyResponse, CredentialShapeResponse, AccessKeyDto,
  CreatedAccessKeyResponse, AccessKeyEnabledResponse,
}
use donkey_work_vault.Http.Dto.Providers.{
  OauthManifestDto, OauthConfigDto, OauthConfigCreatedResponse, OauthTokenDto,
  OauthAccessTokenResponse,
}
use donkey_work_vault.Http.Dto.Trail.{AuditPageResponse}

pub record MeResponse : Type 0 where
  pub user_id : Text
  pub tenant_id : Text
  pub email : Option Text
  pub name : Option Text

pub record AppConfigResponse : Type 0 where
  pub authority : Text
  pub client_id : Text
  pub scopes : Text
  pub auth_enabled : Bool
  pub cli_client_id : Text
  pub cli_scopes : Text
  pub require_https_metadata : Bool

-- The value that is encoded as the body.
pub data Body : Type 0 where
  me : MeResponse → Body
  app_config : AppConfigResponse → Body
  api_keys : List ApiKeyDto → Body
  created_api_key : CreatedApiKeyResponse → Body
  revealed : RevealApiKeyResponse → Body
  shape : CredentialShapeResponse → Body
  access_keys : List AccessKeyDto → Body
  created_access_key : CreatedAccessKeyResponse → Body
  access_key_enabled : AccessKeyEnabledResponse → Body
  manifests : List OauthManifestDto → Body
  manifest : OauthManifestDto → Body
  saved_key : Text → Body
  configs : List OauthConfigDto → Body
  created_config : OauthConfigCreatedResponse → Body
  tokens : List OauthTokenDto → Body
  access_token : OauthAccessTokenResponse → Body
  connect : (authorize_url : Text) → Body
  audit_page : AuditPageResponse → Body
  failure : Text → Body

-- A status with a JSON body, a status alone, or a redirect with 302.
pub data Answer : Type 0 where
  json : ℕ → Body → Answer
  status : ℕ → Answer
  redirect : Text → Answer

abbrev pub status_of : Answer → ℕ
status_of (json n body) = n
status_of (status n) = n
status_of (redirect to) = 302

abbrev pub write_error : ℕ → Text → Answer
write_error n msg = json n (failure msg)

unfoldable pub write_service_error : Error → Answer
write_service_error (validation msg) = write_error 400 msg
write_service_error (oauth_authorization msg) = write_error 400 msg
write_service_error (oauth_refresh msg) = write_error 502 msg
write_service_error (invalid_slug slug) = write_error 500 (text "internal error")
write_service_error (plain msg) = write_error 500 (text "internal error")
write_service_error panic = write_error 500 (text "internal error")

abbrev pub no_content_or_not_found : Bool → Answer
no_content_or_not_found deleted = if deleted then status 204 else status 404

abbrev pub Handler : Type 0
Handler = Backend → Answer × Backend

abbrev pub reply : Answer → Handler
reply a b = (a, b)

abbrev pub answer_of : {A : Type 0} → (A → Answer) → Result A → Answer
answer_of f (ok a) = f a
answer_of f (err e) = write_service_error e

-- A call of a service: `if writeServiceError(w, err) { return }`, and the answer for its result.
abbrev pub respond : {A : Type 0} → Exec Backend A → (A → Answer) → Handler
respond act f b = (answer_of f (act b).0, (act b).1)

-- `if err := decodeJSON(r, &dto); err != nil { … }`
abbrev pub decoded : {D : Type 0} → Result D → (D → Handler) → Handler
decoded (ok dto) handle = handle dto
decoded (err e) handle = reply (write_error 400 (text "invalid request body."))

-- `id, ok := uuidParam(…); if !ok { … }`
abbrev pub identified : Option Uuid → (Uuid → Handler) → Handler
identified (some id) handle = handle id
identified none handle = reply (write_error 400 (text "invalid id."))

-- ===== src/Http/Handlers.antt =====
-- httpapi/handlers.go: what a handler reads of its request, and what it is built with.
pub mod Keys
pub mod Providers
pub mod Oauth
pub mod Trail
use donkey_work_vault.Base.{ℕ, List, Option, Text, Result}
use donkey_work_vault.Base.Integers.{ℤ}
use donkey_work_vault.Crypto.Cipher.{Cipher}
use donkey_work_vault.Store.Types.{Uuid, Time}
use donkey_work_vault.Manifests.{Manifest, ManifestJson}
use donkey_work_vault.Manifests.Loader.{Loader}
use donkey_work_vault.Manifests.Discovery.{WellKnown}
use donkey_work_vault.Service.Oauth.{OauthJson, Client}
use donkey_work_vault.Http.Dto.Keys.{CreateApiKeyRequest, CreateAccessKeyRequest}
use donkey_work_vault.Http.Dto.Providers.{UpsertOauthManifestRequest}
use donkey_work_vault.Service.Oauth.Configs.{ConfigParams}
use donkey_work_vault.Base.{Bool}

-- json.Decode into the request types; the upsert of a config has the fields of its parameters.
pub record Decoders : Type 0 where
  pub create_api_key : Text → Result CreateApiKeyRequest
  pub create_access_key : Text → Result CreateAccessKeyRequest
  pub set_enabled : Text → Result Bool
  pub upsert_manifest : Text → Result UpsertOauthManifestRequest
  pub discover_oidc : Text → Result (Option Text)
  pub upsert_config : Text → Result ConfigParams

-- What the server is built with that is not its own code, with the templates and the public address.
pub record Deps : Type 0 where
  pub sha256 : Text → Text
  pub cipher : Cipher
  pub manifest_json : ManifestJson
  pub oauth_json : OauthJson
  pub client : Client
  pub loader : Loader
  pub host_of : Text → Result Text
  pub fetch : Text → Result (ℕ × Text)
  pub decode_well_known : Text → Result WellKnown
  pub decoders : Decoders
  pub parse_uuid : Text → Option Uuid
  pub show_uuid : Uuid → Text
  pub atoi : Text → Option ℤ
  pub parse_time : Text → Option Time
  pub public_base_url : Text

-- The parameters of the path, those of the query, where a missing one is empty, and the body; the new
-- ids are those that uuid.New gives while the request is handled.
pub record Call : Type 0 where
  pub param : Text → Text
  pub query : Text → Text
  pub body : Text
  pub new_ids : ℕ → Uuid

-- ===== src/Http/Dto/Providers.antt =====
-- httpapi/dto.go: the wire form of manifests, OAuth configs and tokens.
use donkey_work_vault.Base.{Bool, List, [], map, Option, none, some, Text, text}
use donkey_work_vault.Store.Types.{Uuid, Time}
use donkey_work_vault.Manifests.{Manifest, ScopeDef}
use donkey_work_vault.Manifests.Resolver.{or_space}
use donkey_work_vault.Service.Oauth.Configs.{OauthConfigSummary}
use donkey_work_vault.Service.Oauth.Tokens.{OauthTokenSummary}

abbrev pub deref_or : Option Text → Text → Text
deref_or none default = default
deref_or (some s) default = s

pub record OauthScopeDto : Type 0 where
  pub value : Text
  pub description : Text
  pub category : Text
  pub sensitive : Bool

pub record OauthManifestDto : Type 0 where
  pub id : Uuid
  pub parent_id : Uuid
  pub key : Text
  pub name : Text
  pub icon_url : Text
  pub docs_url : Text
  pub template : Bool
  pub authorization_endpoint : Text
  pub token_endpoint : Text
  pub userinfo_endpoint : Text
  pub token_endpoint_auth_method : Text
  pub userinfo_account_path : Text
  pub scope_delimiter : Text
  pub default_scopes : List Text
  pub scopes : List OauthScopeDto
  pub authorize_params : List (Text × Text)

pub record UpsertOauthManifestRequest : Type 0 where
  pub key : Text
  pub parent_id : Uuid
  pub name : Option Text
  pub icon_url : Option Text
  pub docs_url : Option Text
  pub authorization_endpoint : Option Text
  pub token_endpoint : Option Text
  pub userinfo_endpoint : Option Text
  pub token_endpoint_auth_method : Text
  pub userinfo_account_path : Text
  pub scope_delimiter : Option Text
  pub default_scopes : List Text
  pub scopes : List OauthScopeDto
  pub authorize_params : List (Text × Text)

pub record OauthConfigDto : Type 0 where
  pub id : Uuid
  pub provider : Text
  pub client_id_masked : Text
  pub scopes : List Text
  pub redirect_uri : Option Text
  pub created_at : Time

pub record OauthConfigCreatedResponse : Type 0 where
  pub id : Uuid
  pub provider : Text

pub record OauthTokenDto : Type 0 where
  pub id : Uuid
  pub provider : Text
  pub account : Text
  pub expires_at : Option Time
  pub last_refreshed_at : Option Time
  pub scopes : List Text

pub record OauthAccessTokenResponse : Type 0 where
  pub access_token : Text
  pub expires_at : Option Time
  pub scopes : List Text

abbrev pub to_scope_dto : ScopeDef → OauthScopeDto
to_scope_dto s = record {
  value = s.value;
  description = s.description;
  category = s.category;
  sensitive = s.sensitive;
}

abbrev pub from_scope_dto : OauthScopeDto → ScopeDef
from_scope_dto s = record {
  value = s.value;
  description = s.description;
  category = s.category;
  sensitive = s.sensitive;
}

unfoldable pub to_manifest_dto : Bool → Manifest → OauthManifestDto
to_manifest_dto template m = record {
  id = m.id;
  parent_id = m.parent_id;
  key = m.key;
  name = m.name;
  icon_url = m.icon_url;
  docs_url = m.docs_url;
  template = template;
  authorization_endpoint = m.authorization_endpoint;
  token_endpoint = m.token_endpoint;
  userinfo_endpoint = m.userinfo_endpoint;
  token_endpoint_auth_method = m.token_endpoint_auth_method;
  userinfo_account_path = m.userinfo_account_path;
  scope_delimiter = m.scope_delimiter;
  default_scopes = m.default_scopes;
  scopes = map to_scope_dto m.scopes;
  authorize_params = m.authorize_params;
}

unfoldable pub from_manifest_request : UpsertOauthManifestRequest → Manifest
from_manifest_request dto = record {
  id = 0;
  parent_id = dto.parent_id;
  key = dto.key;
  name = deref_or dto.name [];
  icon_url = deref_or dto.icon_url [];
  docs_url = deref_or dto.docs_url [];
  authorization_endpoint = deref_or dto.authorization_endpoint [];
  token_endpoint = deref_or dto.token_endpoint [];
  userinfo_endpoint = deref_or dto.userinfo_endpoint [];
  token_endpoint_auth_method = dto.token_endpoint_auth_method;
  userinfo_account_path = dto.userinfo_account_path;
  scope_delimiter = or_space (deref_or dto.scope_delimiter (text " "));
  default_scopes = dto.default_scopes;
  scopes = map from_scope_dto dto.scopes;
  authorize_params = dto.authorize_params;
}

unfoldable pub to_config_dto : OauthConfigSummary → OauthConfigDto
to_config_dto c = record {
  id = c.id;
  provider = c.provider;
  client_id_masked = c.client_id_masked;
  scopes = c.scopes;
  redirect_uri = c.redirect_uri;
  created_at = c.created_at;
}

unfoldable pub to_token_dto : OauthTokenSummary → OauthTokenDto
to_token_dto t = record {
  id = t.id;
  provider = t.provider;
  account = t.account;
  expires_at = t.expires_at;
  last_refreshed_at = t.last_refreshed_at;
  scopes = t.scopes;
}

-- ===== src/Http/Dto/Keys.antt =====
-- httpapi/dto.go: the wire form of API keys and access keys.
use donkey_work_vault.Base.{Bool, List, Option, Text}
use donkey_work_vault.Store.Types.{Uuid, Time}
use donkey_work_vault.Service.Usage.{CredentialKind}
use donkey_work_vault.Service.ApiKeys.{StoredApiKey}
use donkey_work_vault.Service.AccessKeys.{StoredAccessKey}

pub record ApiKeyDto : Type 0 where
  pub id : Uuid
  pub name : Text
  pub description : Option Text
  pub base_url : Option Text
  pub docs_url : Option Text
  pub header : Option Text
  pub prefix : Option Text
  pub username : Option Text
  pub kind : CredentialKind
  pub created_at : Time
  pub last_used_at : Option Time

-- The kind is the text that the client sent.
pub record CreateApiKeyRequest : Type 0 where
  pub name : Text
  pub secret : Option Text
  pub description : Option Text
  pub base_url : Option Text
  pub docs_url : Option Text
  pub header : Option Text
  pub prefix : Option Text
  pub username : Option Text
  pub kind : Text

pub record CreatedApiKeyResponse : Type 0 where
  pub id : Uuid
  pub name : Text

pub record RevealApiKeyResponse : Type 0 where
  pub secret : Text
  pub header : Text
  pub header_value : Text
  pub prefix : Text
  pub base_url : Text
  pub docs_url : Text
  pub description : Text
  pub scheme : Text
  pub username : Text
  pub kind : CredentialKind

pub record CredentialShapeResponse : Type 0 where
  pub header : Text
  pub prefix : Text
  pub base_url : Text
  pub docs_url : Text
  pub description : Text
  pub scheme : Text
  pub username : Text
  pub kind : CredentialKind

pub record AccessKeyDto : Type 0 where
  pub id : Uuid
  pub name : Text
  pub description : Option Text
  pub scopes : List Text
  pub enabled : Bool
  pub prefix : Text
  pub created_at : Time
  pub last_used_at : Option Time

pub record CreateAccessKeyRequest : Type 0 where
  pub name : Text
  pub description : Option Text
  pub scopes : List Text

pub record CreatedAccessKeyResponse : Type 0 where
  pub id : Uuid
  pub name : Text
  pub scopes : List Text
  pub secret : Text

pub record AccessKeyEnabledResponse : Type 0 where
  pub id : Uuid
  pub enabled : Bool

unfoldable pub to_api_key_dto : StoredApiKey → ApiKeyDto
to_api_key_dto k = record {
  id = k.id;
  name = k.name;
  description = k.description;
  base_url = k.base_url;
  docs_url = k.docs_url;
  header = k.header;
  prefix = k.prefix;
  username = k.username;
  kind = k.kind;
  created_at = k.created_at;
  last_used_at = k.last_used_at;
}

unfoldable pub to_access_key_dto : StoredAccessKey → AccessKeyDto
to_access_key_dto k = record {
  id = k.id;
  name = k.name;
  description = k.description;
  scopes = k.scopes;
  enabled = k.enabled;
  prefix = k.prefix;
  created_at = k.created_at;
  last_used_at = k.last_used_at;
}

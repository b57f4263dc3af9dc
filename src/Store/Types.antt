-- ===== src/Store/Types.antt =====
-- types.go: the rows of the tables. A uuid.UUID is a number, with 0 for uuid.Nil; a time.Time is a
-- number of nanoseconds, with 0 for the zero time.
use donkey_work_vault.Base.{ℕ, Bool, List, Option, Text}

abbrev pub Uuid : Type 0
Uuid = ℕ

abbrev pub Time : Type 0
Time = ℕ

pub record AccessKey : Type 0 where
  pub id : Uuid
  pub user_id : Uuid
  pub tenant_id : Uuid
  pub name : Text
  pub description : Option Text
  pub key_hash : Text
  pub key_prefix : Text
  pub scopes : List Text
  pub enabled : Bool
  pub created_at : Time
  pub updated_at : Option Time
  pub last_used_at : Option Time

pub record ApiKey : Type 0 where
  pub id : Uuid
  pub user_id : Uuid
  pub tenant_id : Uuid
  pub provider_key : Text
  pub name : Text
  pub fields_cipher : Text
  pub kind : Text
  pub description : Option Text
  pub base_url : Option Text
  pub docs_url : Option Text
  pub header_name : Option Text
  pub prefix : Option Text
  pub username : Option Text
  pub created_at : Time
  pub updated_at : Option Time
  pub last_used_at : Option Time

pub record OauthProviderConfig : Type 0 where
  pub id : Uuid
  pub user_id : Uuid
  pub tenant_id : Uuid
  pub provider_id : Uuid
  pub provider_key : Text
  pub client_id_cipher : Text
  pub client_secret_cipher : Text
  pub scopes_json : Option Text
  pub redirect_uri : Option Text
  pub created_at : Time
  pub updated_at : Option Time

pub record OauthState : Type 0 where
  pub id : Uuid
  pub state : Text
  pub provider : Text
  pub code_verifier : Text
  pub owner_user_id : Uuid
  pub owner_tenant_id : Uuid
  pub redirect_uri : Text
  pub expires_at : Time
  pub created_at : Time

pub record OauthToken : Type 0 where
  pub id : Uuid
  pub user_id : Uuid
  pub tenant_id : Uuid
  pub provider_id : Uuid
  pub provider_key : Text
  pub account : Text
  pub access_token_cipher : Text
  pub refresh_token_cipher : Text
  pub scopes_json : Option Text
  pub expires_at : Option Time
  pub last_refreshed_at : Option Time
  pub created_at : Time
  pub updated_at : Option Time

pub record ProviderManifest : Type 0 where
  pub id : Uuid
  pub user_id : Uuid
  pub tenant_id : Uuid
  pub kind : Text
  pub key : Text
  pub provider_id : Uuid
  pub parent_id : Uuid
  pub document_json : Text
  pub created_at : Time
  pub updated_at : Option Time

pub record AuditEntry : Type 0 where
  pub id : Uuid
  pub event_type : ℕ
  pub outcome : ℕ
  pub user_id : Uuid
  pub tenant_id : Uuid
  pub access_key_id : Option Uuid
  pub access_key_prefix : Option Text
  pub access_key_name : Option Text
  pub source_ip : Option Text
  pub headers : List (Text × Text)
  pub target_kind : Option Text
  pub target_provider : Option Text
  pub target_account : Option Text
  pub target_name : Option Text
  pub transport : Text
  pub method : Option Text
  pub detail : Option Text
  pub created_at : Time

pub record AuditFilter : Type 0 where
  pub user_id : Uuid
  pub tenant_id : Uuid
  pub limit : ℕ
  pub offset : ℕ
  pub event_type : Option ℕ
  pub outcome : Option ℕ
  pub filter_user_id : Option Uuid
  pub since : Option Time
  pub until : Option Time

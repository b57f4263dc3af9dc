-- ===== src/Manifests.antt =====
-- src/server/internal/manifests: the OAuth providers. manifest.go's types; JSON is a parameter.
pub mod Resolver
pub mod Loader
pub mod Discovery
pub mod Upserted
pub mod Catalog
pub mod Samples
mod Tests
use donkey_work_vault.Base.{Bool, List, Text, Result}
use donkey_work_vault.Store.Types.{Uuid}

pub record ScopeDef : Type 0 where
  pub value : Text
  pub description : Text
  pub category : Text
  pub sensitive : Bool

-- The map of the authorize parameters is a list of its entries.
pub record Manifest : Type 0 where
  pub id : Uuid
  pub parent_id : Uuid
  pub key : Text
  pub name : Text
  pub icon_url : Text
  pub docs_url : Text
  pub authorization_endpoint : Text
  pub token_endpoint : Text
  pub userinfo_endpoint : Text
  pub token_endpoint_auth_method : Text
  pub userinfo_account_path : Text
  pub scope_delimiter : Text
  pub default_scopes : List Text
  pub scopes : List ScopeDef
  pub authorize_params : List (Text × Text)

-- json.Marshal and json.Unmarshal on manifests.
pub record ManifestJson : Type 0 where
  pub marshal : Manifest → Text
  pub unmarshal : Text → Result Manifest

-- ===== src/Manifests/Samples.antt =====
-- A manifest, a store that has it, and a stand-in for JSON for the tests.
use donkey_work_vault.Base.{refl, [], ◌∷◌, none, Text, text, ok, Result, err, plain}
use donkey_work_vault.Store.Types.{ProviderManifest}
use donkey_work_vault.Store.Mem.{Mem, new_mem}
use donkey_work_vault.Store.WellFormed.{IsWellFormed}
use donkey_work_vault.Audit.Log.{Context}
use donkey_work_vault.Manifests.{Manifest, ManifestJson}

abbrev pub ctx : Context
ctx = record { caller = record { user_id = 7; tenant_id = 1 }; info = none; now = 5000 }

abbrev pub github : Manifest
github = record {
  id = 0;
  parent_id = 3;
  key = text "github";
  name = text "GitHub";
  icon_url = [];
  docs_url = [];
  authorization_endpoint = text "https://github.com/login/oauth/authorize";
  token_endpoint = text "https://github.com/login/oauth/access_token";
  userinfo_endpoint = [];
  token_endpoint_auth_method = [];
  userinfo_account_path = [];
  scope_delimiter = [];
  default_scopes = text "repo" ∷ [];
  scopes = [];
  authorize_params = [];
}

-- A document holds the two ids.
abbrev pub json : ManifestJson
json = record { marshal = λ m. m.id ∷ m.parent_id ∷ []; unmarshal = read }
  where
    read : Text → Result Manifest
    read (i ∷ p ∷ []) = ok (record github { id = i; parent_id = p })
    read _ = err (plain (text "bad document"))

abbrev pub saved_row : ProviderManifest
saved_row = record {
  id = 4;
  user_id = 7;
  tenant_id = 1;
  kind = text "oauth";
  key = text "github";
  provider_id = 9;
  parent_id = 3;
  document_json = 9 ∷ 3 ∷ [];
  created_at = 100;
  updated_at = none;
}

abbrev pub store : Mem
store = record new_mem { manifests = (4, saved_row) ∷ [] }

pub store-IsWellFormed : IsWellFormed store
store-IsWellFormed = record {
  access_keys = record { distinct = tt; keyed = tt };
  api_keys = record { distinct = tt; keyed = tt };
  configs = record { distinct = tt; keyed = tt };
  states = record { distinct = tt; keyed = tt };
  tokens = record { distinct = tt; keyed = tt };
  manifests = record { distinct = (tt, tt); keyed = (refl, tt) };
}

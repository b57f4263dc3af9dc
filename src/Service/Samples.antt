-- ===== src/Service/Samples.antt =====
-- A store, a caller and a stand-in for SHA-256 for the tests.
use donkey_work_vault.Base.{refl, true, [], ◌∷◌, ◌++◌, none, Text, text}
use donkey_work_vault.Base.Integers.{pos}
use donkey_work_vault.Store.Types.{AccessKey, ApiKey}
use donkey_work_vault.Store.Mem.{Mem, new_mem}
use donkey_work_vault.Store.WellFormed.{IsWellFormed}
use donkey_work_vault.Audit.Log.{Context, Backend, new_log}
use donkey_work_vault.Service.AccessKeys.{AccessKeyPrincipal}

abbrev pub digest : Text → Text
digest s = text "h:" ++ s

abbrev pub ctx : Context
ctx = record { caller = record { user_id = 7; tenant_id = 1 }; info = none; now = 5000 }

abbrev pub stored_key : AccessKey
stored_key = record {
  id = 3;
  user_id = 8;
  tenant_id = 1;
  name = text "ci";
  description = none;
  key_hash = digest (text "dwv_old");
  key_prefix = text "dwv_old";
  scopes = text "vault:read" ∷ [];
  enabled = true;
  created_at = 100;
  updated_at = none;
  last_used_at = none;
}

abbrev pub stored_secret : ApiKey
stored_secret = record {
  id = 4;
  user_id = 7;
  tenant_id = 1;
  provider_key = [];
  name = text "db";
  fields_cipher = text "old";
  kind = text "opaque";
  description = none;
  base_url = none;
  docs_url = none;
  header_name = none;
  prefix = none;
  username = none;
  created_at = 100;
  updated_at = none;
  last_used_at = none;
}

abbrev pub store : Mem
store = record new_mem { access_keys = (3, stored_key) ∷ []; api_keys = (4, stored_secret) ∷ [] }

pub store-IsWellFormed : IsWellFormed store
store-IsWellFormed = record {
  access_keys = record { distinct = (tt, tt); keyed = (refl, tt) };
  api_keys = record { distinct = (tt, tt); keyed = (refl, tt) };
  configs = record { distinct = tt; keyed = tt };
  states = record { distinct = tt; keyed = tt };
  tokens = record { distinct = tt; keyed = tt };
  manifests = record { distinct = tt; keyed = tt };
}

abbrev pub backend : Backend
backend = record {
  store = store;
  log = new_log (pos 16);
  random = text "0123456789abcdef0123456789abcdef";
}

abbrev pub principal : AccessKeyPrincipal
principal = record {
  id = 3;
  user_id = 8;
  tenant_id = 1;
  scopes = text "vault:read" ∷ [];
  name = text "ci";
  key_prefix = text "dwv_old";
}

-- ===== src/Service/Oauth/Samples.antt =====
-- A user who has a provider with an app, a started flow and a connected account, for the tests.
use donkey_work_vault.Base.{refl, List, [], ◌∷◌, none, some, Text, text, ok}
use donkey_work_vault.Base.Integers.{pos}
use donkey_work_vault.Crypto.Cipher.{Cipher, IsCipher}
use donkey_work_vault.Store.Types.{OauthProviderConfig, OauthState, OauthToken}
use donkey_work_vault.Store.Mem.{Mem, new_mem}
use donkey_work_vault.Store.WellFormed.{IsWellFormed}
use donkey_work_vault.Audit.Log.{Context, Backend, new_log}
use donkey_work_vault.Manifests.{Manifest}
use donkey_work_vault.Manifests.Samples.{github, saved_row}
use donkey_work_vault.Service.Oauth.{OauthJson, TokenResponse, Client, no_field, field, str}

-- A cipher that hides nothing.
abbrev pub plain_cipher : Cipher
plain_cipher = record { encrypt_string = λ p source. (ok p, source); decrypt_to_string = λ b. ok b }

pub plain_cipher-IsCipher : IsCipher plain_cipher
plain_cipher-IsCipher = record { decrypt-encrypt_string = λ p source blob rest h. cc h }

abbrev pub grant : TokenResponse
grant = record {
  access_token = text "gho_new";
  refresh_token = text "ghr_new";
  expires_in = pos 3600;
  scope = text "repo";
}

abbrev first : List Text → Text
first [] = []
first (s ∷ ss) = s

-- JSON for one scope, which reads a grant from every answer.
abbrev pub json : OauthJson
json = record {
  marshal_scopes = first;
  unmarshal_scopes = λ s. ok (s ∷ []);
  unmarshal_token = λ s. ok grant;
  unmarshal_info = λ s. ok (field (text "login") (str (text "ada")) no_field);
}

abbrev pub client : Client
client = record {
  send = λ r. ok (record { status = 200; body = text "{}"; failure = none });
  encode_form = λ form. text "form";
  query_escape = λ s. s;
}

abbrev pub ctx : Context
ctx = record { caller = record { user_id = 7; tenant_id = 1 }; info = none; now = 5000 }

-- Ten seconds on.
abbrev pub later : Context
later = record { caller = record { user_id = 7; tenant_id = 1 }; info = none; now = 10000005000 }

abbrev pub state_row : OauthState
state_row = record {
  id = 12;
  state = text "st";
  provider = text "github";
  code_verifier = text "verifier";
  owner_user_id = 7;
  owner_tenant_id = 1;
  redirect_uri = text "https://vault/api/oauth/callback";
  expires_at = 9000;
  created_at = 100;
}

abbrev pub config : OauthProviderConfig
config = record {
  id = 13;
  user_id = 7;
  tenant_id = 1;
  provider_id = 9;
  provider_key = text "github";
  client_id_cipher = text "id";
  client_secret_cipher = text "secret";
  scopes_json = none;
  redirect_uri = none;
  created_at = 100;
  updated_at = none;
}

-- The account as it was connected before.
abbrev pub token : OauthToken
token = record {
  id = 14;
  user_id = 7;
  tenant_id = 1;
  provider_id = 9;
  provider_key = text "github";
  account = text "default";
  access_token_cipher = text "gho_old";
  refresh_token_cipher = text "ghr_old";
  scopes_json = none;
  expires_at = some 5001;
  last_refreshed_at = none;
  created_at = 100;
  updated_at = none;
}

abbrev pub store : Mem
store = record new_mem {
  manifests = (4, saved_row) ∷ [];
  configs = (13, config) ∷ [];
  states = (12, state_row) ∷ [];
  tokens = (14, token) ∷ [];
}

pub store-IsWellFormed : IsWellFormed store
store-IsWellFormed = record {
  access_keys = record { distinct = tt; keyed = tt };
  api_keys = record { distinct = tt; keyed = tt };
  configs = record { distinct = (tt, tt); keyed = (refl, tt) };
  states = record { distinct = (tt, tt); keyed = (refl, tt) };
  tokens = record { distinct = (tt, tt); keyed = (refl, tt) };
  manifests = record { distinct = (tt, tt); keyed = (refl, tt) };
}

abbrev pub backend : Backend
backend = record {
  store = store;
  log = new_log (pos 16);
  random = text "0123456789abcdef0123456789abcdef";
}

-- The manifest as it is read from its row.
abbrev pub manifest : Manifest
manifest = record github { id = 9; parent_id = 3; scope_delimiter = text " " }

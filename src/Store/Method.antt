-- ===== src/Store/Method.antt =====
-- The methods of memstore.go that write, as values, so that a history of calls is a list.
mod Inserts
mod Writes
pub mod Invariant
pub mod Isolation
use donkey_work_vault.Base.{ℕ, Bool, List, Text, [], ◌∷◌}
use donkey_work_vault.Store.Types.{
  Uuid, Time, AccessKey, ApiKey, OauthProviderConfig, OauthState, OauthToken, ProviderManifest,
  AuditEntry,
}
use donkey_work_vault.Store.Mem.{Mem}
use donkey_work_vault.Store.Mem.AccessKeys.{
  insert_access_key, set_access_key_enabled, delete_access_key, touch_access_key_last_used,
}
use donkey_work_vault.Store.Mem.ApiKeys.{
  insert_api_key, update_api_key, delete_api_key, touch_api_key_last_used,
}
use donkey_work_vault.Store.Mem.Configs.{
  insert_oauth_config, update_oauth_config, delete_oauth_config,
}
use donkey_work_vault.Store.Mem.States.{insert_oauth_state, delete_oauth_state}
use donkey_work_vault.Store.Mem.Tokens.{insert_oauth_token, update_oauth_token, delete_oauth_token}
use donkey_work_vault.Store.Mem.Manifests.{
  insert_manifest, update_manifest, delete_manifest_cascade,
}
use donkey_work_vault.Store.Mem.Audit.{insert_audit_batch, delete_audit_older_than}

pub data Method : Type 0 where
  add_access_key : Uuid → Time → AccessKey → Method
  enable_access_key : Time → Uuid → Uuid → Bool → Method
  drop_access_key : Uuid → Uuid → Method
  touch_access_key : Time → Uuid → Method
  add_api_key : Uuid → Time → ApiKey → Method
  edit_api_key : ApiKey → Method
  drop_api_key : Uuid → Uuid → Method
  touch_api_key : Time → Uuid → Method
  add_config : Uuid → Time → OauthProviderConfig → Method
  edit_config : OauthProviderConfig → Method
  drop_config : Uuid → Uuid → Method
  add_state : Uuid → Time → OauthState → Method
  drop_state : Uuid → Method
  add_token : Uuid → Time → OauthToken → Method
  edit_token : OauthToken → Method
  drop_token : Uuid → Uuid → Method
  add_manifest : Uuid → Time → ProviderManifest → Method
  edit_manifest : ProviderManifest → Method
  drop_manifest : Uuid → Text → Text → Method
  add_audit : List Uuid → List AuditEntry → Method
  drop_audit : Time → ℕ → Method

-- The store after a call, whether it returned or failed.
unfoldable pub run : Method → Mem → Mem
run (add_access_key i t k) m = (insert_access_key i t k m).1
run (enable_access_key t u i b) m = (set_access_key_enabled t u i b m).1
run (drop_access_key u i) m = (delete_access_key u i m).1
run (touch_access_key t i) m = (touch_access_key_last_used t i m).1
run (add_api_key i t k) m = (insert_api_key i t k m).1
run (edit_api_key k) m = (update_api_key k m).1
run (drop_api_key u i) m = (delete_api_key u i m).1
run (touch_api_key t i) m = (touch_api_key_last_used t i m).1
run (add_config i t c) m = (insert_oauth_config i t c m).1
run (edit_config c) m = (update_oauth_config c m).1
run (drop_config u i) m = (delete_oauth_config u i m).1
run (add_state i t s) m = (insert_oauth_state i t s m).1
run (drop_state i) m = (delete_oauth_state i m).1
run (add_token i t k) m = (insert_oauth_token i t k m).1
run (edit_token k) m = (update_oauth_token k m).1
run (drop_token u i) m = (delete_oauth_token u i m).1
run (add_manifest i t k) m = (insert_manifest i t k m).1
run (edit_manifest k) m = (update_manifest k m).1
run (drop_manifest u k s) m = (delete_manifest_cascade u k s m).1
run (add_audit is es) m = (insert_audit_batch is es m).1
run (drop_audit t n) m = (delete_audit_older_than t n m).1

unfoldable pub run_all : List Method → Mem → Mem
run_all [] m = m
run_all (c ∷ cs) m = run_all cs (run c m)

-- ===== src/Store/Method/Isolation.antt =====
-- Calls made for one user do not change what another user has.
pub mod Calls
mod Owned
mod Added
mod Changed
mod Trail
use mathlib.Core.Bool.{◌&&◌}
use donkey_work_vault.Base.{
  true, ℕ, ◌≡◌, ◌≢◌, refl, sym, arith, ◌⊎◌, Bool, Bool-cases, List, Text, text, text_eq,
  text_eq_iff, Option, Option-cases, some, none, inl, inr, ◌==◌, find, if◌then◌else◌, [], ◌∷◌,
}
use donkey_work_vault.Base.Table.{
  Table, get, put, remove, drop_where, values, unless, get-put, get-remove, get-drop_where,
  Distinct,
}
use donkey_work_vault.Store.Types.{
  AccessKey, ApiKey, AuditEntry, OauthProviderConfig, OauthState, OauthToken, ProviderManifest,
}
use donkey_work_vault.Store.Rows.{
  or_new, if_owned, modify_at, get_owned, delete_owned, update_owned, get_owned-delete_owned,
  get_owned-update_owned, get_owned-put,
}
use donkey_work_vault.Store.Mem.{Mem, fail}
use donkey_work_vault.Store.Tidy.{IsTidy, get_of_find}
use donkey_work_vault.Store.WellFormed.{IsWellFormed}
use donkey_work_vault.Store.SameRows.{
  SameRows, SameRows-refl, with_access_keys, with_api_keys, with_configs, with_tokens,
  with_manifests, guarded_rows,
}
use donkey_work_vault.Store.Method.{
  Method, add_access_key, enable_access_key, drop_access_key, touch_access_key, add_api_key,
  edit_api_key, drop_api_key, touch_api_key, add_config, edit_config, drop_config, add_state,
  drop_state, add_token, edit_token, drop_token, add_manifest, edit_manifest, drop_manifest,
  add_audit, drop_audit, run, run_all,
}
use donkey_work_vault.Store.Mem.AccessKeys.{
  set_enabled, insert_access_key, set_access_key_enabled, delete_access_key,
  touch_access_key_last_used,
}
use donkey_work_vault.Store.Mem.ApiKeys.{
  insert_api_key, update_api_key, delete_api_key, touch_api_key_last_used,
}
use donkey_work_vault.Store.Mem.Configs.{
  insert_oauth_config, update_oauth_config, delete_oauth_config,
}
use donkey_work_vault.Store.Mem.States.{insert_oauth_state, delete_state, delete_oauth_state}
use donkey_work_vault.Store.Mem.Tokens.{insert_oauth_token, update_oauth_token, delete_oauth_token}
use donkey_work_vault.Store.Mem.Manifests.{
  is_keyed, config_of, token_of, cascade, insert_manifest, update_manifest, delete_manifest_cascade,
}
use donkey_work_vault.Store.Mem.Audit.{insert_audit_batch, delete_audit_older_than}
use donkey_work_vault.Store.Method.Isolation.Calls.{Foreign}
use donkey_work_vault.Store.Method.Isolation.Owned.{get_owned-modify_at, get_owned-drop_where}
use donkey_work_vault.Store.Method.Isolation.Added.{
  rows-add_access_key, rows-add_api_key, rows-add_config, rows-add_token, rows-add_manifest,
}
use donkey_work_vault.Store.Method.Isolation.Changed.{
  rows-edit_api_key, rows-edit_config, rows-edit_manifest, rows-drop_access_key, rows-drop_api_key,
  rows-drop_config, rows-drop_token, rows-touch_access_key, rows-touch_api_key, rows-edit_token,
  rows-enable_access_key, rows-drop_manifest,
}
use donkey_work_vault.Store.Method.Isolation.Trail.{
  rows-add_state, rows-drop_state, rows-add_audit, rows-drop_audit,
}

-- On a well-formed store, a call made for another user leaves every row of `v` as it is, under the
-- same id, in each of the tables and in the trail, whether the call returns or fails, provided
-- that it adds no row under the id of a row of `v` and no event about `v`, that a method which writes
-- or deletes by id alone (UpdateOAuthToken, the Touch methods, DeleteOAuthState) is given no such id,
-- and that a deletion from the trail has a cutoff that is not after a row of `v`.
pub run-SameRows :
    (v : ℕ) (c : Method) (m : Mem) → IsWellFormed m → Foreign v c m → SameRows v m (run c m)
run-SameRows v (add_access_key i t k) m w h = rows-add_access_key v i t k m h
run-SameRows v (enable_access_key t u i b) m w h = rows-enable_access_key v t u i b m h
run-SameRows v (drop_access_key u i) m w h = rows-drop_access_key v u i m h
run-SameRows v (touch_access_key t i) m w h = rows-touch_access_key v t i m h
run-SameRows v (add_api_key i t k) m w h = rows-add_api_key v i t k m h
run-SameRows v (edit_api_key k) m w h = rows-edit_api_key v k m h
run-SameRows v (drop_api_key u i) m w h = rows-drop_api_key v u i m h
run-SameRows v (touch_api_key t i) m w h = rows-touch_api_key v t i m h
run-SameRows v (add_config i t k) m w h = rows-add_config v i t k m h
run-SameRows v (edit_config k) m w h = rows-edit_config v k m h
run-SameRows v (drop_config u i) m w h = rows-drop_config v u i m h
run-SameRows v (add_state i t k) m w h = rows-add_state v i t k m h
run-SameRows v (drop_state i) m w h = rows-drop_state v i m h
run-SameRows v (add_token i t k) m w h = rows-add_token v i t k m h
run-SameRows v (edit_token k) m w h = rows-edit_token v k m h
run-SameRows v (drop_token u i) m w h = rows-drop_token v u i m h
run-SameRows v (add_manifest i t k) m w h = rows-add_manifest v i t k m h
run-SameRows v (edit_manifest k) m w h = rows-edit_manifest v k m h
run-SameRows v (drop_manifest u k s) m w h = rows-drop_manifest v u k s m h w
run-SameRows v (add_audit is es) m w h = rows-add_audit v is es m h
run-SameRows v (drop_audit t n) m w h = rows-drop_audit v t n m h

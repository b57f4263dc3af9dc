-- ===== src/Store/Method/Isolation/Added.antt =====
-- Calls that add a row for one user, and what another user has.
use donkey_work_vault.Base.{ℕ}
use donkey_work_vault.Store.Types.{
  AccessKey, ApiKey, OauthProviderConfig, OauthToken, ProviderManifest,
}
use donkey_work_vault.Store.Rows.{or_new, get_owned-put}
use donkey_work_vault.Store.Mem.{Mem}
use donkey_work_vault.Store.SameRows.{
  SameRows, with_access_keys, with_api_keys, with_configs, with_tokens, with_manifests,
  guarded_rows,
}
use donkey_work_vault.Store.Method.{
  add_access_key, add_api_key, add_config, add_token, add_manifest, run,
}
use donkey_work_vault.Store.Mem.AccessKeys.{insert_access_key}
use donkey_work_vault.Store.Mem.ApiKeys.{insert_api_key}
use donkey_work_vault.Store.Mem.Configs.{insert_oauth_config}
use donkey_work_vault.Store.Mem.Tokens.{insert_oauth_token}
use donkey_work_vault.Store.Mem.Manifests.{insert_manifest}
use donkey_work_vault.Store.Method.Isolation.Calls.{Foreign}

pub rows-add_access_key :
    (v i t : ℕ) (k : AccessKey) (m : Mem)
    → Foreign v (add_access_key i t k) m
    → SameRows v m (run (add_access_key i t k) m)
unfolding run insert_access_key
rows-add_access_key v i t k m h = guarded_rows _ (
    with_access_keys _ (λ j.
      get_owned-put (λ (r : AccessKey). r.user_id) v (or_new k.id i) j
        (record k { id = or_new k.id i; created_at = or_new k.created_at t }) m.access_keys h.0
        h.1))

pub rows-add_api_key :
    (v i t : ℕ) (k : ApiKey) (m : Mem)
    → Foreign v (add_api_key i t k) m
    → SameRows v m (run (add_api_key i t k) m)
unfolding run insert_api_key
rows-add_api_key v i t k m h = guarded_rows _ (
    with_api_keys _ (λ j.
      get_owned-put (λ (r : ApiKey). r.user_id) v (or_new k.id i) j
        (record k { id = or_new k.id i; created_at = or_new k.created_at t }) m.api_keys h.0 h.1))

pub rows-add_config :
    (v i t : ℕ) (k : OauthProviderConfig) (m : Mem)
    → Foreign v (add_config i t k) m
    → SameRows v m (run (add_config i t k) m)
unfolding run insert_oauth_config
rows-add_config v i t k m h = guarded_rows _ (
    with_configs _ (λ j.
      get_owned-put (λ (r : OauthProviderConfig). r.user_id) v (or_new k.id i) j
        (record k { id = or_new k.id i; created_at = or_new k.created_at t }) m.configs h.0 h.1))

pub rows-add_token :
    (v i t : ℕ) (k : OauthToken) (m : Mem)
    → Foreign v (add_token i t k) m
    → SameRows v m (run (add_token i t k) m)
unfolding run insert_oauth_token
rows-add_token v i t k m h = guarded_rows _ (
    with_tokens _ (λ j.
      get_owned-put (λ (r : OauthToken). r.user_id) v (or_new k.id i) j
        (record k { id = or_new k.id i; created_at = or_new k.created_at t }) m.tokens h.0 h.1))

pub rows-add_manifest :
    (v i t : ℕ) (k : ProviderManifest) (m : Mem)
    → Foreign v (add_manifest i t k) m
    → SameRows v m (run (add_manifest i t k) m)
unfolding run insert_manifest
rows-add_manifest v i t k m h = guarded_rows _ (
    with_manifests _ (λ j.
      get_owned-put (λ (r : ProviderManifest). r.user_id) v (or_new k.id i) j
        (record k { id = or_new k.id i; created_at = or_new k.created_at t }) m.manifests h.0 h.1))

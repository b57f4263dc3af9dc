-- ===== src/Store/Method/Inserts.antt =====
-- The calls that add a row keep the tables tidy.
use donkey_work_vault.Base.{ℕ}
use donkey_work_vault.Store.Types.{
  AccessKey, ApiKey, OauthProviderConfig, OauthState, OauthToken, ProviderManifest,
}
use donkey_work_vault.Store.Rows.{or_new}
use donkey_work_vault.Store.Mem.{Mem}
use donkey_work_vault.Store.Method.{
  add_access_key, add_api_key, add_config, add_state, add_token, add_manifest, run,
}
use donkey_work_vault.Store.Mem.AccessKeys.{insert_access_key}
use donkey_work_vault.Store.Mem.ApiKeys.{insert_api_key}
use donkey_work_vault.Store.Mem.Configs.{insert_oauth_config}
use donkey_work_vault.Store.Mem.States.{insert_oauth_state}
use donkey_work_vault.Store.Mem.Tokens.{insert_oauth_token}
use donkey_work_vault.Store.Mem.Manifests.{insert_manifest}
use donkey_work_vault.Store.Tidy.{IsTidy-put}
use donkey_work_vault.Store.WellFormed.{
  IsWellFormed, with_access_keys, with_api_keys, with_configs, with_states, with_tokens,
  with_manifests, guarded,
}

pub run-add_access_key :
    (i t : ℕ) (k : AccessKey) (m : Mem)
    → IsWellFormed m
    → IsWellFormed (run (add_access_key i t k) m)
unfolding run insert_access_key
run-add_access_key i t k m h = guarded h _ (
    with_access_keys h _ (
      IsTidy-put _ (record k { id = or_new k.id i; created_at = or_new k.created_at t })
        m.access_keys h.access_keys))

pub run-add_api_key :
    (i t : ℕ) (k : ApiKey) (m : Mem) → IsWellFormed m → IsWellFormed (run (add_api_key i t k) m)
unfolding run insert_api_key
run-add_api_key i t k m h = guarded h _ (
    with_api_keys h _ (
      IsTidy-put _ (record k { id = or_new k.id i; created_at = or_new k.created_at t }) m.api_keys
        h.api_keys))

pub run-add_config :
    (i t : ℕ) (k : OauthProviderConfig) (m : Mem)
    → IsWellFormed m
    → IsWellFormed (run (add_config i t k) m)
unfolding run insert_oauth_config
run-add_config i t k m h = guarded h _ (
    with_configs h _ (
      IsTidy-put _ (record k { id = or_new k.id i; created_at = or_new k.created_at t }) m.configs
        h.configs))

pub run-add_state :
    (i t : ℕ) (k : OauthState) (m : Mem) → IsWellFormed m → IsWellFormed (run (add_state i t k) m)
unfolding run insert_oauth_state
run-add_state i t k m h = guarded h _ (
    with_states h _ (
      IsTidy-put _ (record k { id = or_new k.id i; created_at = or_new k.created_at t }) m.states
        h.states))

pub run-add_token :
    (i t : ℕ) (k : OauthToken) (m : Mem) → IsWellFormed m → IsWellFormed (run (add_token i t k) m)
unfolding run insert_oauth_token
run-add_token i t k m h = guarded h _ (
    with_tokens h _ (
      IsTidy-put _ (record k { id = or_new k.id i; created_at = or_new k.created_at t }) m.tokens
        h.tokens))

pub run-add_manifest :
    (i t : ℕ) (k : ProviderManifest) (m : Mem)
    → IsWellFormed m
    → IsWellFormed (run (add_manifest i t k) m)
unfolding run insert_manifest
run-add_manifest i t k m h = guarded h _ (
    with_manifests h _ (
      IsTidy-put _ (record k { id = or_new k.id i; created_at = or_new k.created_at t }) m.manifests
        h.manifests))

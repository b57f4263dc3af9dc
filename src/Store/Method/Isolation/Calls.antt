-- ===== src/Store/Method/Isolation/Calls.antt =====
-- When a call is made for another user.
use donkey_work_vault.Base.{ℕ, ◌≡◌, ◌≢◌, ◌≤◌, ◌⊎◌, none, All}
use donkey_work_vault.Store.Types.{
  AccessKey, ApiKey, AuditEntry, OauthProviderConfig, OauthState, OauthToken, ProviderManifest,
}
use donkey_work_vault.Store.Rows.{or_new, get_owned}
use donkey_work_vault.Store.Mem.{Mem}
use donkey_work_vault.Store.Method.{
  Method, add_access_key, enable_access_key, drop_access_key, touch_access_key, add_api_key,
  edit_api_key, drop_api_key, touch_api_key, add_config, edit_config, drop_config, add_state,
  drop_state, add_token, edit_token, drop_token, add_manifest, edit_manifest, drop_manifest,
  add_audit, drop_audit,
}

-- The call is made for a user other than `v`. A row that is added takes no id under which `v` has
-- one, a method that writes or deletes by id alone is given no id of a row of `v`, the events that
-- are added to the trail are not about `v`, and the cutoff of a deletion from the trail is not after a
-- row of `v`.
abbrev pub Foreign : ℕ → Method → Mem → Type 0
Foreign v (add_access_key i t k) m =
    (k.user_id ≢ v)
    × (get_owned (λ (r : AccessKey). r.user_id) v (or_new k.id i) m.access_keys ≡ none)
Foreign v (add_api_key i t k) m =
    (k.user_id ≢ v) × (get_owned (λ (r : ApiKey). r.user_id) v (or_new k.id i) m.api_keys ≡ none)
Foreign v (add_config i t k) m =
    (k.user_id ≢ v)
    × (get_owned (λ (r : OauthProviderConfig). r.user_id) v (or_new k.id i) m.configs ≡ none)
Foreign v (add_token i t k) m =
    (k.user_id ≢ v) × (get_owned (λ (r : OauthToken). r.user_id) v (or_new k.id i) m.tokens ≡ none)
Foreign v (add_manifest i t k) m =
    (k.user_id ≢ v)
    × (get_owned (λ (r : ProviderManifest). r.user_id) v (or_new k.id i) m.manifests ≡ none)
Foreign v (enable_access_key t u i b) m = u ≢ v
Foreign v (drop_access_key u i) m = u ≢ v
Foreign v (drop_api_key u i) m = u ≢ v
Foreign v (drop_config u i) m = u ≢ v
Foreign v (drop_token u i) m = u ≢ v
Foreign v (touch_access_key t i) m =
    (get_owned (λ (r : AccessKey). r.user_id) v i m.access_keys ≡ none)
Foreign v (touch_api_key t i) m = (get_owned (λ (r : ApiKey). r.user_id) v i m.api_keys ≡ none)
Foreign v (edit_api_key k) m = k.user_id ≢ v
Foreign v (edit_config k) m = k.user_id ≢ v
Foreign v (edit_manifest k) m = k.user_id ≢ v
Foreign v (edit_token k) m =
    (k.user_id ≢ v) × (get_owned (λ (r : OauthToken). r.user_id) v k.id m.tokens ≡ none)
Foreign v (drop_manifest u k s) m = u ≢ v
Foreign v (add_state i t s) m =
    (s.owner_user_id ≢ v)
    × (get_owned (λ (r : OauthState). r.owner_user_id) v (or_new s.id i) m.states ≡ none)
Foreign v (drop_state i) m = (get_owned (λ (r : OauthState). r.owner_user_id) v i m.states ≡ none)
Foreign v (add_audit is es) m = All (λ (e : AuditEntry). e.user_id ≢ v) es
Foreign v (drop_audit t n) m =
    All (λ (e : AuditEntry). (e.user_id ≢ v) ⊎ (t ≤ e.created_at)) m.audit

-- ===== src/Store/Method/Isolation/Changed.antt =====
-- Calls that change or delete rows of one user, and what another user has.
use donkey_work_vault.Base.{
  ℕ, ◌≡◌, ◌≢◌, refl, arith, Bool, Bool-cases, Text, text, text_eq, Option, some, none, inl, inr,
  ◌==◌, find,
}
use donkey_work_vault.Base.Table.{get, values, get-put, get-remove}
use donkey_work_vault.Store.Types.{
  AccessKey, ApiKey, OauthProviderConfig, OauthToken, ProviderManifest,
}
use donkey_work_vault.Store.Rows.{
  if_owned, get_owned, get_owned-delete_owned, get_owned-update_owned,
}
use donkey_work_vault.Store.Mem.{Mem}
use donkey_work_vault.Store.Tidy.{get_of_find}
use donkey_work_vault.Store.WellFormed.{IsWellFormed}
use donkey_work_vault.Store.SameRows.{
  SameRows, SameRows-refl, with_access_keys, with_api_keys, with_configs, with_tokens,
  with_manifests, guarded_rows,
}
use donkey_work_vault.Store.Method.{
  enable_access_key, drop_access_key, touch_access_key, edit_api_key, drop_api_key, touch_api_key,
  edit_config, drop_config, edit_token, drop_token, edit_manifest, drop_manifest, run,
}
use donkey_work_vault.Store.Mem.AccessKeys.{
  set_enabled, set_access_key_enabled, delete_access_key, touch_access_key_last_used,
}
use donkey_work_vault.Store.Mem.ApiKeys.{update_api_key, delete_api_key, touch_api_key_last_used}
use donkey_work_vault.Store.Mem.Configs.{update_oauth_config, delete_oauth_config}
use donkey_work_vault.Store.Mem.Tokens.{update_oauth_token, delete_oauth_token}
use donkey_work_vault.Store.Mem.Manifests.{
  is_keyed, config_of, token_of, cascade, update_manifest, delete_manifest_cascade,
}
use donkey_work_vault.Store.Method.Isolation.Calls.{Foreign}
use donkey_work_vault.Store.Method.Isolation.Owned.{get_owned-modify_at, get_owned-drop_where}

pub rows-edit_api_key :
    (v : ℕ) (k : ApiKey) (m : Mem) → k.user_id ≢ v → SameRows v m (run (edit_api_key k) m)
unfolding run update_api_key
rows-edit_api_key v k m h = guarded_rows _ (
    with_api_keys _
      (λ j. get_owned-update_owned (λ (r : ApiKey). r.user_id) v k.id j k m.api_keys h))

pub rows-edit_config :
    (v : ℕ) (k : OauthProviderConfig) (m : Mem)
    → k.user_id ≢ v
    → SameRows v m (run (edit_config k) m)
unfolding run update_oauth_config
rows-edit_config v k m h = guarded_rows _ (
    with_configs _
      (λ j. get_owned-update_owned (λ (r : OauthProviderConfig). r.user_id) v k.id j k m.configs h))

pub rows-edit_manifest :
    (v : ℕ) (k : ProviderManifest) (m : Mem)
    → k.user_id ≢ v
    → SameRows v m (run (edit_manifest k) m)
unfolding run update_manifest
rows-edit_manifest v k m h = guarded_rows _ (
    with_manifests _
      (λ j. get_owned-update_owned (λ (r : ProviderManifest). r.user_id) v k.id j k m.manifests h))

pub rows-drop_access_key :
    (v u i : ℕ) (m : Mem) → u ≢ v → SameRows v m (run (drop_access_key u i) m)
unfolding run delete_access_key
rows-drop_access_key v u i m h = guarded_rows _ (
    with_access_keys _
      (λ j. get_owned-delete_owned (λ (r : AccessKey). r.user_id) u v i j m.access_keys h))

pub rows-drop_api_key : (v u i : ℕ) (m : Mem) → u ≢ v → SameRows v m (run (drop_api_key u i) m)
unfolding run delete_api_key
rows-drop_api_key v u i m h =
    guarded_rows _ (
      with_api_keys _
        (λ j. get_owned-delete_owned (λ (r : ApiKey). r.user_id) u v i j m.api_keys h))

pub rows-drop_config : (v u i : ℕ) (m : Mem) → u ≢ v → SameRows v m (run (drop_config u i) m)
unfolding run delete_oauth_config
rows-drop_config v u i m h = guarded_rows _ (
    with_configs _
      (λ j. get_owned-delete_owned (λ (r : OauthProviderConfig). r.user_id) u v i j m.configs h))

pub rows-drop_token : (v u i : ℕ) (m : Mem) → u ≢ v → SameRows v m (run (drop_token u i) m)
unfolding run delete_oauth_token
rows-drop_token v u i m h =
    guarded_rows _ (
      with_tokens _
        (λ j. get_owned-delete_owned (λ (r : OauthToken). r.user_id) u v i j m.tokens h))

pub rows-touch_access_key :
    (v t i : ℕ) (m : Mem)
    → Foreign v (touch_access_key t i) m
    → SameRows v m (run (touch_access_key t i) m)
unfolding run touch_access_key_last_used
rows-touch_access_key v t i m h = guarded_rows _ (
    with_access_keys _ (λ j.
      get_owned-modify_at (λ (r : AccessKey). r.user_id) _ v i j m.access_keys (λ r. inr refl) h))

pub rows-touch_api_key :
    (v t i : ℕ) (m : Mem)
    → Foreign v (touch_api_key t i) m
    → SameRows v m (run (touch_api_key t i) m)
unfolding run touch_api_key_last_used
rows-touch_api_key v t i m h = guarded_rows _ (
    with_api_keys _
      (λ j. get_owned-modify_at (λ (r : ApiKey). r.user_id) _ v i j m.api_keys (λ r. inr refl) h))

pub rows-edit_token :
    (v : ℕ) (k : OauthToken) (m : Mem)
    → Foreign v (edit_token k) m
    → SameRows v m (run (edit_token k) m)
unfolding run update_oauth_token
rows-edit_token v k m h = guarded_rows _ (
    with_tokens _ (λ j.
      get_owned-modify_at (λ (r : OauthToken). r.user_id) _ v k.id j m.tokens (λ r. inl h.0) h.1))

pub rows-enable_access_key :
    (v t u i : ℕ) (b : Bool) (m : Mem) → u ≢ v → SameRows v m (run (enable_access_key t u i b) m)
unfolding run set_access_key_enabled get_owned set_enabled
rows-enable_access_key v t u i b m h = guarded_rows _ (go (get i m.access_keys) refl)
  where
    go :
        (o : Option AccessKey)
        → get i m.access_keys ≡ o
        → SameRows v m (set_enabled t i b (if_owned (λ (r : AccessKey). r.user_id) u o) m).1
    go none e = SameRows-refl
    go (some k) e = elim (Bool-cases (k.user_id == u)) [
      | inl mine ↦ rw mine (
          with_access_keys _ (λ j.
            ground (
              arith,
              e,
              get-put i j (record k { enabled = b; updated_at = some t }) m.access_keys,
            )))
      | inr other ↦ rw other SameRows-refl
    ]

pub rows-drop_manifest :
    (v u : ℕ) (k s : Text) (m : Mem)
    → u ≢ v
    → IsWellFormed m
    → SameRows v m (run (drop_manifest u k s) m)
unfolding run delete_manifest_cascade cascade get_owned
rows-drop_manifest v u k s m h w =
    guarded_rows _ (go (find (is_keyed u k s) (values m.manifests)) refl)
  where
    go :
        (o : Option ProviderManifest)
        → find (is_keyed u k s) (values m.manifests) ≡ o
        → SameRows v m (cascade u k o m).1
    go none e = SameRows-refl
    go (some r) e =
        let (keyed, found) = get_of_find _ (is_keyed u k s) r m.manifests w.manifests e in
        record {
          access_keys = λ j. refl;
          api_keys = λ j. refl;
          configs = λ j.
              get_owned-drop_where _ (config_of (text_eq k (text "oauth")) r.provider_id u) v j
                m.configs (λ c passed. ground arith) w.configs.distinct;
          tokens = λ j.
              get_owned-drop_where _ (token_of (text_eq k (text "oauth")) r.provider_id u) v j
                m.tokens (λ t passed. ground arith) w.tokens.distinct;
          manifests = λ j. ground (arith, found, keyed, get-remove r.id j m.manifests);
          states = λ j. refl;
          audit = refl;
        }

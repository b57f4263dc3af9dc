-- ===== src/Store/Method/Writes.antt =====
-- The calls that change or remove rows keep the tables tidy.
use donkey_work_vault.Base.{
  ℕ, ◌≡◌, refl, Bool, List, Option, some, none, Option-cases, Bool-cases, find, Text, inl, inr,
  ◌==◌,
}
use donkey_work_vault.Base.Table.{values, get}
use donkey_work_vault.Store.Types.{
  AccessKey, ApiKey, AuditEntry, OauthProviderConfig, OauthToken, ProviderManifest,
}
use donkey_work_vault.Store.Rows.{if_owned, get_owned}
use donkey_work_vault.Store.Mem.{Mem}
use donkey_work_vault.Store.Method.{
  enable_access_key, drop_access_key, touch_access_key, edit_api_key, drop_api_key, touch_api_key,
  edit_config, drop_config, drop_state, edit_token, drop_token, edit_manifest, drop_manifest,
  add_audit, drop_audit, run,
}
use donkey_work_vault.Store.Mem.AccessKeys.{
  set_enabled, set_access_key_enabled, delete_access_key, touch_access_key_last_used,
}
use donkey_work_vault.Store.Mem.ApiKeys.{update_api_key, delete_api_key, touch_api_key_last_used}
use donkey_work_vault.Store.Mem.Configs.{update_oauth_config, delete_oauth_config}
use donkey_work_vault.Store.Mem.States.{delete_state, delete_oauth_state}
use donkey_work_vault.Store.Mem.Tokens.{update_oauth_token, delete_oauth_token}
use donkey_work_vault.Store.Mem.Manifests.{
  is_keyed, cascade, update_manifest, delete_manifest_cascade,
}
use donkey_work_vault.Store.Mem.Audit.{insert_audit_batch, delete_audit_older_than}
use donkey_work_vault.Store.Tidy.{
  IsTidy-put_at, IsTidy-remove, IsTidy-drop_where, IsTidy-delete_owned, IsTidy-update_owned,
  IsTidy-modify_at, id_of_get,
}
use donkey_work_vault.Store.WellFormed.{
  IsWellFormed, with_access_keys, with_api_keys, with_configs, with_states, with_tokens,
  with_manifests, without_tables, guarded,
}

pub run-edit_api_key :
    (k : ApiKey) (m : Mem) → IsWellFormed m → IsWellFormed (run (edit_api_key k) m)
unfolding run update_api_key
run-edit_api_key k m h =
    guarded h _ (with_api_keys h _ (IsTidy-update_owned _ _ k m.api_keys h.api_keys))

pub run-edit_config :
    (k : OauthProviderConfig) (m : Mem) → IsWellFormed m → IsWellFormed (run (edit_config k) m)
unfolding run update_oauth_config
run-edit_config k m h =
    guarded h _ (with_configs h _ (IsTidy-update_owned _ _ k m.configs h.configs))

pub run-edit_manifest :
    (k : ProviderManifest) (m : Mem) → IsWellFormed m → IsWellFormed (run (edit_manifest k) m)
unfolding run update_manifest
run-edit_manifest k m h =
    guarded h _ (with_manifests h _ (IsTidy-update_owned _ _ k m.manifests h.manifests))

pub run-drop_access_key :
    (u i : ℕ) (m : Mem) → IsWellFormed m → IsWellFormed (run (drop_access_key u i) m)
unfolding run delete_access_key
run-drop_access_key u i m h = guarded h _ (
    with_access_keys h _
      (IsTidy-delete_owned _ (λ (r : AccessKey). r.user_id) u i m.access_keys h.access_keys))

pub run-drop_api_key :
    (u i : ℕ) (m : Mem) → IsWellFormed m → IsWellFormed (run (drop_api_key u i) m)
unfolding run delete_api_key
run-drop_api_key u i m h = guarded h _ (
    with_api_keys h _ (IsTidy-delete_owned _ (λ (r : ApiKey). r.user_id) u i m.api_keys h.api_keys))

pub run-drop_config : (u i : ℕ) (m : Mem) → IsWellFormed m → IsWellFormed (run (drop_config u i) m)
unfolding run delete_oauth_config
run-drop_config u i m h = guarded h _ (
    with_configs h _
      (IsTidy-delete_owned _ (λ (r : OauthProviderConfig). r.user_id) u i m.configs h.configs))

pub run-drop_token : (u i : ℕ) (m : Mem) → IsWellFormed m → IsWellFormed (run (drop_token u i) m)
unfolding run delete_oauth_token
run-drop_token u i m h =
    guarded h _ (
      with_tokens h _ (IsTidy-delete_owned _ (λ (r : OauthToken). r.user_id) u i m.tokens h.tokens))

-- Calls that write one row back under the key at which it was found.
pub run-enable_access_key :
    (t u i : ℕ) (b : Bool) (m : Mem)
    → IsWellFormed m
    → IsWellFormed (run (enable_access_key t u i b) m)
unfolding run set_access_key_enabled get_owned set_enabled
run-enable_access_key t u i b m h = guarded h _ (go (get i m.access_keys) refl)
  where
    go :
        (o : Option AccessKey)
        → get i m.access_keys ≡ o
        → IsWellFormed (set_enabled t i b (if_owned (λ (k : AccessKey). k.user_id) u o) m).1
    go none e = h
    go (some k) e = elim (Bool-cases (k.user_id == u)) [
      | inl mine ↦ rw (mine) (
          with_access_keys h _ (
            IsTidy-put_at _ i _ m.access_keys (id_of_get _ i k m.access_keys h.access_keys.keyed e)
              h.access_keys))
      | inr other ↦ rw (other) h
    ]

pub run-touch_access_key :
    (t i : ℕ) (m : Mem) → IsWellFormed m → IsWellFormed (run (touch_access_key t i) m)
unfolding run touch_access_key_last_used
run-touch_access_key t i m h =
    guarded h _
      (with_access_keys h _ (IsTidy-modify_at _ _ i m.access_keys (λ v e. e) h.access_keys))

pub run-touch_api_key :
    (t i : ℕ) (m : Mem) → IsWellFormed m → IsWellFormed (run (touch_api_key t i) m)
unfolding run touch_api_key_last_used
run-touch_api_key t i m h =
    guarded h _ (with_api_keys h _ (IsTidy-modify_at _ _ i m.api_keys (λ v e. e) h.api_keys))

pub run-edit_token :
    (k : OauthToken) (m : Mem) → IsWellFormed m → IsWellFormed (run (edit_token k) m)
unfolding run update_oauth_token
run-edit_token k m h =
    guarded h _ (with_tokens h _ (IsTidy-modify_at _ _ k.id m.tokens (λ v e. refl) h.tokens))

pub run-drop_state : (i : ℕ) (m : Mem) → IsWellFormed m → IsWellFormed (run (drop_state i) m)
unfolding run delete_oauth_state delete_state
run-drop_state i m h = guarded h _ (elim (Option-cases (get i m.states)) [
  | inl e ↦ rw (e, delete_state) h
  | inr (s, e) ↦ rw (e, delete_state) (with_states h _ (IsTidy-remove _ i m.states h.states))
])

pub run-drop_manifest :
    (u : ℕ) (k s : Text) (m : Mem) → IsWellFormed m → IsWellFormed (run (drop_manifest u k s) m)
unfolding run delete_manifest_cascade cascade
run-drop_manifest u k s m h = guarded h _ (go (find (is_keyed u k s) (values m.manifests)))
  where
    go : (o : Option ProviderManifest) → IsWellFormed (cascade u k o m).1
    go none = h
    go (some r) =
        with_manifests
          (with_tokens (with_configs h _ (IsTidy-drop_where _ _ m.configs h.configs)) _
            (IsTidy-drop_where _ _ m.tokens h.tokens))
          _ (IsTidy-remove _ r.id m.manifests h.manifests)

pub run-add_audit :
    (is : List ℕ) (es : List AuditEntry) (m : Mem)
    → IsWellFormed m
    → IsWellFormed (run (add_audit is es) m)
unfolding run insert_audit_batch
run-add_audit is es m h = guarded h _ (without_tables h _ _)

pub run-drop_audit : (t n : ℕ) (m : Mem) → IsWellFormed m → IsWellFormed (run (drop_audit t n) m)
unfolding run delete_audit_older_than
run-drop_audit t n m h = guarded h _ (without_tables h _ _)

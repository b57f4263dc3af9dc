-- ===== src/Store/Mem/Manifests.antt =====
-- memstore.go: the methods on provider manifests.
use donkey_work_vault.Base.{
  Bool, Option, some, none, List, Text, text, text_eq, find, keep, ok, ◌==◌, ◌&&◌, true, false,
}
use donkey_work_vault.Base.Table.{put, remove, drop_where, values}
use donkey_work_vault.Base.Exec.{Exec, pure, gets, modify, ◌>>=◌, ◌>>◌}
use donkey_work_vault.Store.Types.{Uuid, Time, OauthProviderConfig, OauthToken, ProviderManifest}
use donkey_work_vault.Store.Rows.{or_new, update_owned}
use donkey_work_vault.Store.Mem.{Mem, fail}

unfoldable pub list_oauth_manifests : Uuid → Exec Mem (List ProviderManifest)
list_oauth_manifests user_id = do
  fail
  gets (λ m.
      keep (λ (r : ProviderManifest). text_eq r.kind (text "oauth") && (r.user_id == user_id))
        (values m.manifests))

abbrev pub is_keyed : Uuid → Text → Text → ProviderManifest → Bool
is_keyed user_id kind key r = text_eq r.kind kind && text_eq r.key key && (r.user_id == user_id)

unfoldable pub get_manifest_by_key : Uuid → Text → Text → Exec Mem (Option ProviderManifest)
get_manifest_by_key user_id kind key = do
  fail
  gets (λ m. find (is_keyed user_id kind key) (values m.manifests))

unfoldable pub insert_manifest : Uuid → Time → ProviderManifest → Exec Mem ProviderManifest
insert_manifest new_id now row = do
  fail
  let stamped = record row { id = or_new row.id new_id; created_at = or_new row.created_at now }
  modify (λ m. record m { manifests = put stamped.id stamped m.manifests })
  pure stamped

unfoldable pub update_manifest : ProviderManifest → Exec Mem Unit
update_manifest row = do
  fail
  modify (λ m. record m {
    manifests = update_owned (λ (r : ProviderManifest). r.user_id) row.id row m.manifests;
  })

-- The tests of the two cascade loops.
abbrev pub config_of : Bool → Uuid → Uuid → OauthProviderConfig → Bool
config_of is_oauth provider_id user_id c =
    is_oauth && (c.provider_id == provider_id) && (c.user_id == user_id)

abbrev pub token_of : Bool → Uuid → Uuid → OauthToken → Bool
token_of is_oauth provider_id user_id t =
    is_oauth && (t.provider_id == provider_id) && (t.user_id == user_id)

-- The rest of DeleteManifestCascade, with the row that was found.
unfoldable pub cascade : Uuid → Text → Option ProviderManifest → Exec Mem Bool
cascade user_id kind none m = (ok false, m)
cascade user_id kind (some r) m =
    let is_oauth = text_eq kind (text "oauth") in
    (
      ok true,
      record m {
        configs = drop_where (config_of is_oauth r.provider_id user_id) m.configs;
        tokens = drop_where (token_of is_oauth r.provider_id user_id) m.tokens;
        manifests = remove r.id m.manifests;
      },
    )

unfoldable pub delete_manifest_cascade : Uuid → Text → Text → Exec Mem Bool
delete_manifest_cascade user_id kind key = do
  fail
  target ← gets (λ m. find (is_keyed user_id kind key) (values m.manifests))
  cascade user_id kind target

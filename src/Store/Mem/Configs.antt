-- ===== src/Store/Mem/Configs.antt =====
-- memstore.go: the methods on OAuth provider configs.
use donkey_work_vault.Base.{Bool, Option, List, find, ok, ◌==◌, ◌&&◌}
use donkey_work_vault.Base.Strings.{text_lt}
use donkey_work_vault.Base.Table.{put, values}
use donkey_work_vault.Base.Sort.{sort_slice}
use donkey_work_vault.Base.Exec.{Exec, pure, gets, modify, ◌>>◌}
use donkey_work_vault.Store.Types.{Uuid, Time, OauthProviderConfig}
use donkey_work_vault.Store.Rows.{or_new, delete_owned, update_owned, list_owned}
use donkey_work_vault.Store.Mem.{Mem, fail}

unfoldable pub insert_oauth_config :
    Uuid → Time → OauthProviderConfig → Exec Mem OauthProviderConfig
insert_oauth_config new_id now row = do
  fail
  let stamped = record row { id = or_new row.id new_id; created_at = or_new row.created_at now }
  modify (λ m. record m { configs = put stamped.id stamped m.configs })
  pure stamped

unfoldable pub update_oauth_config : OauthProviderConfig → Exec Mem Unit
update_oauth_config row = do
  fail
  modify (λ m. record m {
    configs = update_owned (λ (r : OauthProviderConfig). r.user_id) row.id row m.configs;
  })

abbrev pub by_provider : OauthProviderConfig → OauthProviderConfig → Bool
by_provider a b = text_lt a.provider_key b.provider_key

unfoldable pub list_oauth_configs : Uuid → Exec Mem (List OauthProviderConfig)
list_oauth_configs user_id = do
  fail
  gets (λ m.
      sort_slice by_provider
        (list_owned (λ (r : OauthProviderConfig). r.user_id) user_id m.configs))

abbrev pub is_for : Uuid → Uuid → OauthProviderConfig → Bool
is_for user_id provider_id c = (c.user_id == user_id) && (c.provider_id == provider_id)

unfoldable pub get_oauth_config_by_provider : Uuid → Uuid → Exec Mem (Option OauthProviderConfig)
get_oauth_config_by_provider user_id provider_id = do
  fail
  gets (λ m. find (is_for user_id provider_id) (values m.configs))

delete_from : Uuid → Uuid → Exec Mem Bool
delete_from user_id id m =
    let (deleted, rest) =
      delete_owned (λ (r : OauthProviderConfig). r.user_id) user_id id m.configs in
    (ok deleted, record m { configs = rest })

unfoldable pub delete_oauth_config : Uuid → Uuid → Exec Mem Bool
unfolding delete_from
delete_oauth_config user_id id = do fail; delete_from user_id id

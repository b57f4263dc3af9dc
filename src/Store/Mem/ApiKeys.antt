-- ===== src/Store/Mem/ApiKeys.antt =====
-- memstore.go: the methods on API keys.
use donkey_work_vault.Base.{Bool, Option, some, List, ltb, Text, text_eq, find, ok, ◌==◌, ◌&&◌}
use donkey_work_vault.Base.Table.{put, values}
use donkey_work_vault.Base.Sort.{sort_slice}
use donkey_work_vault.Base.Exec.{Exec, pure, gets, modify, ◌>>◌}
use donkey_work_vault.Store.Types.{Uuid, Time, ApiKey}
use donkey_work_vault.Store.Rows.{or_new, modify_at, delete_owned, update_owned, list_owned}
use donkey_work_vault.Store.Mem.{Mem, fail}

unfoldable pub insert_api_key : Uuid → Time → ApiKey → Exec Mem ApiKey
insert_api_key new_id now row = do
  fail
  let stamped = record row { id = or_new row.id new_id; created_at = or_new row.created_at now }
  modify (λ m. record m { api_keys = put stamped.id stamped m.api_keys })
  pure stamped

unfoldable pub update_api_key : ApiKey → Exec Mem Unit
update_api_key row = do
  fail
  modify
      (λ m. record m { api_keys = update_owned (λ (r : ApiKey). r.user_id) row.id row m.api_keys })

-- Newest first.
abbrev pub newer : ApiKey → ApiKey → Bool
newer a b = ltb b.created_at a.created_at

unfoldable pub list_api_keys : Uuid → Exec Mem (List ApiKey)
list_api_keys user_id = do
  fail
  gets (λ m. sort_slice newer (list_owned (λ (r : ApiKey). r.user_id) user_id m.api_keys))

abbrev pub is_named : Uuid → Text → ApiKey → Bool
is_named user_id name k = (k.user_id == user_id) && text_eq k.name name

unfoldable pub get_api_key_by_name : Uuid → Text → Exec Mem (Option ApiKey)
get_api_key_by_name user_id name = do
  fail
  gets (λ m. find (is_named user_id name) (values m.api_keys))

delete_from : Uuid → Uuid → Exec Mem Bool
delete_from user_id id m =
    let (deleted, rest) = delete_owned (λ (r : ApiKey). r.user_id) user_id id m.api_keys in
    (ok deleted, record m { api_keys = rest })

unfoldable pub delete_api_key : Uuid → Uuid → Exec Mem Bool
unfolding delete_from
delete_api_key user_id id = do fail; delete_from user_id id

unfoldable pub touch_api_key_last_used : Time → Uuid → Exec Mem Unit
touch_api_key_last_used now id = do
  fail
  modify (λ m. record m {
    api_keys = modify_at (λ (k : ApiKey). record k { last_used_at = some now }) id m.api_keys;
  })

-- ===== src/Store/Mem/AccessKeys.antt =====
-- memstore.go: the methods on access keys.
use donkey_work_vault.Base.{Bool, Option, some, none, List, ltb, Text, text_eq, find, ok}
use donkey_work_vault.Base.Table.{put, values}
use donkey_work_vault.Base.Sort.{sort_slice}
use donkey_work_vault.Base.Exec.{Exec, pure, gets, modify, ◌>>=◌, ◌>>◌}
use donkey_work_vault.Store.Types.{Uuid, Time, AccessKey}
use donkey_work_vault.Store.Rows.{or_new, modify_at, get_owned, delete_owned, list_owned}
use donkey_work_vault.Store.Mem.{Mem, fail}

unfoldable pub insert_access_key : Uuid → Time → AccessKey → Exec Mem AccessKey
insert_access_key new_id now k = do
  fail
  let stamped = record k { id = or_new k.id new_id; created_at = or_new k.created_at now }
  modify (λ m. record m { access_keys = put stamped.id stamped m.access_keys })
  pure stamped

-- Newest first.
abbrev pub newer : AccessKey → AccessKey → Bool
newer a b = ltb b.created_at a.created_at

unfoldable pub list_access_keys : Uuid → Exec Mem (List AccessKey)
list_access_keys user_id = do
  fail
  gets (λ m. sort_slice newer (list_owned (λ (k : AccessKey). k.user_id) user_id m.access_keys))

unfoldable pub get_access_key_by_id : Uuid → Uuid → Exec Mem (Option AccessKey)
get_access_key_by_id user_id id = do
  fail
  gets (λ m. get_owned (λ (k : AccessKey). k.user_id) user_id id m.access_keys)

-- The rest of SetAccessKeyEnabled, with the row that was found.
unfoldable pub set_enabled : Time → Uuid → Bool → Option AccessKey → Exec Mem (Option AccessKey)
set_enabled now id enabled none = pure none
set_enabled now id enabled (some k) =
    let updated : AccessKey = record k { enabled = enabled; updated_at = some now } in
    do modify (λ m. record m { access_keys = put id updated m.access_keys }); pure (some updated)

unfoldable pub set_access_key_enabled : Time → Uuid → Uuid → Bool → Exec Mem (Option AccessKey)
set_access_key_enabled now user_id id enabled = do
  fail
  found ← gets (λ m. get_owned (λ (k : AccessKey). k.user_id) user_id id m.access_keys)
  set_enabled now id enabled found

delete_from : Uuid → Uuid → Exec Mem Bool
delete_from user_id id m =
    let (deleted, rest) = delete_owned (λ (k : AccessKey). k.user_id) user_id id m.access_keys in
    (ok deleted, record m { access_keys = rest })

unfoldable pub delete_access_key : Uuid → Uuid → Exec Mem Bool
unfolding delete_from
delete_access_key user_id id = do fail; delete_from user_id id

unfoldable pub get_access_key_by_hash : Text → Exec Mem (Option AccessKey)
get_access_key_by_hash hash = do
  fail
  gets (λ m. find (λ (k : AccessKey). text_eq k.key_hash hash) (values m.access_keys))

unfoldable pub touch_access_key_last_used : Time → Uuid → Exec Mem Unit
touch_access_key_last_used now id = do
  fail
  modify (λ m. record m {
    access_keys =
        modify_at (λ (k : AccessKey). record k { last_used_at = some now }) id m.access_keys;
  })

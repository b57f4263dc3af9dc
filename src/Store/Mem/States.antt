-- ===== src/Store/Mem/States.antt =====
-- memstore.go: the methods on OAuth flow states.
use donkey_work_vault.Base.{ℕ, Option, some, none, Text, text_eq, find, ok}
use donkey_work_vault.Base.Table.{get, put, remove, values}
use donkey_work_vault.Base.Exec.{Exec, pure, gets, modify, ◌>>◌}
use donkey_work_vault.Store.Types.{Uuid, Time, OauthState}
use donkey_work_vault.Store.Rows.{or_new}
use donkey_work_vault.Store.Mem.{Mem, fail}

unfoldable pub insert_oauth_state : Uuid → Time → OauthState → Exec Mem OauthState
insert_oauth_state new_id now row = do
  fail
  let stamped = record row { id = or_new row.id new_id; created_at = or_new row.created_at now }
  modify (λ m. record m { states = put stamped.id stamped m.states })
  pure stamped

unfoldable pub get_oauth_state_by_state : Text → Exec Mem (Option OauthState)
get_oauth_state_by_state state = do
  fail
  gets (λ m. find (λ (r : OauthState). text_eq r.state state) (values m.states))

unfoldable pub delete_state : Uuid → Exec Mem ℕ
delete_state id m = elim (get id m.states) [
  | none ↦ (ok 0, m)
  | some r ↦ (ok 1, record m { states = remove id m.states })
]

-- The number of rows deleted.
unfoldable pub delete_oauth_state : Uuid → Exec Mem ℕ
delete_oauth_state id = do fail; delete_state id

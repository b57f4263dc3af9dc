-- ===== src/Store/Mem/Tokens.antt =====
-- memstore.go: the methods on OAuth tokens.
use donkey_work_vault.Base.{
  Bool, Option, some, none, List, ltb, Text, text_eq, if◌then◌else◌, ok, ◌==◌, ◌&&◌, ◌||◌, is_empty,
  [], ◌∷◌,
}
use donkey_work_vault.Base.Strings.{text_lt}
use donkey_work_vault.Base.Table.{put, values}
use donkey_work_vault.Base.Sort.{sort_slice}
use donkey_work_vault.Base.Exec.{Exec, pure, gets, modify, ◌>>◌}
use donkey_work_vault.Store.Types.{Uuid, Time, OauthToken}
use donkey_work_vault.Store.Rows.{or_new, modify_at, get_owned, delete_owned, list_owned}
use donkey_work_vault.Store.Mem.{Mem, fail}

unfoldable pub insert_oauth_token : Uuid → Time → OauthToken → Exec Mem OauthToken
insert_oauth_token new_id now row = do
  fail
  let stamped = record row { id = or_new row.id new_id; created_at = or_new row.created_at now }
  modify (λ m. record m { tokens = put stamped.id stamped m.tokens })
  pure stamped

-- By id, whoever owns the row.
unfoldable pub update_oauth_token : OauthToken → Exec Mem Unit
update_oauth_token row = do
  fail
  modify (λ m. record m { tokens = modify_at (λ (r : OauthToken). row) row.id m.tokens })

abbrev pub by_provider : OauthToken → OauthToken → Bool
by_provider a b = text_lt a.provider_key b.provider_key

unfoldable pub list_oauth_tokens : Uuid → Exec Mem (List OauthToken)
list_oauth_tokens user_id = do
  fail
  gets (λ m. sort_slice by_provider (list_owned (λ (r : OauthToken). r.user_id) user_id m.tokens))

unfoldable pub get_oauth_token_by_id : Uuid → Uuid → Exec Mem (Option OauthToken)
get_oauth_token_by_id user_id id = do
  fail
  gets (λ m. get_owned (λ (r : OauthToken). r.user_id) user_id id m.tokens)

-- The tests of FindOAuthToken; an empty account asks for any.
abbrev pub is_candidate : Uuid → Uuid → Text → OauthToken → Bool
is_candidate user_id provider_id account t =
    (t.user_id == user_id)
    && (t.provider_id == provider_id)
    && (is_empty account || text_eq t.account account)

-- The loop of FindOAuthToken.
unfoldable pub newest_from :
    (OauthToken → Bool) → Option OauthToken → List OauthToken → Option OauthToken
newest_from wanted found [] = found
newest_from wanted none (t ∷ ts) = newest_from wanted (if wanted t then some t else none) ts
newest_from wanted (some f) (t ∷ ts) =
    newest_from wanted (some (if wanted t && ltb f.created_at t.created_at then t else f)) ts

unfoldable pub find_oauth_token : Uuid → Uuid → Text → Exec Mem (Option OauthToken)
find_oauth_token user_id provider_id account = do
  fail
  gets (λ m. newest_from (is_candidate user_id provider_id account) none (values m.tokens))

delete_from : Uuid → Uuid → Exec Mem Bool
delete_from user_id id m =
    let (deleted, rest) = delete_owned (λ (r : OauthToken). r.user_id) user_id id m.tokens in
    (ok deleted, record m { tokens = rest })

unfoldable pub delete_oauth_token : Uuid → Uuid → Exec Mem Bool
unfolding delete_from
delete_oauth_token user_id id = do fail; delete_from user_id id

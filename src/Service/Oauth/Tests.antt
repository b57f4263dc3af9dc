-- ===== src/Service/Oauth/Tests.antt =====
-- The theorems about OAuth at concrete inputs.
use donkey_work_vault.Base.{ℕ, ◌≡◌, ◌≢◌, refl, arith, [], ◌∷◌, some, text, text_eq, ok}
use donkey_work_vault.Base.Cut.{fields_from}
use donkey_work_vault.Base.Table.{get, values}
use donkey_work_vault.Store.Types.{OauthToken}
use donkey_work_vault.Audit.Log.{Backend}
use donkey_work_vault.Manifests.Resolver.{materialize, stamped}
use donkey_work_vault.Manifests.Samples
use donkey_work_vault.Service.Oauth.{post_form, expiry, add_seconds, decode_scopes}
use donkey_work_vault.Service.Oauth.Userinfo.{fetch_account}
use donkey_work_vault.Service.Oauth.Exchange.{request_grant, exchanged}
use donkey_work_vault.Service.Oauth.Tokens.{refresh, refresh_cipher}
use donkey_work_vault.Service.Oauth.Flow.{
  catalog, filter_scopes_to_catalog, refresh_blob_of, granted_scopes, split_scopes, complete,
}
use donkey_work_vault.Service.Oauth.Replay.{IsRefused, complete_once}
use donkey_work_vault.Service.Oauth.Filtered.{IsFiltered, filter_scopes_to_catalog-IsFiltered}
use donkey_work_vault.Service.Oauth.Connected.{Connects, complete_then_get_access_token}
use donkey_work_vault.Service.Oauth.Refreshed.{live_token, refresh-rotates}
use donkey_work_vault.Service.Oauth.Samples.{
  plain_cipher, plain_cipher-IsCipher, grant, json, client, ctx, later, state_row, config, token,
  store-IsWellFormed, backend, manifest,
}

complete_once_example :
    IsRefused Samples.json json plain_cipher client later 21
      (text "other")
      (text "st")
      (complete Samples.json json plain_cipher client ctx 20 (text "code") (text "st") backend).1
unfolding values text_eq
complete_once_example =
    complete_once Samples.json json plain_cipher client ctx later 20 21 (text "code") (text "other")
      (text "st") backend store-IsWellFormed (omega arith) refl (omega arith)

filter_scopes_to_catalog-IsFiltered_example :
    IsFiltered
      (catalog manifest)
      (text "repo" ∷ text "admin" ∷ [])
      (filter_scopes_to_catalog manifest (text "repo" ∷ text "admin" ∷ []))
filter_scopes_to_catalog-IsFiltered_example =
    filter_scopes_to_catalog-IsFiltered manifest (text "repo" ∷ text "admin" ∷ [])

complete_then_get_access_token_example :
    Connects Samples.json json plain_cipher client ctx 20 state_row manifest config grant
      (text "gho_new")
      (text "ghr_new")
      later
      (text "code")
      (text "st")
      backend
unfolding values text_eq materialize stamped post_form request_grant exchanged refresh_blob_of
    expiry add_seconds granted_scopes split_scopes fields_from fetch_account decode_scopes
complete_then_get_access_token_example =
    complete_then_get_access_token Samples.json json plain_cipher client ctx 20 state_row manifest
      config grant (text "gho_new") (text "ghr_new") later (text "code") (text "st") backend.random
      backend.random Samples.saved_row backend plain_cipher-IsCipher refl store-IsWellFormed refl
      (omega arith) refl refl refl refl refl refl refl refl (λ c. refl) refl refl

refresh-rotates_example :
    (c : Backend) × (stored : OauthToken) × (refresh Samples.json json plain_cipher client ctx
        manifest config token backend
      ≡ (ok (some (live_token Samples.json json plain_cipher client ctx token grant)), c))
    × (get 14 c.store.tokens ≡ some stored)
    × (plain_cipher.decrypt_to_string stored.access_token_cipher ≡ ok (text "gho_new"))
    × (text "ghr_new" ≡ [] → stored.refresh_token_cipher ≡ text "ghr_old")
    × (text "ghr_new" ≢ []
        → plain_cipher.decrypt_to_string stored.refresh_token_cipher ≡ ok (text "ghr_new"))
    × ((j : ℕ) → j ≢ 14 → get j c.store.tokens ≡ get j backend.store.tokens)
unfolding values text_eq post_form refresh_cipher
refresh-rotates_example =
    refresh-rotates Samples.json json plain_cipher client ctx manifest config token grant
      (text "ghr_old") (text "id") (text "secret") (text "{}") (text "gho_new") (text "ghr_new")
      backend.random backend.random 200 backend plain_cipher-IsCipher store-IsWellFormed refl refl
      (omega arith) refl refl refl refl refl refl refl refl refl

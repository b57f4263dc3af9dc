-- ===== src/Service/Oauth/Stored.antt =====
-- service/oauthflow.go: the row that storeToken leaves, and that FindOAuthToken then finds.
use donkey_work_vault.Base.{
  ℕ, ◌≡◌, ◌∙◌, ◌≤◌, refl, arith, Bool-cases, inl, inr, Bool, true, false, List, [], ◌∷◌, find, keep,
  length, Option, none, some, Text, ok, All, ◌==◌, text_eq_refl,
}
use donkey_work_vault.Base.Table.{Table, get, put, values}
use donkey_work_vault.Crypto.Cipher.{Cipher}
use donkey_work_vault.Store.Types.{Uuid, Time, OauthState, OauthToken}
use donkey_work_vault.Store.Rows.{modify_at}
use donkey_work_vault.Store.Mem.{fail_lem}
use donkey_work_vault.Store.Mem.Tokens.{
  is_candidate, newest_from, insert_oauth_token, update_oauth_token, find_oauth_token,
}
use donkey_work_vault.Store.Tidy.{IsTidy, get_of_find}
use donkey_work_vault.Audit.Log.{Context, Backend}
use donkey_work_vault.Manifests.{ManifestJson}
use donkey_work_vault.Store.Search.{find-put, find-none, find-put_found}
use donkey_work_vault.Service.Oauth.{OauthJson, TokenResponse, Client}
use donkey_work_vault.Service.Oauth.Flow.{kept_blob, refresh_blob_of, insert_or_update, store_token}

-- Not more than one of the rows is wanted.
abbrev pub IsOnly : (OauthToken → Bool) → Table OauthToken → Type 0
IsOnly wanted t = length (keep wanted (values t)) ≤ 1

module _ (wanted : OauthToken → Bool) where
  newest_from-kept :
      (f : OauthToken) (ts : List OauthToken)
      → All (λ w. wanted w ≡ false) ts
      → newest_from wanted (some f) ts ≡ some f
  unfolding newest_from
  newest_from-kept f [] h = refl
  newest_from-kept f (t ∷ ts) h = ground (arith, newest_from-kept f ts)

  none-keep : (ts : List OauthToken) → length (keep wanted ts) ≤ 0 → All (λ w. wanted w ≡ false) ts
  none-keep [] h = tt
  none-keep (t ∷ ts) h = ground (arith, none-keep ts)

  -- Of the rows of which one is wanted at most, the newest is the first.
  pub newest_from-find :
      (ts : List OauthToken)
      → length (keep wanted ts) ≤ 1
      → newest_from wanted none ts ≡ find wanted ts
  unfolding newest_from
  newest_from-find [] h = refl
  newest_from-find (t ∷ ts) h =
      ground (arith, newest_from-find ts, newest_from-kept t ts, none-keep ts)

  -- Writing a wanted row where there was none.
  only-put :
      (k : ℕ) (v : OauthToken) (t : Table OauthToken)
      → All (λ w. wanted w ≡ false) (values t)
      → length (keep wanted (values (put k v t))) ≤ 1
  unfolding values put
  only-put k v [] h = ground arith
  only-put k v ((j, w) ∷ t) h = ground (arith, only-put k v t, length-keep_none (values t))
    where
      length-keep_none :
          (ts : List OauthToken) → All (λ w. wanted w ≡ false) ts → length (keep wanted ts) ≡ 0
      length-keep_none [] h = refl
      length-keep_none (x ∷ ts) h = ground (arith, length-keep_none ts)

  keep-pos :
      (k : ℕ) (r : OauthToken) (t : Table OauthToken)
      → get k t ≡ some r
      → wanted r ≡ true
      → 1 ≤ length (keep wanted (values t))
  unfolding get values
  keep-pos k r [] e q = absurd (cc e)
  keep-pos k r ((j, w) ∷ t) e q = ground (arith, keep-pos k r t)

  -- Writing a row over the wanted one.
  only-put_found :
      (k : ℕ) (r v : OauthToken) (t : Table OauthToken)
      → get k t ≡ some r
      → wanted r ≡ true
      → IsOnly wanted t
      → length (keep wanted (values (put k v t))) ≤ 1
  unfolding get values put
  only-put_found k r v [] e q n = absurd (cc e)
  only-put_found k r v ((j, w) ∷ t) e q n = elim (Bool-cases (j == k)) [
    | inl same ↦ rw same (ground (arith, e, q, n, same))
    | inr other ↦ rw other (ground (arith, e, q, n, other, keep-pos k r t, only-put_found k r v t))
  ]

pub modify_at-put :
    (change : OauthToken → OauthToken) (k : ℕ) (r : OauthToken) (t : Table OauthToken)
    → get k t ≡ some r
    → modify_at change k t ≡ put k (change r) t
unfolding modify_at
modify_at-put change k r t e = rw (e, modify_at) refl

-- The row that was found stands in the table.
abbrev Stands : Option OauthToken → Table OauthToken → Type 0
Stands none t = Unit
Stands (some r) t = get r.id t ≡ some r

module _ (manifest_json : ManifestJson) (json : OauthJson) (cipher : Cipher) (client : Client)
    (ctx : Context) (new_id : Uuid) (row : OauthState) (pid : Uuid) (account : Text)
    (parsed : TokenResponse) (expires_at : Option Time) (scopes : List Text)
    (blob refresh_blob : Text) where
  -- The row that is written.
  abbrev pub token_after : Option OauthToken → OauthToken
  token_after none = record {
    id = new_id;
    user_id = row.owner_user_id;
    tenant_id = row.owner_tenant_id;
    provider_id = pid;
    provider_key = row.provider;
    account = account;
    access_token_cipher = blob;
    refresh_token_cipher = refresh_blob;
    scopes_json = some (json.marshal_scopes scopes);
    expires_at = expires_at;
    last_refreshed_at = some ctx.now;
    created_at = ctx.now;
    updated_at = none;
  }
  token_after (some t) = record t {
    access_token_cipher = blob;
    refresh_token_cipher =
        kept_blob manifest_json json cipher client parsed.refresh_token refresh_blob
          t.refresh_token_cipher;
    scopes_json = some (json.marshal_scopes scopes);
    expires_at = expires_at;
    last_refreshed_at = some ctx.now;
  }

  abbrev pub tokens_after : Option OauthToken → Table OauthToken → Table OauthToken
  tokens_after o t = put (token_after o).id (token_after o) t

  pub token_after-fields :
      (o : Option OauthToken)
      → ((token_after o).access_token_cipher ≡ blob)
        × ((token_after o).expires_at ≡ expires_at)
        × ((token_after o).scopes_json ≡ some (json.marshal_scopes scopes))
  token_after-fields none = (refl, refl, refl)
  token_after-fields (some t) = (refl, refl, refl)

  insert_or_update_lem :
      (o : Option OauthToken) (b : Backend)
      → b.store.fail_next ≡ none
      → Stands o b.store.tokens
      → insert_or_update manifest_json json cipher client ctx new_id row pid account parsed
          expires_at scopes blob refresh_blob o b
        ≡ (ok tt, record b { store = record b.store { tokens = tokens_after o b.store.tokens } })
  unfolding insert_or_update insert_oauth_token update_oauth_token
  insert_or_update_lem none b h s = rw (fail_lem b.store h) refl
  insert_or_update_lem (some t) b h s =
      rw (fail_lem b.store h, modify_at-put (λ r. token_after (some t)) t.id t b.store.tokens s)
        refl

  candidate_after :
      (o : Option OauthToken) (t : Table OauthToken)
      → IsTidy (λ (r : OauthToken). r.id) t
      → find (is_candidate row.owner_user_id pid account) (values t) ≡ o
      → (is_candidate row.owner_user_id pid account (token_after o) ≡ true) × Stands o t
  candidate_after none t h e = (ground (arith, text_eq_refl account), tt)
  candidate_after (some r) t h e =
      get_of_find (λ (r : OauthToken). r.id) (is_candidate row.owner_user_id pid account) r t h e

  pub found_after :
      (o : Option OauthToken) (t : Table OauthToken)
      → IsTidy (λ (r : OauthToken). r.id) t
      → IsOnly (is_candidate row.owner_user_id pid account) t
      → find (is_candidate row.owner_user_id pid account) (values t) ≡ o
      → newest_from (is_candidate row.owner_user_id pid account) none (values (tokens_after o t))
        ≡ some (token_after o)
  found_after none t h n e =
      let wanted = is_candidate row.owner_user_id pid account in
      let others = find-none wanted (values t) e in
      newest_from-find wanted (values (tokens_after none t))
        (only-put wanted new_id (token_after none) t others)
      ∙ find-put wanted new_id (token_after none) t (candidate_after none t h e).0 others
  found_after (some r) t h n e =
      let wanted = is_candidate row.owner_user_id pid account in
      let (q, s) = get_of_find (λ (r : OauthToken). r.id) wanted r t h e in
      newest_from-find wanted (values (tokens_after (some r) t))
        (only-put_found wanted r.id r (token_after (some r)) t s q n)
      ∙ find-put_found wanted (λ (r : OauthToken). r.id) r (token_after (some r)) t h e
          (candidate_after (some r) t h e).0

  pub store_token_lem :
      (rest last : Text) (b : Backend)
      → b.store.fail_next ≡ none
      → IsTidy (λ (r : OauthToken). r.id) b.store.tokens
      → IsOnly (is_candidate row.owner_user_id pid account) b.store.tokens
      → cipher.encrypt_string parsed.access_token b.random ≡ (ok blob, rest)
      → refresh_blob_of manifest_json json cipher client parsed.refresh_token
          (record b { random = rest })
        ≡ (ok refresh_blob, record b { random = last })
      → store_token manifest_json json cipher client ctx new_id row pid account parsed expires_at
          scopes b
        ≡ (
          ok tt,
          record b {
            store = record b.store {
              tokens =
                  tokens_after
                    (find (is_candidate row.owner_user_id pid account) (values b.store.tokens))
                    b.store.tokens;
            };
            random = last;
          },
        )
  unfolding store_token find_oauth_token
  store_token_lem rest last b h w n e f =
      let wanted = is_candidate row.owner_user_id pid account in
      let o = find wanted (values b.store.tokens) in
      rw
        (
          e,
          f,
          fail_lem b.store h,
          newest_from-find wanted (values b.store.tokens) n,
          insert_or_update_lem o (record b { random = last }) h
              (candidate_after o b.store.tokens w refl).1,
        )
        refl

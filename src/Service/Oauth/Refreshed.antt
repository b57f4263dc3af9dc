-- ===== src/Service/Oauth/Refreshed.antt =====
-- service/oauthtoken.go: what a refresh stores.
use donkey_work_vault.Base.{
  ℕ, ◌≡◌, ◌≢◌, refl, arith, true, false, [], ◌∷◌, find, none, some, Text, ok,
}
use donkey_work_vault.Base.Table.{get, put, values, get-put}
use donkey_work_vault.Crypto.Cipher.{Cipher, IsCipher}
use donkey_work_vault.Store.Types.{OauthProviderConfig, OauthToken}
use donkey_work_vault.Store.Mem.{fail_lem}
use donkey_work_vault.Store.Mem.Tokens.{is_candidate, find_oauth_token, update_oauth_token}
use donkey_work_vault.Store.Tidy.{get_of_find}
use donkey_work_vault.Store.WellFormed.{IsWellFormed}
use donkey_work_vault.Audit.Types.{event_token_refreshed, outcome_success}
use donkey_work_vault.Audit.Log.{Context, Backend, emit, enqueue, event_for}
use donkey_work_vault.Manifests.{Manifest, ManifestJson}
use donkey_work_vault.Service.Oauth.{
  OauthJson, TokenResponse, Client, post_form, http_ok, granted, expiry, decode_scopes,
}
use donkey_work_vault.Service.Oauth.Tokens.{
  OauthAccessToken, about, outlives, refresh_cipher, store_refreshed, with_answer, refresh_form,
  exchange, refresh_from, refresh,
}
use donkey_work_vault.Service.Oauth.Stored.{IsOnly, newest_from-find, modify_at-put}

module _ (manifest_json : ManifestJson) (json : OauthJson) (cipher : Cipher) (client : Client)
    (ctx : Context) where
  abbrev pub refreshed_row : OauthToken → TokenResponse → Text → Text → OauthToken
  refreshed_row t parsed blob refresh_blob = record t {
    access_token_cipher = blob;
    refresh_token_cipher = refresh_blob;
    expires_at = expiry ctx.now parsed.expires_in;
    last_refreshed_at = some ctx.now;
  }

  abbrev pub live_token : OauthToken → TokenResponse → OauthAccessToken
  live_token t parsed = record {
    access_token = parsed.access_token;
    expires_at = expiry ctx.now parsed.expires_in;
    scopes = decode_scopes json t.scopes_json;
  }

  abbrev pub refreshed : OauthToken → TokenResponse → Text → Text → Text → Backend → Backend
  refreshed t parsed blob refresh_blob last b = record {
    store = record b.store {
      tokens = put t.id (refreshed_row t parsed blob refresh_blob) b.store.tokens;
    };
    log = enqueue (event_for ctx (about event_token_refreshed outcome_success t [])) b.log;
    random = last;
  }

  -- The stored refresh token is the new one, or the old one where there is no new one.
  refresh_cipher-kept :
      (token stored rblob rest last : Text) (b : Backend)
      → IsCipher cipher
      → refresh_cipher manifest_json json cipher client ctx token stored
          (record b { random = rest })
        ≡ (ok rblob, record b { random = last })
      → (token ≡ [] → rblob ≡ stored) × (token ≢ [] → cipher.decrypt_to_string rblob ≡ ok token)
  unfolding refresh_cipher
  refresh_cipher-kept [] stored rblob rest last b laws e = ((λ _. cc e), (λ n. absurd (n refl)))
  refresh_cipher-kept (c ∷ cs) stored rblob rest last b laws e = (
    (λ n. cc n),
    (λ _. laws.decrypt-encrypt_string (c ∷ cs) rest rblob last (λ i. ((e i).0, (e i).1.random))),
  )

  store_refreshed_lem :
      (t : OauthToken) (parsed : TokenResponse) (blob refresh_blob rest last : Text) (b : Backend)
      → b.store.fail_next ≡ none
      → get t.id b.store.tokens ≡ some t
      → cipher.encrypt_string parsed.access_token b.random ≡ (ok blob, rest)
      → refresh_cipher manifest_json json cipher client ctx parsed.refresh_token
          t.refresh_token_cipher
          (record b { random = rest })
        ≡ (ok refresh_blob, record b { random = last })
      → store_refreshed manifest_json json cipher client ctx t parsed b
        ≡ (ok (some (live_token t parsed)), refreshed t parsed blob refresh_blob last b)
  unfolding store_refreshed update_oauth_token emit
  store_refreshed_lem t parsed blob refresh_blob rest last b h s e f =
      rw
        (
          e,
          f,
          fail_lem b.store h,
          modify_at-put (λ (r : OauthToken). refreshed_row t parsed blob refresh_blob) t.id t
              b.store.tokens s,
        )
        refl

  -- With a cipher that decrypts what it encrypts, on a well-formed store that does not fail and that
  -- has the token as the only one of its owner, provider and account: if the token is about to
  -- expire, its refresh token and the app's credentials decrypt, the token endpoint answers with a
  -- success that grants an access token, and the new tokens are encrypted, then refresh returns the
  -- granted token and stores it under the same id, with the refresh token of the answer, or with the
  -- old one where the answer has none, and leaves every other token as it is.
  pub refresh-rotates :
      (manifest : Manifest) (config : OauthProviderConfig) (t : OauthToken) (parsed : TokenResponse)
      (refresh_tok client_id client_secret body blob refresh_blob rest last : Text) (status : ℕ)
      (b : Backend)
      → IsCipher cipher
      → IsWellFormed b.store
      → b.store.fail_next ≡ none
      → find (is_candidate t.user_id t.provider_id t.account) (values b.store.tokens) ≡ some t
      → IsOnly (is_candidate t.user_id t.provider_id t.account) b.store.tokens
      → outlives ctx t.expires_at ≡ false
      → cipher.decrypt_to_string t.refresh_token_cipher ≡ ok refresh_tok
      → cipher.decrypt_to_string config.client_id_cipher ≡ ok client_id
      → cipher.decrypt_to_string config.client_secret_cipher ≡ ok client_secret
      → post_form client manifest.token_endpoint
          (refresh_form manifest_json json cipher client ctx refresh_tok client_id client_secret)
          manifest.token_endpoint_auth_method
        ≡ ok (status, body)
      → http_ok status ≡ true
      → granted (json.unmarshal_token body) ≡ some parsed
      → cipher.encrypt_string parsed.access_token b.random ≡ (ok blob, rest)
      → refresh_cipher manifest_json json cipher client ctx parsed.refresh_token
          t.refresh_token_cipher
          (record b { random = rest })
        ≡ (ok refresh_blob, record b { random = last })
      → (c : Backend) × (stored : OauthToken) × (refresh manifest_json json cipher client ctx
            manifest config t b
          ≡ (ok (some (live_token t parsed)), c))
        × (get t.id c.store.tokens ≡ some stored)
        × (cipher.decrypt_to_string stored.access_token_cipher ≡ ok parsed.access_token)
        × (parsed.refresh_token ≡ [] → stored.refresh_token_cipher ≡ t.refresh_token_cipher)
        × (parsed.refresh_token ≢ []
            → cipher.decrypt_to_string stored.refresh_token_cipher ≡ ok parsed.refresh_token)
        × ((j : ℕ) → j ≢ t.id → get j c.store.tokens ≡ get j b.store.tokens)
  unfolding refresh refresh_from find_oauth_token exchange with_answer
  refresh-rotates manifest config t parsed refresh_tok client_id client_secret body blob
        refresh_blob rest last status b laws w h found only old dr di ds answer success grant e f =
      let wanted = is_candidate t.user_id t.provider_id t.account in
      let s = (get_of_find (λ (r : OauthToken). r.id) wanted t b.store.tokens w.tokens found).1 in
      let (kept, renewed) =
        refresh_cipher-kept parsed.refresh_token t.refresh_token_cipher refresh_blob rest last b
          laws f in
      let row = refreshed_row t parsed blob refresh_blob in
      (
        refreshed t parsed blob refresh_blob last b,
        row,
        rw
            (
              fail_lem b.store h,
              newest_from-find wanted (values b.store.tokens) only,
              found,
              old,
              dr,
              di,
              ds,
              answer,
              success,
              grant,
              store_refreshed_lem t parsed blob refresh_blob rest last b h s e f,
            )
            refl,
        ground (arith, get-put t.id t.id row b.store.tokens),
        laws.decrypt-encrypt_string parsed.access_token b.random blob rest e,
        kept,
        renewed,
        (λ j d. ground (arith, get-put t.id j row b.store.tokens)),
      )

-- ===== src/Service/Oauth/Connected.antt =====
-- service/oauthflow.go, service/oauthtoken.go: a completed flow leaves a token that can be used.
use donkey_work_vault.Base.{
  ◌≡◌, ◌∙◌, refl, Bool, true, false, List, [], find, ltb, none, some, Text, Result, ok, err, ◌==◌,
}
use donkey_work_vault.Base.Table.{Table, remove, values}
use donkey_work_vault.Crypto.Cipher.{Cipher, IsCipher}
use donkey_work_vault.Store.Types.{
  Uuid, OauthState, OauthToken, OauthProviderConfig, ProviderManifest,
}
use donkey_work_vault.Store.Mem.{fail_lem}
use donkey_work_vault.Store.Mem.Manifests.{is_keyed, get_manifest_by_key}
use donkey_work_vault.Store.Mem.Configs.{is_for, get_oauth_config_by_provider}
use donkey_work_vault.Store.Mem.States.{get_oauth_state_by_state}
use donkey_work_vault.Store.Mem.Tokens.{is_candidate, newest_from, find_oauth_token}
use donkey_work_vault.Store.Claims.{delete_oauth_state-found}
use donkey_work_vault.Store.WellFormed.{IsWellFormed}
use donkey_work_vault.Store.Tidy.{IsTidy, get_of_find}
use donkey_work_vault.Audit.Types.{event_token_added, outcome_success}
use donkey_work_vault.Audit.Log.{Context, Backend, emit, enqueue, event_for}
use donkey_work_vault.Manifests.{Manifest, ManifestJson}
use donkey_work_vault.Manifests.Resolver.{
  stamped, materialize, materialized, get_oauth, resolve_provider_id, oauth_kind,
}
use donkey_work_vault.Service.Oauth.{OauthJson, TokenResponse, Client, expiry, decode_scopes}
use donkey_work_vault.Service.Oauth.Userinfo.{fetch_account}
use donkey_work_vault.Service.Oauth.Exchange.{request_grant}
use donkey_work_vault.Service.Oauth.Tokens.{
  token_event, is_live, stored_access, with_token, get_access_token,
}
use donkey_work_vault.Service.Oauth.Flow.{
  CompleteAuthResult, refresh_blob_of, granted_scopes, split_scopes, with_grant, redeem, claim,
  complete_core, complete,
}
use donkey_work_vault.Service.Oauth.Replay.{has_state}
use donkey_work_vault.Service.Oauth.Stored.{
  IsOnly, token_after, token_after-fields, tokens_after, found_after, store_token_lem,
}

materialize-id :
    (json : ManifestJson) (mrow : ProviderManifest) (m : Manifest)
    → materialize json mrow ≡ ok m
    → m.id ≡ mrow.provider_id
unfolding materialize stamped
materialize-id json mrow m e = go (json.unmarshal mrow.document_json) e
  where
    go : (r : Result Manifest) → materialized json mrow r ≡ ok m → m.id ≡ mrow.provider_id
    go (ok d) h = cc h
    go (err x) h = cc h

-- A live token is handed out as it is stored.
get_access_token_lem :
    (manifest_json : ManifestJson) (json : OauthJson) (cipher : Cipher) (client : Client)
    (ctx : Context) (provider account access : Text) (mrow : ProviderManifest) (t : OauthToken)
    (b : Backend)
    → b.store.fail_next ≡ none
    → find (is_keyed ctx.caller.user_id oauth_kind provider) (values b.store.manifests) ≡ some mrow
    → (mrow.provider_id == 0) ≡ false
    → newest_from
        (is_candidate ctx.caller.user_id mrow.provider_id account)
        none
        (values b.store.tokens)
      ≡ some t
    → is_live ctx t.expires_at ≡ true
    → cipher.decrypt_to_string t.access_token_cipher ≡ ok access
    → (get_access_token manifest_json json cipher client ctx provider account b).0
      ≡ ok (
          some (record {
            access_token = access;
            expires_at = t.expires_at;
            scopes = decode_scopes json t.scopes_json;
          }))
unfolding get_access_token resolve_provider_id get_manifest_by_key find_oauth_token with_token emit
    stored_access
get_access_token_lem manifest_json json cipher client ctx provider account access mrow t b h fm nz
      ft live d =
    rw (fail_lem b.store h, fm, nz, fail_lem b.store h, ft, live, d) refl

module _ (manifest_json : ManifestJson) (json : OauthJson) (cipher : Cipher) (client : Client)
    (ctx : Context) (new_id : Uuid) (row : OauthState) (manifest : Manifest)
    (config : OauthProviderConfig) (parsed : TokenResponse) (blob refresh_blob : Text) where
  abbrev pub account_of_grant : Text
  account_of_grant = fetch_account json client manifest parsed.access_token

  abbrev pub scopes_of_grant : List Text
  scopes_of_grant =
      granted_scopes manifest_json json cipher client ctx new_id row config
        (split_scopes parsed.scope)

  abbrev pub wanted : OauthToken → Bool
  wanted = is_candidate row.owner_user_id manifest.id account_of_grant

  abbrev pub result : CompleteAuthResult
  result = record {
    provider = row.provider;
    account = account_of_grant;
    scopes = scopes_of_grant;
    expires_at = expiry ctx.now parsed.expires_in;
  }

  abbrev pub final_tokens : Table OauthToken → Table OauthToken
  final_tokens t =
      tokens_after manifest_json json cipher client ctx new_id row manifest.id account_of_grant
        parsed (expiry ctx.now parsed.expires_in) scopes_of_grant blob refresh_blob
        (find wanted (values t)) t

  -- What a successful callback leaves.
  abbrev pub connected : Text → Backend → Backend
  connected last b = record {
    store = record b.store {
      states = remove row.id b.store.states;
      tokens = final_tokens b.store.tokens;
    };
    log =
        enqueue
          (event_for ctx
            (record (token_event event_token_added outcome_success row.provider account_of_grant
              []) { user_id = some row.owner_user_id; tenant_id = some row.owner_tenant_id }))
          b.log;
    random = last;
  }

  complete_lem :
      (code state rest last : Text) (mrow : ProviderManifest) (b : Backend)
      → b.store.fail_next ≡ none
      → IsTidy (λ (s : OauthState). s.id) b.store.states
      → IsTidy (λ (r : OauthToken). r.id) b.store.tokens
      → IsOnly wanted b.store.tokens
      → find (has_state state) (values b.store.states) ≡ some row
      → ltb row.expires_at ctx.now ≡ false
      → find (is_keyed row.owner_user_id oauth_kind row.provider) (values b.store.manifests)
        ≡ some mrow
      → materialize manifest_json mrow ≡ ok manifest
      → find (is_for row.owner_user_id manifest.id) (values b.store.configs) ≡ some config
      → request_grant json cipher client row manifest config code ≡ ok parsed
      → cipher.encrypt_string parsed.access_token b.random ≡ (ok blob, rest)
      → ((c : Backend)
          → refresh_blob_of manifest_json json cipher client parsed.refresh_token
              (record c { random = rest })
            ≡ (ok refresh_blob, record c { random = last }))
      → complete manifest_json json cipher client ctx new_id code state b
        ≡ (ok result, connected last b)
  unfolding complete complete_core claim redeem with_grant get_oauth_state_by_state get_oauth
      get_manifest_by_key get_oauth_config_by_provider emit
  complete_lem code state rest last mrow b h ws wt n fs live fm m fc g e f =
      let stored =
        (get_of_find (λ (s : OauthState). s.id) (has_state state) row b.store.states ws fs).1 in
      let after : Backend = record b {
        store = record b.store { states = remove row.id b.store.states };
      } in
      rw
        (
          fail_lem b.store h,
          fs,
          live,
          delete_oauth_state-found row.id row b.store h stored,
          fail_lem after.store h,
          fm,
          m,
          fail_lem after.store h,
          fc,
          g,
          store_token_lem manifest_json json cipher client ctx new_id row manifest.id
              account_of_grant parsed (expiry ctx.now parsed.expires_in) scopes_of_grant blob
              refresh_blob rest last after h wt n e (f after),
        )
        refl

  -- Complete returns, and GetAccessToken hands out what the provider granted.
  abbrev pub Connects : Context → Text → Text → Backend → Type 0
  Connects later code state b =
      (c : Backend) × (complete manifest_json json cipher client ctx new_id code state b
        ≡ (ok result, c))
      × ((get_access_token manifest_json json cipher client later row.provider account_of_grant c).0
          ≡ ok (
              some (record {
                access_token = parsed.access_token;
                expires_at = result.expires_at;
                scopes = scopes_of_grant;
              })))

  -- With a cipher that decrypts what it encrypts and JSON that reads the granted scopes back, on a
  -- well-formed store that does not fail and that has not more than one token of the owner for the
  -- provider and account: if the state is stored and has not expired, its owner has the provider
  -- (under an id that is not nil) and a config for it, the token endpoint grants an access token, and
  -- the tokens are encrypted, then Complete returns, and GetAccessToken for the owner of the state,
  -- at a time when the granted token does not need a refresh, hands out the granted access token
  -- with its expiry and scopes. So it is whether the account was connected before or not.
  pub complete_then_get_access_token :
      (later : Context) (code state rest last : Text) (mrow : ProviderManifest) (b : Backend)
      → IsCipher cipher
      → decode_scopes json (some (json.marshal_scopes scopes_of_grant)) ≡ scopes_of_grant
      → IsWellFormed b.store
      → b.store.fail_next ≡ none
      → IsOnly wanted b.store.tokens
      → find (has_state state) (values b.store.states) ≡ some row
      → ltb row.expires_at ctx.now ≡ false
      → find (is_keyed row.owner_user_id oauth_kind row.provider) (values b.store.manifests)
        ≡ some mrow
      → materialize manifest_json mrow ≡ ok manifest
      → (mrow.provider_id == 0) ≡ false
      → find (is_for row.owner_user_id manifest.id) (values b.store.configs) ≡ some config
      → request_grant json cipher client row manifest config code ≡ ok parsed
      → cipher.encrypt_string parsed.access_token b.random ≡ (ok blob, rest)
      → ((c : Backend)
          → refresh_blob_of manifest_json json cipher client parsed.refresh_token
              (record c { random = rest })
            ≡ (ok refresh_blob, record c { random = last }))
      → later.caller.user_id ≡ row.owner_user_id
      → is_live later result.expires_at ≡ true
      → Connects later code state b
  complete_then_get_access_token later code state rest last mrow b laws back w h n fs live fm m nz
        fc g e f same fresh =
      let o = find wanted (values b.store.tokens) in
      let t =
        token_after manifest_json json cipher client ctx new_id row manifest.id account_of_grant
          parsed (expiry ctx.now parsed.expires_in) scopes_of_grant blob refresh_blob o in
      let (sealed, expires, scoped) =
        token_after-fields manifest_json json cipher client ctx new_id row manifest.id
          account_of_grant parsed (expiry ctx.now parsed.expires_in) scopes_of_grant blob
          refresh_blob o in
      let found =
        found_after manifest_json json cipher client ctx new_id row manifest.id account_of_grant
          parsed (expiry ctx.now parsed.expires_in) scopes_of_grant blob refresh_blob o
          b.store.tokens w.tokens n refl in
      let got =
        get_access_token_lem manifest_json json cipher client later row.provider account_of_grant
          parsed.access_token mrow t (connected last b) h (rw same fm) nz
          (rw (same, ← materialize-id manifest_json mrow manifest m) found) (rw expires fresh)
          (rw sealed (laws.decrypt-encrypt_string parsed.access_token b.random blob rest e)) in
      (
        connected last b,
        complete_lem code state rest last mrow b h w.states w.tokens n fs live fm m fc g e f,
        got ∙ rw (expires, scoped, back) refl,
      )

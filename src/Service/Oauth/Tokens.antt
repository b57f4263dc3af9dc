-- ===== src/Service/Oauth/Tokens.antt =====
-- service/oauthtoken.go: live access tokens, refreshed when they are about to expire. A refresh holds
-- its token's mutex from start to end, and is one step here.
use donkey_work_vault.Base.{
  ℕ, ◌+◌, ◌*◌, Bool, true, false, ltb, ◌==◌, List, [], ◌∷◌, ◌++◌, map, Option, none, some, Text,
  text, is_empty, if◌then◌else◌, Result, ok, err, oauth_refresh,
}
use donkey_work_vault.Base.Cut.{decimal}
use donkey_work_vault.Base.Exec.{Exec, pure, raise, lift, ◌>>=◌, ◌>>◌}
use donkey_work_vault.Crypto.Cipher.{Cipher}
use donkey_work_vault.Store.Types.{Uuid, Time, OauthProviderConfig, OauthToken}
use donkey_work_vault.Store.Mem.Configs.{get_oauth_config_by_provider}
use donkey_work_vault.Store.Mem.Tokens.{
  update_oauth_token, list_oauth_tokens, get_oauth_token_by_id, find_oauth_token,
  delete_oauth_token,
}
use donkey_work_vault.Audit.Types.{
  event_token_accessed, event_token_refreshed, event_token_removed, Outcome, outcome_success,
  outcome_failure, EventType,
}
use donkey_work_vault.Audit.Log.{
  Context, Backend, EmitParams, emit, emit_params, on_store, on_random,
}
use donkey_work_vault.Manifests.{Manifest, ManifestJson}
use donkey_work_vault.Manifests.Resolver.{resolve_provider_id, get_oauth}
use donkey_work_vault.Service.Oauth.{
  OauthJson, TokenResponse, Client, Form, message, post_form, http_ok, decode_scopes, second,
  expiry, granted,
}

abbrev pub refresh_window : ℕ
refresh_window = 60 * second

pub record OauthAccessToken : Type 0 where
  pub access_token : Text
  pub expires_at : Option Time
  pub scopes : List Text

pub record OauthTokenSummary : Type 0 where
  pub id : Uuid
  pub provider : Text
  pub account : Text
  pub expires_at : Option Time
  pub last_refreshed_at : Option Time
  pub scopes : List Text

-- The event about a token.
abbrev pub token_event : EventType → Outcome → Text → Text → Text → EmitParams
token_event kind outcome provider account detail =
    record (emit_params kind outcome (text "oauth_token") []) {
      target_provider = provider;
      target_account = account;
      detail = detail;
    }

abbrev pub about : EventType → Outcome → OauthToken → Text → EmitParams
about kind outcome token detail = token_event kind outcome token.provider_key token.account detail

-- `t != nil && t.After(time.Now().Add(refreshWindow))`
abbrev pub outlives : Context → Option Time → Bool
outlives ctx none = false
outlives ctx (some t) = ltb (ctx.now + refresh_window) t

-- No expiry, or one that is far enough.
abbrev pub is_live : Context → Option Time → Bool
is_live ctx none = true
is_live ctx (some t) = outlives ctx (some t)

-- The rest of Delete, with the row that was found.
unfoldable pub delete_found : Context → Uuid → Option OauthToken → Exec Backend Bool
delete_found ctx id none = pure false
delete_found ctx id (some token) = do
  deleted ← on_store (delete_oauth_token ctx.caller.user_id id)
  if deleted
      then emit ctx (about event_token_removed outcome_success token []) >> pure true
      else pure false

unfoldable pub delete : Context → Uuid → Exec Backend Bool
delete ctx id = do
  token ← on_store (get_oauth_token_by_id ctx.caller.user_id id)
  delete_found ctx id token

-- What a lookup gives where its error is passed over.
abbrev pub or_none : Result (Option OauthToken) → Option OauthToken
or_none (err e) = none
or_none (ok o) = o

module _ (json : OauthJson) where
  abbrev pub to_summary : OauthToken → OauthTokenSummary
  to_summary t = record {
    id = t.id;
    provider = t.provider_key;
    account = t.account;
    expires_at = t.expires_at;
    last_refreshed_at = t.last_refreshed_at;
    scopes = decode_scopes json t.scopes_json;
  }

  unfoldable pub list : Context → Exec Backend (List OauthTokenSummary)
  list ctx = do rows ← on_store (list_oauth_tokens ctx.caller.user_id); pure (map to_summary rows)

module _ (manifest_json : ManifestJson) (json : OauthJson) (cipher : Cipher) (client : Client)
    (ctx : Context) where
  -- The stored access token as it is.
  unfoldable pub stored_access : OauthToken → Exec Backend (Option OauthAccessToken)
  stored_access token = do
    access ← lift (cipher.decrypt_to_string token.access_token_cipher)
    pure (
        some (record {
          access_token = access;
          expires_at = token.expires_at;
          scopes = decode_scopes json token.scopes_json;
        }))

  unfoldable pub emit_fail : OauthToken → Text → Exec Backend (Option OauthAccessToken)
  emit_fail token msg = do
    emit ctx (about event_token_refreshed outcome_failure token msg)
    raise (oauth_refresh msg)

  -- The refresh token that is stored: a new one encrypted, or the old cipher text.
  unfoldable pub refresh_cipher : Text → Text → Exec Backend Text
  refresh_cipher [] stored = pure stored
  refresh_cipher (c ∷ cs) stored = on_random (cipher.encrypt_string (c ∷ cs))

  unfoldable pub store_refreshed :
      OauthToken → TokenResponse → Exec Backend (Option OauthAccessToken)
  store_refreshed token parsed = do
    access_blob ← on_random (cipher.encrypt_string parsed.access_token)
    refresh_blob ← refresh_cipher parsed.refresh_token token.refresh_token_cipher
    let expires_at = expiry ctx.now parsed.expires_in
    on_store (
        update_oauth_token (record token {
          access_token_cipher = access_blob;
          refresh_token_cipher = refresh_blob;
          expires_at = expires_at;
          last_refreshed_at = some ctx.now;
        }))
    emit ctx (about event_token_refreshed outcome_success token [])
    pure (
        some (record {
          access_token = parsed.access_token;
          expires_at = expires_at;
          scopes = decode_scopes json token.scopes_json;
        }))

  abbrev pub with_grant :
      Manifest → OauthToken → Option TokenResponse → Exec Backend (Option OauthAccessToken)
  with_grant manifest token none =
      emit_fail token
        (text "refresh response for " ++ (manifest.key ++ text " had no access_token"))
  with_grant manifest token (some parsed) = store_refreshed token parsed

  -- What is done with the answer of the token endpoint.
  unfoldable pub with_answer :
      Manifest → OauthToken → Result (ℕ × Text) → Exec Backend (Option OauthAccessToken)
  with_answer manifest token (err e) =
      emit_fail token (text "refresh failed for " ++ (manifest.key ++ (text ": " ++ message e)))
  with_answer manifest token (ok (status, body)) =
      if http_ok status
      then with_grant manifest token (granted (json.unmarshal_token body))
      else emit_fail token
          (text "refresh failed for " ++ (manifest.key ++ (text ": HTTP " ++ decimal status)))

  abbrev pub refresh_form : Text → Text → Text → Form
  refresh_form refresh_tok client_id client_secret =
      (text "grant_type", text "refresh_token")
      ∷ (text "refresh_token", refresh_tok)
      ∷ (text "client_id", client_id)
      ∷ (text "client_secret", client_secret)
      ∷ []

  unfoldable pub exchange :
      Manifest → OauthProviderConfig → OauthToken → Exec Backend (Option OauthAccessToken)
  exchange manifest config token = do
    refresh_tok ← lift (cipher.decrypt_to_string token.refresh_token_cipher)
    client_id ← lift (cipher.decrypt_to_string config.client_id_cipher)
    client_secret ← lift (cipher.decrypt_to_string config.client_secret_cipher)
    with_answer manifest token (
        post_form client manifest.token_endpoint (refresh_form refresh_tok client_id client_secret)
          manifest.token_endpoint_auth_method)

  -- With the row that was read again under the lock, if any.
  unfoldable pub refresh_from :
      Manifest
      → OauthProviderConfig
      → OauthToken
      → Option OauthToken
      → Exec Backend (Option OauthAccessToken)
  refresh_from manifest config token none = exchange manifest config token
  refresh_from manifest config token (some fresh) =
      if outlives ctx fresh.expires_at then stored_access fresh else exchange manifest config fresh

  unfoldable pub refresh :
      Manifest → OauthProviderConfig → OauthToken → Exec Backend (Option OauthAccessToken)
  refresh manifest config token b =
      let found = on_store (find_oauth_token token.user_id token.provider_id token.account) b in
      refresh_from manifest config token (or_none found.0) found.1

  -- A refresh where all that it needs is there, the stored token otherwise.
  abbrev pub refresh_or_stored :
      OauthToken
      → Option Manifest
      → Option OauthProviderConfig
      → Exec Backend (Option OauthAccessToken)
  refresh_or_stored token (some manifest) (some config) =
      if is_empty token.refresh_token_cipher
      then stored_access token
      else refresh manifest config token
  refresh_or_stored token none config = stored_access token
  refresh_or_stored token (some manifest) none = stored_access token

  unfoldable pub with_token :
      Text → Text → Uuid → Option OauthToken → Exec Backend (Option OauthAccessToken)
  with_token provider account provider_id none = do
    emit ctx (
        token_event event_token_accessed outcome_failure provider account
          (text "no token for provider/account"))
    pure none
  with_token provider account provider_id (some token) = do
    emit ctx (about event_token_accessed outcome_success token [])
    if is_live ctx token.expires_at then stored_access token else (do
      manifest ← on_store (get_oauth manifest_json provider token.user_id)
      config ← on_store (get_oauth_config_by_provider token.user_id provider_id)
      refresh_or_stored token manifest config)

  unfoldable pub get_access_token : Text → Text → Exec Backend (Option OauthAccessToken)
  get_access_token provider account = do
    provider_id ← on_store (resolve_provider_id provider ctx.caller.user_id)
    if provider_id == 0
        then (do
          emit ctx (
              token_event event_token_accessed outcome_failure provider account
                (text "unknown provider"))
          pure none)
        else (do
          token ← on_store (find_oauth_token ctx.caller.user_id provider_id account)
          with_token provider account provider_id token)

-- ===== src/Service/Oauth/Flow.antt =====
-- service/oauthflow.go: the authorization-code flow, which starts with a state row and ends with a
-- stored token.
use mathlib.Core.Bool.{◌||◌}
use donkey_work_vault.Base.{
  ℕ, ◌+◌, ◌*◌, not, ltb, ◌==◌, List, [], ◌∷◌, ◌++◌, map, keep, Option, none, some, Text, text,
  contains, Result, ok, err, oauth_authorization,
}
use donkey_work_vault.Base.Cut.{trim_right, fields}
use donkey_work_vault.Base.Exec.{Exec, pure, require, lift, ◌>>=◌, ◌>>◌}
use donkey_work_vault.Crypto.Cipher.{Cipher}
use donkey_work_vault.Store.Types.{Uuid, Time, OauthProviderConfig, OauthState, OauthToken}
use donkey_work_vault.Store.Mem.Configs.{get_oauth_config_by_provider}
use donkey_work_vault.Store.Mem.States.{
  insert_oauth_state, get_oauth_state_by_state, delete_oauth_state,
}
use donkey_work_vault.Store.Mem.Tokens.{insert_oauth_token, update_oauth_token, find_oauth_token}
use donkey_work_vault.Audit.Types.{event_token_added, outcome_success, outcome_failure}
use donkey_work_vault.Audit.Log.{Context, Backend, emit, on_store, on_random}
use donkey_work_vault.Manifests.{Manifest, ManifestJson, ScopeDef}
use donkey_work_vault.Manifests.Resolver.{get_oauth}
use donkey_work_vault.Service.Oauth.{
  OauthJson, TokenResponse, Client, Form, form_set, message, random_base64url, challenge,
  decode_scopes, second, expiry,
}
use donkey_work_vault.Service.Oauth.Exchange.{found_or, quoted, request_grant}
use donkey_work_vault.Service.Oauth.Tokens.{token_event}
use donkey_work_vault.Service.Oauth.Userinfo.{fetch_account}

pub record BeginAuthResult : Type 0 where
  pub authorize_url : Text
  pub state : Text

pub record CompleteAuthResult : Type 0 where
  pub provider : Text
  pub account : Text
  pub scopes : List Text
  pub expires_at : Option Time

-- The set that the requested scopes are held against, by its members.
abbrev pub catalog : Manifest → List Text
catalog m = map (λ (sc : ScopeDef). sc.value) m.scopes ++ m.default_scopes

-- The scopes that are kept, and those that are dropped. Without a set nothing is dropped.
abbrev pub filter_by : List Text → List Text → List Text × List Text
filter_by [] requested = (requested, [])
filter_by (a ∷ rest) requested =
    (keep (contains (a ∷ rest)) requested, keep (λ sc. not (contains (a ∷ rest) sc)) requested)

unfoldable pub filter_scopes_to_catalog : Manifest → List Text → List Text × List Text
filter_scopes_to_catalog m requested = filter_by (catalog m) requested

unfoldable pub split_scopes : Text → List Text
split_scopes s = fields (λ c. (c == b' ') || (c == b',')) s

-- strings.Join
abbrev pub join_with : Text → List Text → Text
join_with delimiter [] = []
join_with delimiter (s ∷ []) = s
join_with delimiter (s ∷ t ∷ ts) = s ++ (delimiter ++ join_with delimiter (t ∷ ts))

abbrev pub form_set_all : List (Text × Text) → Form → Form
form_set_all [] form = form
form_set_all ((k, v) ∷ kvs) form = form_set_all kvs (form_set k v form)

abbrev pub ten_minutes : ℕ
ten_minutes = 600 * second

-- The scopes that are asked for: those of the call, else of the config, else of the manifest.
abbrev pub config_scopes : OauthJson → Option Text → List Text → List Text
config_scopes json none defaults = defaults
config_scopes json (some s) defaults = decode_scopes json (some s)

unfoldable pub scope_list : OauthJson → List Text → OauthProviderConfig → Manifest → List Text
scope_list json [] config manifest = config_scopes json config.scopes_json manifest.default_scopes
scope_list json (s ∷ ss) config manifest = s ∷ ss

abbrev pub redirect_uri_of : Text → Text
redirect_uri_of public_base_url = trim_right b'/' public_base_url ++ text "/api/oauth/callback"

module _ (manifest_json : ManifestJson) (json : OauthJson) (cipher : Cipher) (client : Client) where
  module _ (sha256 : Text → Text) where
    abbrev pub authorize_form : Manifest → Text → Text → Text → Text → List Text → Form
    authorize_form manifest client_id redirect_uri state verifier scopes =
        form_set_all manifest.authorize_params (
          (text "client_id", client_id)
          ∷ (text "redirect_uri", redirect_uri)
          ∷ (text "response_type", text "code")
          ∷ (text "scope", join_with manifest.scope_delimiter scopes)
          ∷ (text "state", state)
          ∷ (text "code_challenge", challenge sha256 verifier)
          ∷ (text "code_challenge_method", text "S256")
          ∷ [])

    -- The warning about dropped scopes is left out.
    unfoldable pub begin : Context → Uuid → Text → List Text → Text → Exec Backend BeginAuthResult
    begin ctx new_id provider scopes public_base_url = do
      found ← on_store (get_oauth manifest_json provider ctx.caller.user_id)
      manifest ← lift (found_or (quoted (text "unknown OAuth provider ") provider (text ".")) found)
      owned ← on_store (get_oauth_config_by_provider ctx.caller.user_id manifest.id)
      config ← lift (
          found_or
            (quoted (text "no OAuth app config for ") provider
              (text ". Add client_id/secret first."))
            owned)
      client_id ← lift (cipher.decrypt_to_string config.client_id_cipher)
      let kept = (filter_scopes_to_catalog manifest (scope_list json scopes config manifest)).0
      verifier ← on_random random_base64url
      state ← on_random random_base64url
      let redirect_uri = redirect_uri_of public_base_url
      on_store (
          insert_oauth_state new_id ctx.now (record {
            id = 0;
            state = state;
            provider = provider;
            code_verifier = verifier;
            owner_user_id = ctx.caller.user_id;
            owner_tenant_id = ctx.caller.tenant_id;
            redirect_uri = redirect_uri;
            expires_at = ctx.now + ten_minutes;
            created_at = 0;
          }))
      pure (record {
        authorize_url =
            manifest.authorization_endpoint
            ++ (text "?"
                ++ client.encode_form
                    (authorize_form manifest client_id redirect_uri state verifier kept));
        state = state;
      })

  -- The refresh token encrypted, and nothing for an empty one.
  unfoldable pub refresh_blob_of : Text → Exec Backend Text
  refresh_blob_of [] = pure []
  refresh_blob_of (c ∷ cs) = on_random (cipher.encrypt_string (c ∷ cs))

  -- The new refresh token where the provider gave one.
  abbrev pub kept_blob : Text → Text → Text → Text
  kept_blob [] blob stored = stored
  kept_blob (c ∷ cs) blob stored = blob

  module _ (ctx : Context) (new_id : Uuid) (state_row : OauthState) where
    unfoldable pub insert_or_update :
        Uuid
        → Text
        → TokenResponse
        → Option Time
        → List Text
        → Text
        → Text
        → Option OauthToken
        → Exec Backend Unit
    insert_or_update pid account parsed expires_at scopes access_blob refresh_blob none = do
      inserted ← on_store (
          insert_oauth_token new_id ctx.now (record {
            id = 0;
            user_id = state_row.owner_user_id;
            tenant_id = state_row.owner_tenant_id;
            provider_id = pid;
            provider_key = state_row.provider;
            account = account;
            access_token_cipher = access_blob;
            refresh_token_cipher = refresh_blob;
            scopes_json = some (json.marshal_scopes scopes);
            expires_at = expires_at;
            last_refreshed_at = some ctx.now;
            created_at = 0;
            updated_at = none;
          }))
      pure tt
    insert_or_update pid account parsed expires_at scopes access_blob refresh_blob (some t) =
        on_store (
          update_oauth_token (record t {
            access_token_cipher = access_blob;
            refresh_token_cipher =
                kept_blob parsed.refresh_token refresh_blob t.refresh_token_cipher;
            scopes_json = some (json.marshal_scopes scopes);
            expires_at = expires_at;
            last_refreshed_at = some ctx.now;
          }))

    unfoldable pub store_token :
        Uuid → Text → TokenResponse → Option Time → List Text → Exec Backend Unit
    store_token pid account parsed expires_at scopes = do
      access_blob ← on_random (cipher.encrypt_string parsed.access_token)
      refresh_blob ← refresh_blob_of parsed.refresh_token
      existing ← on_store (find_oauth_token state_row.owner_user_id pid account)
      insert_or_update pid account parsed expires_at scopes access_blob refresh_blob existing

    -- The scopes granted, or those of the config where the answer names none.
    unfoldable pub granted_scopes : OauthProviderConfig → List Text → List Text
    granted_scopes config [] = decode_scopes json config.scopes_json
    granted_scopes config (s ∷ ss) = s ∷ ss

    -- What is done with a grant.
    unfoldable pub with_grant :
        Manifest → OauthProviderConfig → TokenResponse → Exec Backend CompleteAuthResult
    with_grant manifest config parsed = do
      let expires_at = expiry ctx.now parsed.expires_in
      let scopes = granted_scopes config (split_scopes parsed.scope)
      let account = fetch_account json client manifest parsed.access_token
      store_token manifest.id account parsed expires_at scopes
      emit ctx
          (record (token_event event_token_added outcome_success state_row.provider account []) {
            user_id = some state_row.owner_user_id;
            tenant_id = some state_row.owner_tenant_id;
          })
      pure (record {
        provider = state_row.provider;
        account = account;
        scopes = scopes;
        expires_at = expires_at;
      })

    -- What follows the claim of the state row.
    unfoldable pub redeem : Text → Exec Backend CompleteAuthResult
    redeem code = do
      found ← on_store (get_oauth manifest_json state_row.provider state_row.owner_user_id)
      manifest ←
          lift
            (found_or (quoted (text "unknown OAuth provider ") state_row.provider (text ".")) found)
      owned ← on_store (get_oauth_config_by_provider state_row.owner_user_id manifest.id)
      config ←
          lift (
            found_or (quoted (text "no OAuth app config for ") state_row.provider (text ".")) owned)
      parsed ← lift (request_grant json cipher client state_row manifest config code)
      with_grant manifest config parsed

  unfoldable pub claim : Context → Uuid → Text → OauthState → Exec Backend CompleteAuthResult
  claim ctx new_id code state_row = do
    require (not (ltb state_row.expires_at ctx.now))
        (oauth_authorization (text "invalid or expired state."))
    deleted ← on_store (delete_oauth_state state_row.id)
    require (not (deleted == 0)) (oauth_authorization (text "state already used."))
    redeem ctx new_id state_row code

  unfoldable pub complete_core : Context → Uuid → Text → Text → Exec Backend CompleteAuthResult
  complete_core ctx new_id code state = do
    found ← on_store (get_oauth_state_by_state state)
    state_row ← lift (found_or (text "invalid or expired state.") found)
    claim ctx new_id code state_row

  -- A failure is an event too.
  abbrev pub reported : Context → Result CompleteAuthResult → Exec Backend CompleteAuthResult
  reported ctx (ok r) b = (ok r, b)
  reported ctx (err e) b =
      (err e, (emit ctx (token_event event_token_added outcome_failure [] [] (message e)) b).1)

  unfoldable pub complete : Context → Uuid → Text → Text → Exec Backend CompleteAuthResult
  complete ctx new_id code state b =
      let r = complete_core ctx new_id code state b in reported ctx r.0 r.1

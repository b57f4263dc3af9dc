-- ===== src/Service/Oauth/Configs.antt =====
-- service/oauthconfig.go: a user's OAuth apps, with the client id and secret encrypted.
use donkey_work_vault.Base.{
  Bool, not, ◌==◌, List, [], ◌∷◌, ◌++◌, Option, none, some, Text, text, is_empty, validation,
}
use donkey_work_vault.Base.Exec.{Exec, pure, require, lift, ◌>>=◌, ◌>>◌}
use donkey_work_vault.Crypto.Cipher.{Cipher}
use donkey_work_vault.Store.Types.{Uuid, Time, OauthProviderConfig}
use donkey_work_vault.Store.Mem.Configs.{
  insert_oauth_config, update_oauth_config, list_oauth_configs, get_oauth_config_by_provider,
  delete_oauth_config,
}
use donkey_work_vault.Audit.Types.{event_credential_created, outcome_success}
use donkey_work_vault.Audit.Log.{Context, Backend, emit, emit_params, on_store, on_random}
use donkey_work_vault.Manifests.Resolver.{resolve_provider_id}
use donkey_work_vault.Service.Usage.{deref}
use donkey_work_vault.Service.Oauth.{OauthJson, mask, decode_scopes}

pub record OauthConfigSummary : Type 0 where
  pub id : Uuid
  pub provider : Text
  pub client_id_masked : Text
  pub scopes : List Text
  pub redirect_uri : Option Text
  pub created_at : Time

pub record ConfigParams : Type 0 where
  pub provider : Text
  pub client_id : Text
  pub client_secret : Option Text
  pub scopes : List Text
  pub redirect_uri : Option Text

module _ (json : OauthJson) (cipher : Cipher) where
  abbrev pub summary : OauthProviderConfig → Text → OauthConfigSummary
  summary row client_id = record {
    id = row.id;
    provider = row.provider_key;
    client_id_masked = mask client_id;
    scopes = decode_scopes json row.scopes_json;
    redirect_uri = row.redirect_uri;
    created_at = row.created_at;
  }

  -- The loop of List; a client id that does not decrypt fails all of it.
  unfoldable pub summaries : List OauthProviderConfig → Exec Backend (List OauthConfigSummary)
  summaries [] = pure []
  summaries (row ∷ rows) = do
    client_id ← lift (cipher.decrypt_to_string row.client_id_cipher)
    rest ← summaries rows
    pure (summary row client_id ∷ rest)

  unfoldable pub list : Context → Exec Backend (List OauthConfigSummary)
  list ctx = do rows ← on_store (list_oauth_configs ctx.caller.user_id); summaries rows

  -- A new row, which needs a secret.
  unfoldable pub insert_new : Context → Uuid → Uuid → ConfigParams → Text → Exec Backend Uuid
  insert_new ctx new_id provider_id p client_id_blob = do
    require (not (is_empty (deref p.client_secret)))
        (validation (text "client secret is required when creating a provider config."))
    secret_blob ← on_random (cipher.encrypt_string (deref p.client_secret))
    row ← on_store (
        insert_oauth_config new_id ctx.now (record {
          id = 0;
          user_id = ctx.caller.user_id;
          tenant_id = ctx.caller.tenant_id;
          provider_id = provider_id;
          provider_key = p.provider;
          client_id_cipher = client_id_blob;
          client_secret_cipher = secret_blob;
          scopes_json = some (json.marshal_scopes p.scopes);
          redirect_uri = p.redirect_uri;
          created_at = 0;
          updated_at = none;
        }))
    emit ctx
        (record (emit_params event_credential_created outcome_success (text "provider_config")
          p.provider) { target_provider = p.provider })
    pure row.id

  -- A blank secret keeps the stored one.
  unfoldable pub secret_cipher : Text → Text → Exec Backend Text
  secret_cipher [] stored = pure stored
  secret_cipher (c ∷ cs) stored = on_random (cipher.encrypt_string (c ∷ cs))

  unfoldable pub edit : ConfigParams → Text → OauthProviderConfig → Exec Backend Uuid
  edit p client_id_blob row = do
    secret_blob ← secret_cipher (deref p.client_secret) row.client_secret_cipher
    on_store (
        update_oauth_config (record row {
          provider_key = p.provider;
          client_id_cipher = client_id_blob;
          client_secret_cipher = secret_blob;
          scopes_json = some (json.marshal_scopes p.scopes);
          redirect_uri = p.redirect_uri;
        }))
    pure row.id

  abbrev pub insert_or_edit :
      Context → Uuid → Uuid → ConfigParams → Text → Option OauthProviderConfig → Exec Backend Uuid
  insert_or_edit ctx new_id provider_id p client_id_blob none =
      insert_new ctx new_id provider_id p client_id_blob
  insert_or_edit ctx new_id provider_id p client_id_blob (some row) = edit p client_id_blob row

  unfoldable pub upsert : Context → Uuid → ConfigParams → Exec Backend Uuid
  upsert ctx new_id p = do
    provider_id ← on_store (resolve_provider_id p.provider ctx.caller.user_id)
    require (not (provider_id == 0)) (
        validation
          (text "unknown provider '" ++ (p.provider ++ text "'. Save the provider first.")))
    row ← on_store (get_oauth_config_by_provider ctx.caller.user_id provider_id)
    client_id_blob ← on_random (cipher.encrypt_string p.client_id)
    insert_or_edit ctx new_id provider_id p client_id_blob row

unfoldable pub delete : Context → Uuid → Exec Backend Bool
delete ctx id = on_store (delete_oauth_config ctx.caller.user_id id)

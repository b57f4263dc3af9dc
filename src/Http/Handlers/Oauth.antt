-- ===== src/Http/Handlers/Oauth.antt =====
-- httpapi/handlers.go: the handlers for OAuth configs, tokens and the flow.
use donkey_work_vault.Base.{
  not, List, [], ◌++◌, map, Option, none, some, Text, text, is_empty, if◌then◌else◌, Result, ok,
  err, oauth_authorization,
}
use mathlib.Core.Bool.{◌||◌}
use donkey_work_vault.Audit.Log.{Context}
use donkey_work_vault.Service.Oauth.Configs
use donkey_work_vault.Service.Oauth.Configs.{ConfigParams, upsert}
use donkey_work_vault.Service.Oauth.Tokens
use donkey_work_vault.Service.Oauth.Tokens.{OauthAccessToken, get_access_token}
use donkey_work_vault.Service.Oauth.Flow
use donkey_work_vault.Service.Oauth.Flow.{CompleteAuthResult, begin, split_scopes}
use donkey_work_vault.Http.Dto.{
  Answer, json, status, redirect, configs, created_config, tokens, access_token, connect, Handler,
  reply, respond, decoded, identified, no_content_or_not_found,
}
use donkey_work_vault.Http.Dto.Providers.{to_config_dto, to_token_dto}
use donkey_work_vault.Http.Handlers.{Deps, Call}

abbrev pub token_or_not_found : Option OauthAccessToken → Answer
token_or_not_found none = status 404
token_or_not_found (some t) = json 200 (
    access_token
      (record { access_token = t.access_token; expires_at = t.expires_at; scopes = t.scopes }))

-- The scopes of the query, none for an absent one.
abbrev pub asked_scopes : Text → List Text
asked_scopes raw = if is_empty raw then [] else split_scopes raw

module _ (deps : Deps) (ctx : Context) (call : Call) where
  unfoldable pub handle_list_configs : Handler
  handle_list_configs =
      respond (Configs.list deps.oauth_json deps.cipher ctx)
        (λ items. json 200 (configs (map to_config_dto items)))

  unfoldable pub upsert_config : ConfigParams → Handler
  upsert_config dto =
      respond (upsert deps.oauth_json deps.cipher ctx (call.new_ids 0) dto)
        (λ id. json 200 (created_config (record { id = id; provider = dto.provider })))

  unfoldable pub handle_upsert_config : Handler
  handle_upsert_config = decoded (deps.decoders.upsert_config call.body) upsert_config

  unfoldable pub handle_delete_config : Handler
  handle_delete_config =
      identified (deps.parse_uuid (call.param (text "id")))
        (λ id. respond (Configs.delete ctx id) no_content_or_not_found)

  unfoldable pub handle_list_tokens : Handler
  handle_list_tokens =
      respond (Tokens.list deps.oauth_json ctx)
        (λ items. json 200 (tokens (map to_token_dto items)))

  unfoldable pub handle_delete_token : Handler
  handle_delete_token =
      identified (deps.parse_uuid (call.param (text "id")))
        (λ id. respond (Tokens.delete ctx id) no_content_or_not_found)

  unfoldable pub handle_get_token : Handler
  handle_get_token =
      respond
        (get_access_token deps.manifest_json deps.oauth_json deps.cipher deps.client ctx
          (call.param (text "provider")) (call.query (text "account")))
        token_or_not_found

  unfoldable pub handle_connect : Handler
  handle_connect =
      respond
        (begin deps.manifest_json deps.oauth_json deps.cipher deps.client deps.sha256 ctx
          (call.new_ids 0) (call.param (text "provider"))
          (asked_scopes (call.query (text "scopes"))) deps.public_base_url)
        (λ res. json 200 (connect res.authorize_url))

  abbrev pub error_redirect : Text → Answer
  error_redirect msg = redirect (text "/oauthconnect?oauth_error=" ++ deps.client.query_escape msg)

  -- Only an authorization error shows its text.
  abbrev pub callback_answer : Result CompleteAuthResult → Answer
  callback_answer (ok res) =
      redirect (text "/oauthconnect?connected=" ++ deps.client.query_escape res.provider)
  callback_answer (err (oauth_authorization msg)) = error_redirect msg
  callback_answer (err _) = error_redirect (text "internal error")

  unfoldable pub handle_oauth_callback : Handler
  handle_oauth_callback b =
      let e = call.query (text "error") in
      let code = call.query (text "code") in
      let state = call.query (text "state") in
      if not (is_empty e)
      then reply (error_redirect e) b
      else if is_empty code || is_empty state
      then reply (redirect (text "/oauthconnect?oauth_error=missing_code")) b
      else (let act =
            Flow.complete deps.manifest_json deps.oauth_json deps.cipher deps.client ctx
              (call.new_ids 0) code state in
          (callback_answer (act b).0, (act b).1))

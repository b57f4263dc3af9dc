-- ===== src/Http/Handlers/Providers.antt =====
-- httpapi/handlers.go: the handlers for manifests.
use mathlib.Core.Bool.{◌||◌}
use donkey_work_vault.Base.{
  Bool, true, false, not, [], ◌++◌, map, Text, text, text_eq, is_empty, if◌then◌else◌, Result, ok,
  err, invalid_slug,
}
use donkey_work_vault.Audit.Log.{Context, on_store}
use donkey_work_vault.Manifests.{Manifest}
use donkey_work_vault.Manifests.Resolver.{list_oauth, upsert_oauth}
use donkey_work_vault.Manifests.Resolver
use donkey_work_vault.Manifests.Loader.{all_templates}
use donkey_work_vault.Manifests.Discovery.{discover}
use donkey_work_vault.Service.Oauth.{message}
use donkey_work_vault.Http.Dto.{
  Answer, json, manifests, manifest, saved_key, Handler, reply, respond, decoded, write_error,
  write_service_error, no_content_or_not_found,
}
use donkey_work_vault.Http.Dto.Providers.{
  UpsertOauthManifestRequest, to_manifest_dto, from_manifest_request, deref_or,
}
use donkey_work_vault.Http.Handlers.{Deps, Call}

-- A slug error has its own answer.
abbrev pub upsert_answer : Text → Result (Unit {0}) → Answer
upsert_answer key (err (invalid_slug slug)) = write_error 400 (message (invalid_slug slug))
upsert_answer key (err e) = write_service_error e
upsert_answer key (ok u) = json 200 (saved_key key)

abbrev pub discover_answer : Result Manifest → Answer
discover_answer (err e) = write_error 400 (text "discovery failed: " ++ message e)
discover_answer (ok m) = json 200 (manifest (to_manifest_dto false m))

abbrev pub is_auth_method : Text → Bool
is_auth_method m =
    is_empty m || text_eq m (text "client_secret_post") || text_eq m (text "client_secret_basic")

module _ (deps : Deps) (ctx : Context) (call : Call) where
  unfoldable pub handle_list_manifests : Handler
  handle_list_manifests =
      respond (on_store (list_oauth deps.manifest_json ctx))
        (λ items. json 200 (manifests (map (to_manifest_dto false) items)))

  unfoldable pub handle_list_templates : Handler
  handle_list_templates =
      reply (json 200 (manifests (map (to_manifest_dto true) (all_templates deps.loader))))

  unfoldable pub upsert_manifest : UpsertOauthManifestRequest → Handler
  upsert_manifest dto b =
      if not (is_auth_method dto.token_endpoint_auth_method)
      then reply (write_error 400 (text "unsupported token endpoint authentication method.")) b
      else (let act = on_store (
            upsert_oauth deps.manifest_json ctx (call.new_ids 0) (call.new_ids 1)
              (from_manifest_request dto)) in
          (upsert_answer dto.key (act b).0, (act b).1))

  unfoldable pub handle_upsert_manifest : Handler
  handle_upsert_manifest = decoded (deps.decoders.upsert_manifest call.body) upsert_manifest

  unfoldable pub handle_discover : Handler
  handle_discover = decoded (deps.decoders.discover_oidc call.body) (λ url.
      reply (
        discover_answer
          (discover deps.host_of deps.fetch deps.decode_well_known (deref_or url []))))

  unfoldable pub handle_delete_manifest : Handler
  handle_delete_manifest =
      respond (on_store (Resolver.delete ctx (call.param (text "kind")) (call.param (text "key"))))
        no_content_or_not_found

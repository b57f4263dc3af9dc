-- ===== src/Http/Handlers/Keys.antt =====
-- httpapi/handlers.go: the handlers for API keys and access keys, and service.go's AssembleHeader.
use donkey_work_vault.Base.{[], ◌++◌, map, Option, none, some, Text, text, text_eq, find}
use donkey_work_vault.Base.Base64.{std_encode}
use donkey_work_vault.Audit.Log.{Context}
use donkey_work_vault.Service.Usage.{CredentialKind, kind_http_basic, scheme, header_name}
use donkey_work_vault.Service.ApiKeys.{StoredApiKey, ApiKeySecret}
use donkey_work_vault.Service.ApiKeys
use donkey_work_vault.Service.AccessKeys.{StoredAccessKey}
use donkey_work_vault.Service.AccessKeys
use donkey_work_vault.Http.Dto.{
  Answer, json, status, api_keys, created_api_key, revealed, shape, access_keys, created_access_key,
  access_key_enabled, Handler, respond, decoded, identified, no_content_or_not_found,
}
use donkey_work_vault.Http.Dto.Keys.{
  CreateApiKeyRequest, CreateAccessKeyRequest, CredentialShapeResponse, RevealApiKeyResponse,
  to_api_key_dto, to_access_key_dto,
}
use donkey_work_vault.Http.Dto.Providers.{deref_or}
use donkey_work_vault.Http.Handlers.{Deps, Call}

-- The name and the value of the header that presents a credential.
unfoldable pub assemble_header : CredentialKind → Text → Text → Text → Text → Text × Text
assemble_header kind_http_basic header prefix username secret =
    (header_name header, text "Basic " ++ std_encode (username ++ (text ":" ++ secret)))
assemble_header _ header prefix username secret = (header_name header, prefix ++ secret)

unfoldable pub to_reveal : ApiKeySecret → RevealApiKeyResponse
to_reveal s =
    let h =
      assemble_header s.kind (deref_or s.header []) (deref_or s.prefix []) (deref_or s.username [])
        s.secret in
    record {
      secret = s.secret;
      header = h.0;
      header_value = h.1;
      prefix = deref_or s.prefix [];
      base_url = deref_or s.base_url [];
      docs_url = deref_or s.docs_url [];
      description = deref_or s.description [];
      scheme = scheme s.kind;
      username = deref_or s.username [];
      kind = s.kind;
    }

abbrev pub revealed_or_not_found : Option ApiKeySecret → Answer
revealed_or_not_found none = status 404
revealed_or_not_found (some s) = json 200 (revealed (to_reveal s))

abbrev pub to_shape : StoredApiKey → CredentialShapeResponse
to_shape k = record {
  header = header_name (deref_or k.header []);
  prefix = deref_or k.prefix [];
  base_url = deref_or k.base_url [];
  docs_url = deref_or k.docs_url [];
  description = deref_or k.description [];
  scheme = scheme k.kind;
  username = deref_or k.username [];
  kind = k.kind;
}

abbrev pub shape_or_not_found : Option StoredApiKey → Answer
shape_or_not_found none = status 404
shape_or_not_found (some k) = json 200 (shape (to_shape k))

abbrev pub enabled_or_not_found : Option StoredAccessKey → Answer
enabled_or_not_found none = status 404
enabled_or_not_found (some k) =
    json 200 (access_key_enabled (record { id = k.id; enabled = k.enabled }))

module _ (deps : Deps) (ctx : Context) (call : Call) where
  unfoldable pub handle_list_api_keys : Handler
  handle_list_api_keys =
      respond (ApiKeys.list ctx) (λ items. json 200 (api_keys (map to_api_key_dto items)))

  unfoldable pub create_api_key : CreateApiKeyRequest → Handler
  create_api_key dto =
      respond
        (ApiKeys.create deps.cipher ctx (call.new_ids 0) (record {
          name = dto.name;
          secret = dto.secret;
          description = dto.description;
          base_url = dto.base_url;
          docs_url = dto.docs_url;
          header = dto.header;
          prefix = dto.prefix;
          username = dto.username;
          kind = dto.kind;
        }))
        (λ item. json 200 (created_api_key (record { id = item.id; name = item.name })))

  unfoldable pub handle_create_api_key : Handler
  handle_create_api_key = decoded (deps.decoders.create_api_key call.body) create_api_key

  unfoldable pub handle_delete_api_key : Handler
  handle_delete_api_key =
      identified (deps.parse_uuid (call.param (text "id")))
        (λ id. respond (ApiKeys.delete ctx id) no_content_or_not_found)

  unfoldable pub handle_reveal_api_key : Handler
  handle_reveal_api_key =
      respond (ApiKeys.get_by_name deps.cipher ctx (call.param (text "name"))) revealed_or_not_found

  unfoldable pub handle_credential_shape : Handler
  handle_credential_shape = respond (ApiKeys.list ctx) (λ items.
      shape_or_not_found
        (find (λ (k : StoredApiKey). text_eq k.name (call.param (text "name"))) items))

  unfoldable pub handle_list_access_keys : Handler
  handle_list_access_keys =
      respond (AccessKeys.list ctx) (λ items. json 200 (access_keys (map to_access_key_dto items)))

  unfoldable pub create_access_key : CreateAccessKeyRequest → Handler
  create_access_key dto =
      respond
        (AccessKeys.create deps.sha256 ctx (call.new_ids 0) dto.name dto.description dto.scopes)
        (λ made. json 200 (
          created_access_key (record {
            id = made.0.id;
            name = made.0.name;
            scopes = made.0.scopes;
            secret = made.1;
          })))

  unfoldable pub handle_create_access_key : Handler
  handle_create_access_key = decoded (deps.decoders.create_access_key call.body) create_access_key

  unfoldable pub handle_set_access_key_enabled : Handler
  handle_set_access_key_enabled = identified (deps.parse_uuid (call.param (text "id"))) (λ id.
      decoded (deps.decoders.set_enabled call.body)
        (λ enabled. respond (AccessKeys.set_enabled ctx id enabled) enabled_or_not_found))

  unfoldable pub handle_delete_access_key : Handler
  handle_delete_access_key =
      identified (deps.parse_uuid (call.param (text "id")))
        (λ id. respond (AccessKeys.delete ctx id) no_content_or_not_found)

-- ===== src/Service/ApiKeys.antt =====
-- service/apikey.go: API keys and other secrets, stored encrypted and revealed by name.
use mathlib.Core.Bool.{◌&&◌, ◌||◌}
use donkey_work_vault.Base.{
  Bool, true, false, not, List, [], ◌∷◌, map, Option, none, some, Text, text, is_empty, has_part,
  trim_space, is_some, if◌then◌else◌, validation, ok, err, Result,
}
use donkey_work_vault.Base.Exec.{Exec, pure, require, lift, ◌>>=◌, ◌>>◌}
use donkey_work_vault.Crypto.Cipher.{Cipher}
use donkey_work_vault.Store.Types.{Uuid, Time, ApiKey}
use donkey_work_vault.Store.Mem.ApiKeys.{
  insert_api_key, update_api_key, list_api_keys, get_api_key_by_name, delete_api_key,
  touch_api_key_last_used,
}
use donkey_work_vault.Audit.Types.{
  event_credential_created, event_token_accessed, outcome_success, outcome_failure,
}
use donkey_work_vault.Audit.Log.{Context, Backend, emit, emit_params, on_store, on_random}
use donkey_work_vault.Service.Usage.{
  CredentialKind, kind_opaque, kind_http_basic, kind_header_api_key, wire,
  credential_kind_from_wire, deref, ptr_if_not_empty,
}

pub record StoredApiKey : Type 0 where
  pub id : Uuid
  pub name : Text
  pub description : Option Text
  pub base_url : Option Text
  pub docs_url : Option Text
  pub header : Option Text
  pub prefix : Option Text
  pub username : Option Text
  pub kind : CredentialKind
  pub created_at : Time
  pub last_used_at : Option Time

pub record ApiKeySecret : Type 0 where
  pub secret : Text
  pub header : Option Text
  pub prefix : Option Text
  pub username : Option Text
  pub kind : CredentialKind
  pub base_url : Option Text
  pub docs_url : Option Text
  pub description : Option Text

-- The kind is the text that the client sent.
pub record CreateApiKeyParams : Type 0 where
  pub name : Text
  pub secret : Option Text
  pub description : Option Text
  pub base_url : Option Text
  pub docs_url : Option Text
  pub header : Option Text
  pub prefix : Option Text
  pub username : Option Text
  pub kind : Text

abbrev pub to_stored_api_key : ApiKey → StoredApiKey
to_stored_api_key k = record {
  id = k.id;
  name = k.name;
  description = k.description;
  base_url = k.base_url;
  docs_url = k.docs_url;
  header = k.header_name;
  prefix = k.prefix;
  username = k.username;
  kind = credential_kind_from_wire k.kind;
  created_at = k.created_at;
  last_used_at = k.last_used_at;
}

-- The trimmed user name, nothing for a blank one; ':' is refused.
unfoldable pub checked_username : Option Text → Result (Option Text)
checked_username username =
    let trimmed = trim_space (deref username) in
    if is_empty trimmed
    then ok none
    else if has_part trimmed (text ":")
    then err (validation (text "username must not contain ':' (it delimits Basic credentials)."))
    else ok (some trimmed)

-- The header and the prefix that a kind keeps.
unfoldable pub header_and_prefix : CredentialKind → Text → Option Text → Option Text × Option Text
header_and_prefix kind_http_basic header prefix =
    (some (if is_empty header then text "Authorization" else header), none)
header_and_prefix kind_header_api_key header prefix = (ptr_if_not_empty header, prefix)
header_and_prefix _ header prefix = (none, none)

-- The row that Create starts from, for a name that is new.
abbrev pub new_row : Context → Text → ApiKey
new_row ctx name = record {
  id = 0;
  user_id = ctx.caller.user_id;
  tenant_id = ctx.caller.tenant_id;
  provider_key = [];
  name = name;
  fields_cipher = [];
  kind = wire kind_opaque;
  description = none;
  base_url = none;
  docs_url = none;
  header_name = none;
  prefix = none;
  username = none;
  created_at = 0;
  updated_at = none;
  last_used_at = none;
}

-- The row that was found or a new one, which needs a secret.
unfoldable pub starting_row : Context → CreateApiKeyParams → Option ApiKey → Result ApiKey
starting_row ctx p (some k) = ok k
starting_row ctx p none =
    if is_empty (deref p.secret)
    then err (validation (text "secret is required."))
    else ok (new_row ctx p.name)

-- The fields that Create overwrites, the cipher text excepted.
unfoldable pub described : CreateApiKeyParams → Option Text → ApiKey → ApiKey
described p username row =
    let kind = credential_kind_from_wire p.kind in
    let kept = header_and_prefix kind (trim_space (deref p.header)) p.prefix in
    record row {
      description = p.description;
      base_url = p.base_url;
      docs_url = p.docs_url;
      username = username;
      kind = wire kind;
      header_name = kept.0;
      prefix = kept.1;
    }

module _ (cipher : Cipher) where
  -- A blank secret keeps the stored one.
  unfoldable pub with_secret : Text → ApiKey → Exec Backend ApiKey
  with_secret [] row = pure row
  with_secret (c ∷ cs) row = do
    blob ← on_random (cipher.encrypt_string (c ∷ cs))
    pure (record row { fields_cipher = blob })

  -- Insert with its audit event, or update.
  unfoldable pub saved : Context → Uuid → Bool → ApiKey → Exec Backend ApiKey
  saved ctx new_id true row = do
    inserted ← on_store (insert_api_key new_id ctx.now row)
    emit ctx (emit_params event_credential_created outcome_success (text "api_key") inserted.name)
    pure inserted
  saved ctx new_id false row = do on_store (update_api_key row); pure row

  unfoldable pub create : Context → Uuid → CreateApiKeyParams → Exec Backend StoredApiKey
  create ctx new_id p = do
    require (not (is_empty (trim_space p.name))) (validation (text "name is required."))
    username ← lift (checked_username p.username)
    existing ← on_store (get_api_key_by_name ctx.caller.user_id p.name)
    row ← lift (starting_row ctx p existing)
    require
        (not (
          is_some username
          && is_empty (deref p.secret)
          && (not (is_some existing) || is_empty row.fields_cipher)))
        (validation (text "a password (secret) is required alongside the username."))
    sealed ← with_secret (deref p.secret) (described p username row)
    stored ← saved ctx new_id (not (is_some existing)) sealed
    pure (to_stored_api_key stored)

  -- The rest of GetByName, with the row that was found.
  unfoldable pub reveal : Context → Text → Option ApiKey → Exec Backend (Option ApiKeySecret)
  reveal ctx name none = do
    emit ctx (record (emit_params event_token_accessed outcome_failure (text "api_key") name) {
      detail = text "credential not found";
    })
    pure none
  reveal ctx name (some k) = do
    secret ← lift (cipher.decrypt_to_string k.fields_cipher)
    on_store (touch_api_key_last_used ctx.now k.id)
    emit ctx (emit_params event_token_accessed outcome_success (text "api_key") k.name)
    pure (
        some (record {
          secret = secret;
          header = k.header_name;
          prefix = k.prefix;
          username = k.username;
          kind = credential_kind_from_wire k.kind;
          base_url = k.base_url;
          docs_url = k.docs_url;
          description = k.description;
        }))

  unfoldable pub get_by_name : Context → Text → Exec Backend (Option ApiKeySecret)
  get_by_name ctx name = do
    entity ← on_store (get_api_key_by_name ctx.caller.user_id name)
    reveal ctx name entity

unfoldable pub list : Context → Exec Backend (List StoredApiKey)
list ctx = do rows ← on_store (list_api_keys ctx.caller.user_id); pure (map to_stored_api_key rows)

unfoldable pub delete : Context → Uuid → Exec Backend Bool
delete ctx id = on_store (delete_api_key ctx.caller.user_id id)

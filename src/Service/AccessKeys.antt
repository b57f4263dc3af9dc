-- ===== src/Service/AccessKeys.antt =====
-- service/accesskey.go: access keys, whose secrets are shown once and stored hashed. SHA-256 is a
-- parameter.
use mathlib.Core.Bool.{◌||◌}
use donkey_work_vault.Base.{
  Bool, true, not, List, [], ◌∷◌, ◌++◌, map, keep, take, length, ltb, Option, none, some, Text,
  text, is_empty, contains, trim_space, if◌then◌else◌, validation, ok, err, Result,
}
use donkey_work_vault.Base.Base64.{raw_url_encode}
use donkey_work_vault.Base.Exec.{Exec, pure, lift, ◌>>=◌, ◌>>◌}
use donkey_work_vault.Crypto.{read_full}
use donkey_work_vault.Store.Types.{Uuid, Time, AccessKey}
use donkey_work_vault.Store.Mem.AccessKeys.{
  insert_access_key, list_access_keys, set_access_key_enabled, delete_access_key,
  get_access_key_by_hash, touch_access_key_last_used,
}
use donkey_work_vault.Audit.Types.{event_credential_created, outcome_success}
use donkey_work_vault.Audit.Log.{Context, Backend, emit, emit_params, on_store, on_random}

abbrev pub secret_prefix : Text
secret_prefix = text "dwv_"

abbrev pub valid_scopes : List Text
valid_scopes = text "vault:read" ∷ text "vault:readwrite" ∷ text "vault:audit" ∷ []

pub record StoredAccessKey : Type 0 where
  pub id : Uuid
  pub name : Text
  pub description : Option Text
  pub scopes : List Text
  pub enabled : Bool
  pub prefix : Text
  pub created_at : Time
  pub last_used_at : Option Time

pub record AccessKeyPrincipal : Type 0 where
  pub id : Uuid
  pub user_id : Uuid
  pub tenant_id : Uuid
  pub scopes : List Text
  pub name : Text
  pub key_prefix : Text

abbrev pub to_stored_access_key : AccessKey → StoredAccessKey
to_stored_access_key k = record {
  id = k.id;
  name = k.name;
  description = k.description;
  scopes = k.scopes;
  enabled = k.enabled;
  prefix = k.key_prefix;
  created_at = k.created_at;
  last_used_at = k.last_used_at;
}

-- The loop of normalizeScopes, with `out` so far.
abbrev pub normalize_from : List Text → List Text → List Text
normalize_from out [] = out
normalize_from out (sc ∷ scopes) =
    normalize_from (if is_empty (trim_space sc) || contains out sc then out else out ++ sc ∷ [])
      scopes

unfoldable pub normalize_scopes : List Text → List Text
normalize_scopes scopes = normalize_from [] scopes

-- strings.Join(texts, ", ")
abbrev pub join_texts : List Text → Text
join_texts [] = []
join_texts (s ∷ []) = s
join_texts (s ∷ t ∷ ts) = s ++ (text ", " ++ join_texts (t ∷ ts))

-- The checks at the start of Create; the scopes that the key will carry.
unfoldable pub checked_scopes : Text → List Text → Result (List Text)
checked_scopes name scopes =
    let normalized = normalize_scopes scopes in
    let invalid = keep (λ sc. not (contains valid_scopes sc)) normalized in
    if is_empty (trim_space name)
    then err (validation (text "name is required."))
    else elim normalized [
      | [] ↦ err (validation (text "at least one scope is required."))
      | s ∷ ss ↦ elim invalid [
        | [] ↦ ok (s ∷ ss)
        | i ∷ is ↦ err (validation (text "unknown scope(s): " ++ (join_texts (i ∷ is) ++ text ".")))
      ]
    ]

-- `prefix := secret; if len(prefix) > 9 { prefix = secret[:9] }`
abbrev pub prefix_of : Text → Text
prefix_of secret = if ltb 9 (length secret) then take 9 secret else secret

module _ (sha256 : Text → Text) where
  unfoldable pub create :
      Context → Uuid → Text → Option Text → List Text → Exec Backend (StoredAccessKey × Text)
  create ctx new_id name description scopes = do
    normalized ← lift (checked_scopes name scopes)
    raw ← on_random (read_full 32)
    let secret = secret_prefix ++ raw_url_encode raw
    entity ← on_store (
        insert_access_key new_id ctx.now (record {
          id = 0;
          user_id = ctx.caller.user_id;
          tenant_id = ctx.caller.tenant_id;
          name = name;
          description = description;
          key_hash = sha256 secret;
          key_prefix = prefix_of secret;
          scopes = normalized;
          enabled = true;
          created_at = 0;
          updated_at = none;
          last_used_at = none;
        }))
    emit ctx (emit_params event_credential_created outcome_success (text "access_key") entity.name)
    pure (to_stored_access_key entity, secret)

  -- The rest of Authenticate, with the row that was found. A failed touch is only logged.
  unfoldable pub authenticate_row :
      Context → Option AccessKey → Exec Backend (Option AccessKeyPrincipal)
  authenticate_row ctx none b = (ok none, b)
  authenticate_row ctx (some k) b = if not k.enabled then (ok none, b) else (
    ok (
        some (record {
          id = k.id;
          user_id = k.user_id;
          tenant_id = k.tenant_id;
          scopes = k.scopes;
          name = k.name;
          key_prefix = k.key_prefix;
        })),
    (on_store (touch_access_key_last_used ctx.now k.id) b).1,
  )

  unfoldable pub authenticate : Context → Text → Exec Backend (Option AccessKeyPrincipal)
  authenticate ctx secret = if is_empty secret then pure none else (do
    entity ← on_store (get_access_key_by_hash (sha256 secret))
    authenticate_row ctx entity)

unfoldable pub list : Context → Exec Backend (List StoredAccessKey)
list ctx = do
  rows ← on_store (list_access_keys ctx.caller.user_id)
  pure (map to_stored_access_key rows)

abbrev pub stored_or_none : Option AccessKey → Option StoredAccessKey
stored_or_none none = none
stored_or_none (some k) = some (to_stored_access_key k)

unfoldable pub set_enabled : Context → Uuid → Bool → Exec Backend (Option StoredAccessKey)
set_enabled ctx id enabled = do
  entity ← on_store (set_access_key_enabled ctx.now ctx.caller.user_id id enabled)
  pure (stored_or_none entity)

unfoldable pub delete : Context → Uuid → Exec Backend Bool
delete ctx id = on_store (delete_access_key ctx.caller.user_id id)

-- ===== src/Manifests/Resolver.antt =====
-- manifests/resolver.go: a user's OAuth providers, which are rows of the store.
use donkey_work_vault.Base.{
  Bool, not, ◌&&◌, ◌||◌, leb, ◌==◌, ℕ, List, [], ◌∷◌, all, Option, none, some, Text, text, text_lt,
  is_empty, if◌then◌else◌, Result, ok, err, plain, invalid_slug,
}
use donkey_work_vault.Base.Exec.{Exec, pure, lift, require, ◌>>=◌, ◌>>◌}
use donkey_work_vault.Base.Sort.{sort_slice}
use donkey_work_vault.Store.Types.{Uuid, ProviderManifest}
use donkey_work_vault.Store.Mem.{Mem}
use donkey_work_vault.Store.Mem.Manifests.{
  list_oauth_manifests, get_manifest_by_key, insert_manifest, update_manifest,
  delete_manifest_cascade,
}
use donkey_work_vault.Audit.Log.{Context}
use donkey_work_vault.Manifests.{Manifest, ManifestJson}

abbrev pub oauth_kind : Text
oauth_kind = text "oauth"

-- A byte of [a-zA-Z0-9_-].
abbrev pub is_slug_byte : ℕ → Bool
is_slug_byte c =
    (leb b'a' c && leb c b'z')
    || (leb b'A' c && leb c b'Z')
    || (leb b'0' c && leb c b'9')
    || (c == b'_')
    || (c == b'-')

-- `m.Key == "" || !slugRe.MatchString(m.Key)` is false
unfoldable pub is_slug : Text → Bool
is_slug key = not (is_empty key) && all is_slug_byte key

abbrev pub or_space : Text → Text
or_space delimiter = if is_empty delimiter then text " " else delimiter

-- What materialize writes over the document.
unfoldable pub stamped : ProviderManifest → Manifest → Manifest
stamped row m = record m {
  id = row.provider_id;
  parent_id = row.parent_id;
  key = row.key;
  scope_delimiter = or_space m.scope_delimiter;
}

abbrev pub or_given : Uuid → Uuid → Uuid
or_given stored given = if stored == 0 then given else stored

-- The stable ids: those of the row that was found, where it has them.
abbrev pub provider_id_of : Option ProviderManifest → Uuid → Uuid
provider_id_of none new_provider = new_provider
provider_id_of (some row) new_provider = or_given row.provider_id new_provider

abbrev pub parent_id_of : Option ProviderManifest → Uuid → Uuid
parent_id_of none parent = parent
parent_id_of (some row) parent = or_given row.parent_id parent

abbrev pub by_key : Manifest → Manifest → Bool
by_key a b = text_lt a.key b.key

module _ (json : ManifestJson) where
  abbrev pub materialized : ProviderManifest → Result Manifest → Result Manifest
  materialized row (err e) = err (plain (text "materialize manifest"))
  materialized row (ok m) = ok (stamped row m)

  unfoldable pub materialize : ProviderManifest → Result Manifest
  materialize row = materialized row (json.unmarshal row.document_json)

  abbrev pub collect : Result Manifest → Result (List Manifest) → Result (List Manifest)
  collect (err e) rest = err e
  collect (ok m) (err e) = err e
  collect (ok m) (ok ms) = ok (m ∷ ms)

  -- The loop of ListOAuth; materializing changes nothing, so that the first error is the result.
  unfoldable pub materialize_all : List ProviderManifest → Result (List Manifest)
  materialize_all [] = ok []
  materialize_all (row ∷ rows) = collect (materialize row) (materialize_all rows)

  unfoldable pub list_oauth : Context → Exec Mem (List Manifest)
  list_oauth ctx = do
    rows ← list_oauth_manifests ctx.caller.user_id
    out ← lift (materialize_all rows)
    pure (sort_slice by_key out)

  abbrev pub as_found : Result Manifest → Result (Option Manifest)
  as_found (ok m) = ok (some m)
  as_found (err e) = err e

  abbrev pub materialize_found : Option ProviderManifest → Result (Option Manifest)
  materialize_found none = ok none
  materialize_found (some row) = as_found (materialize row)

  unfoldable pub get_oauth : Text → Uuid → Exec Mem (Option Manifest)
  get_oauth key user_id = do
    row ← get_manifest_by_key user_id oauth_kind key
    lift (materialize_found row)

  -- The manifest as it is stored, with its two ids.
  abbrev pub identified : Manifest → Option ProviderManifest → Uuid → Manifest
  identified m row new_provider = record m {
    id = provider_id_of row new_provider;
    parent_id = parent_id_of row m.parent_id;
  }

  -- The insertion or the update at the end of UpsertOAuth.
  unfoldable pub write_row :
      Context → Uuid → Uuid → Manifest → Option ProviderManifest → Exec Mem Unit
  write_row ctx new_provider new_id m none = do
    inserted ← insert_manifest new_id ctx.now (record {
      id = 0;
      user_id = ctx.caller.user_id;
      tenant_id = ctx.caller.tenant_id;
      kind = oauth_kind;
      key = m.key;
      provider_id = provider_id_of none new_provider;
      parent_id = parent_id_of none m.parent_id;
      document_json = json.marshal (identified m none new_provider);
      created_at = 0;
      updated_at = none;
    })
    pure tt
  write_row ctx new_provider new_id m (some row) = update_manifest (record row {
    provider_id = provider_id_of (some row) new_provider;
    parent_id = parent_id_of (some row) m.parent_id;
    document_json = json.marshal (identified m (some row) new_provider);
    updated_at = some ctx.now;
  })

  unfoldable pub upsert_oauth : Context → Uuid → Uuid → Manifest → Exec Mem Unit
  upsert_oauth ctx new_provider new_id m = do
    require (is_slug m.key) (invalid_slug m.key)
    row ← get_manifest_by_key ctx.caller.user_id oauth_kind m.key
    write_row ctx new_provider new_id m row

abbrev pub provider_id_or_nil : Option ProviderManifest → Uuid
provider_id_or_nil none = 0
provider_id_or_nil (some row) = row.provider_id

unfoldable pub resolve_provider_id : Text → Uuid → Exec Mem Uuid
resolve_provider_id key user_id = do
  row ← get_manifest_by_key user_id oauth_kind key
  pure (provider_id_or_nil row)

unfoldable pub delete : Context → Text → Text → Exec Mem Bool
delete ctx kind key = delete_manifest_cascade ctx.caller.user_id kind key

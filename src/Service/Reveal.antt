-- ===== src/Service/Reveal.antt =====
-- service/apikey.go: what Create stores, GetByName reveals.
use mathlib.Core.Bool.{◌&&◌}
use donkey_work_vault.Base.{
  ℕ, ◌≡◌, refl, arith, Bool, true, false, ◌∷◌, Text, text, text_eq, text_eq_refl, find, Option,
  none, some, ok, is_empty, is_some, trim_space,
}
use donkey_work_vault.Base.Table.{put, values}
use donkey_work_vault.Crypto.Cipher.{Cipher, IsCipher}
use donkey_work_vault.Store.Types.{Uuid, ApiKey}
use donkey_work_vault.Store.Rows.{update_owned}
use donkey_work_vault.Store.Mem.{fail_lem}
use donkey_work_vault.Store.Mem.ApiKeys.{
  is_named, insert_api_key, update_api_key, get_api_key_by_name, touch_api_key_last_used,
}
use donkey_work_vault.Store.Tidy.{IsTidy, get_of_find}
use donkey_work_vault.Store.WellFormed.{IsWellFormed}
use donkey_work_vault.Audit.Log.{Context, Backend, emit, emit_params, enqueue, event_for}
use donkey_work_vault.Audit.Types.{event_credential_created, outcome_success}
use donkey_work_vault.Service.Usage.{
  CredentialKind, kind_opaque, kind_header_api_key, kind_http_basic, kind_username_password,
  kind_ssh, kind_connection_string, wire, credential_kind_from_wire, deref,
}
use donkey_work_vault.Service.ApiKeys.{
  StoredApiKey, ApiKeySecret, CreateApiKeyParams, to_stored_api_key, checked_username, starting_row,
  new_row, described, with_secret, saved, create, reveal, get_by_name,
}
use donkey_work_vault.Store.Search.{find-put, find-none, find-put_found, update_owned-put}

-- A kind is read back from its text.
pub credential_kind_from_wire-wire : (k : CredentialKind) → credential_kind_from_wire (wire k) ≡ k
unfolding credential_kind_from_wire text_eq
credential_kind_from_wire-wire kind_opaque = refl
credential_kind_from_wire-wire kind_header_api_key = refl
credential_kind_from_wire-wire kind_http_basic = refl
credential_kind_from_wire-wire kind_username_password = refl
credential_kind_from_wire-wire kind_ssh = refl
credential_kind_from_wire-wire kind_connection_string = refl

-- Create's row, with its secret encrypted.
abbrev pub sealed_row : CreateApiKeyParams → Option Text → Text → ApiKey → ApiKey
sealed_row p username blob row = record (described p username row) { fields_cipher = blob }

-- The check of the user name passes when a secret is given.
allowed : (u : Option Text) (z : Bool) → (is_some u && (false && z)) ≡ false
allowed none z = refl
allowed (some t) z = refl

-- A row of this name is replaced under its id, and a new one is inserted.
abbrev pub row_after :
    Context → Uuid → CreateApiKeyParams → Option Text → Text → Option ApiKey → ApiKey
row_after ctx new_id p username blob none =
    record (sealed_row p username blob (new_row ctx p.name)) { id = new_id; created_at = ctx.now }
row_after ctx new_id p username blob (some k) = sealed_row p username blob k

module _ (cipher : Cipher) where
  get_by_name_lem :
      (ctx : Context) (name : Text) (b : Backend) (k : ApiKey) (secret : Text)
      → b.store.fail_next ≡ none
      → find (is_named ctx.caller.user_id name) (values b.store.api_keys) ≡ some k
      → cipher.decrypt_to_string k.fields_cipher ≡ ok secret
      → (get_by_name cipher ctx name b).0
        ≡ ok (
            some (record {
              secret = secret;
              header = k.header_name;
              prefix = k.prefix;
              username = k.username;
              kind = credential_kind_from_wire k.kind;
              base_url = k.base_url;
              docs_url = k.docs_url;
              description = k.description;
            }))
  unfolding get_by_name reveal get_api_key_by_name touch_api_key_last_used emit
  get_by_name_lem ctx name b k secret h f d = rw (fail_lem b.store h, f, d, fail_lem b.store h) refl

  create_lem :
      (ctx : Context) (new_id : Uuid) (p : CreateApiKeyParams) (username : Option Text) (x : ℕ)
      (xs blob rest : Text) (b : Backend) (o : Option ApiKey)
      → is_empty (trim_space p.name) ≡ false
      → checked_username p.username ≡ ok username
      → deref p.secret ≡ x ∷ xs
      → cipher.encrypt_string (x ∷ xs) b.random ≡ (ok blob, rest)
      → b.store.fail_next ≡ none
      → find (is_named ctx.caller.user_id p.name) (values b.store.api_keys) ≡ o
      → IsTidy (λ (r : ApiKey). r.id) b.store.api_keys
      → (c : Backend) × (create cipher ctx new_id p b
          ≡ (ok (to_stored_api_key (row_after ctx new_id p username blob o)), c))
        × (c.store.fail_next ≡ none)
        × (find (is_named ctx.caller.user_id p.name) (values c.store.api_keys)
            ≡ some (row_after ctx new_id p username blob o))
  unfolding create get_api_key_by_name starting_row with_secret saved insert_api_key update_api_key
      emit described
  create_lem ctx new_id p username x xs blob rest b none n u s e h f w =
      let row = row_after ctx new_id p username blob none in
      (
        record {
          store = record b.store { api_keys = put new_id row b.store.api_keys };
          log =
              enqueue
                (event_for ctx
                  (emit_params event_credential_created outcome_success (text "api_key") p.name))
                b.log;
          random = rest;
        },
        rw (n, u, fail_lem b.store h, f, s, allowed username true, e, fail_lem b.store h) refl,
        h,
        find-put (is_named ctx.caller.user_id p.name) new_id row b.store.api_keys
            (ground (arith, text_eq_refl p.name))
            (find-none (is_named ctx.caller.user_id p.name) (values b.store.api_keys) f),
      )
  create_lem ctx new_id p username x xs blob rest b (some k) n u s e h f w =
      let (named, stored) =
        get_of_find (λ (r : ApiKey). r.id) (is_named ctx.caller.user_id p.name) k b.store.api_keys w
          f in
      let row = sealed_row p username blob k in
      (
        record {
          store = record b.store {
            api_keys = update_owned (λ (r : ApiKey). r.user_id) k.id row b.store.api_keys;
          };
          log = b.log;
          random = rest;
        },
        rw
            (
              n,
              u,
              fail_lem b.store h,
              f,
              s,
              allowed username (is_empty k.fields_cipher),
              e,
              fail_lem b.store h,
            )
            refl,
        h,
        rw (update_owned-put (λ (r : ApiKey). r.user_id) k.id k row b.store.api_keys stored refl) (
            find-put_found (is_named ctx.caller.user_id p.name) (λ (r : ApiKey). r.id) k row
              b.store.api_keys w f named),
      )

-- Create returns, and GetByName reveals the secret with what else was given.
abbrev pub Revealed :
    Cipher → Context → Context → Uuid → CreateApiKeyParams → Option Text → Text → Backend → Type 0
Revealed cipher ctx later new_id p username secret b =
    (stored : StoredApiKey) × (c : Backend) × (s : ApiKeySecret) × (create cipher ctx new_id p b
      ≡ (ok stored, c))
    × ((get_by_name cipher later p.name c).0 ≡ ok (some s))
    × (s.secret ≡ secret)
    × (s.username ≡ username)
    × (s.kind ≡ credential_kind_from_wire p.kind)
    × (s.description ≡ p.description)

-- What the row keeps of the parameters.
row_after-fields :
    (ctx : Context) (new_id : Uuid) (p : CreateApiKeyParams) (username : Option Text) (blob : Text)
    (o : Option ApiKey)
    → ((row_after ctx new_id p username blob o).fields_cipher ≡ blob)
      × ((row_after ctx new_id p username blob o).username ≡ username)
      × ((row_after ctx new_id p username blob o).kind ≡ wire (credential_kind_from_wire p.kind))
      × ((row_after ctx new_id p username blob o).description ≡ p.description)
unfolding described
row_after-fields ctx new_id p username blob none = (refl, refl, refl, refl)
row_after-fields ctx new_id p username blob (some k) = (refl, refl, refl, refl)

-- With a cipher that decrypts what it encrypts, on a well-formed store that does not fail: if the
-- name is not blank, the user name is accepted and the secret, which is not empty, is encrypted,
-- then Create returns, whether the name is new or not, and GetByName reveals that secret to the
-- same user under that name afterwards, with the user name, the kind and the description given.
pub create_then_reveal :
    (cipher : Cipher) (ctx later : Context) (new_id : Uuid) (p : CreateApiKeyParams)
    (username : Option Text) (x : ℕ) (xs blob rest : Text) (b : Backend)
    → IsCipher cipher
    → IsWellFormed b.store
    → b.store.fail_next ≡ none
    → later.caller.user_id ≡ ctx.caller.user_id
    → is_empty (trim_space p.name) ≡ false
    → checked_username p.username ≡ ok username
    → deref p.secret ≡ x ∷ xs
    → cipher.encrypt_string (x ∷ xs) b.random ≡ (ok blob, rest)
    → Revealed cipher ctx later new_id p username (x ∷ xs) b
create_then_reveal cipher ctx later new_id p username x xs blob rest b laws w h same n u s e =
    let o = find (is_named ctx.caller.user_id p.name) (values b.store.api_keys) in
    let row = row_after ctx new_id p username blob o in
    let (sealed, user, kind, description) = row_after-fields ctx new_id p username blob o in
    let (c, created, fine, found) =
      create_lem cipher ctx new_id p username x xs blob rest b o n u s e h refl w.api_keys in
    (
      to_stored_api_key row,
      c,
      record {
        secret = x ∷ xs;
        header = row.header_name;
        prefix = row.prefix;
        username = row.username;
        kind = credential_kind_from_wire row.kind;
        base_url = row.base_url;
        docs_url = row.docs_url;
        description = row.description;
      },
      created,
      get_by_name_lem cipher later p.name c row (x ∷ xs) fine (rw same found)
          (rw sealed (laws.decrypt-encrypt_string (x ∷ xs) b.random blob rest e)),
      refl,
      user,
      rw kind (credential_kind_from_wire-wire (credential_kind_from_wire p.kind)),
      description,
    )

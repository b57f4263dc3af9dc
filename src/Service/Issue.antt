-- ===== src/Service/Issue.antt =====
-- service/accesskey.go: a key that Create returns is one that Authenticate accepts.
use donkey_work_vault.Base.{
  ◌≡◌, ◌≤◌, refl, arith, true, false, List, ◌++◌, take, drop, length, ltb, Text, text, text_eq,
  text_eq_refl, Option, none, some, ok, All,
}
use donkey_work_vault.Base.Base64.{raw_url_encode}
use donkey_work_vault.Base.Table.{put, values}
use donkey_work_vault.Crypto.{read_full}
use donkey_work_vault.Store.Types.{Uuid, AccessKey}
use donkey_work_vault.Store.Mem.{fail_lem}
use donkey_work_vault.Store.Mem.AccessKeys.{insert_access_key}
use donkey_work_vault.Audit.Types.{event_credential_created, outcome_success}
use donkey_work_vault.Audit.Log.{Context, Backend, emit, emit_params, enqueue, event_for}
use donkey_work_vault.Service.AccessKeys.{
  AccessKeyPrincipal, StoredAccessKey, to_stored_access_key, secret_prefix, prefix_of,
  checked_scopes, create, authenticate, authenticate_row,
}
use donkey_work_vault.Store.Search.{find-put}
use donkey_work_vault.Service.Authentication.{row_of, authenticate_lem}

-- The secret that is made of the next random bytes.
abbrev pub next_secret : Backend → Text
next_secret b = secret_prefix ++ raw_url_encode (take 32 b.random)

module _ (sha256 : Text → Text) (ctx : Context) (id : Uuid) (name : Text)
    (description : Option Text) (scopes : List Text) (b : Backend) where
  abbrev pub issued_row : AccessKey
  issued_row = record {
    id = id;
    user_id = ctx.caller.user_id;
    tenant_id = ctx.caller.tenant_id;
    name = name;
    description = description;
    key_hash = sha256 (next_secret b);
    key_prefix = prefix_of (next_secret b);
    scopes = scopes;
    enabled = true;
    created_at = ctx.now;
    updated_at = none;
    last_used_at = none;
  }

  abbrev pub issued : Backend
  issued = record {
    store = record b.store { access_keys = put id issued_row b.store.access_keys };
    log =
        enqueue
          (event_for ctx
            (emit_params event_credential_created outcome_success (text "access_key") name))
          b.log;
    random = drop 32 b.random;
  }

  create_lem :
      (asked : List Text)
      → checked_scopes name asked ≡ ok scopes
      → 32 ≤ length b.random
      → b.store.fail_next ≡ none
      → create sha256 ctx id name description asked b
        ≡ (ok (to_stored_access_key issued_row, next_secret b), issued)
  unfolding create read_full insert_access_key emit
  create_lem asked c r h =
      let enough : ltb (length b.random) 32 ≡ false = ground (arith, r) in
      rw (c, enough, fail_lem b.store h) refl

  -- The hash of the new secret is that of no stored key.
  abbrev pub NoCollision : Type 0
  NoCollision =
      All (λ (k : AccessKey). text_eq k.key_hash (sha256 (next_secret b)) ≡ false)
        (values b.store.access_keys)

  row_of-issued : NoCollision → row_of sha256 (next_secret b) issued.store ≡ some issued_row
  row_of-issued n =
      find-put (λ (k : AccessKey). text_eq k.key_hash (sha256 (next_secret b))) id issued_row
        b.store.access_keys (text_eq_refl (sha256 (next_secret b))) n

-- If the checks of Create accept the name and the scopes, 32 random bytes are to be had, the store
-- does not fail, and no stored key has the hash of the new secret, then Create returns a secret,
-- and Authenticate accepts that secret for the caller, with the scopes that the checks returned.
pub create_then_authenticate :
    (sha256 : Text → Text) (ctx later : Context) (id : Uuid) (name : Text)
    (description : Option Text) (asked scopes : List Text) (b : Backend)
    → checked_scopes name asked ≡ ok scopes
    → 32 ≤ length b.random
    → b.store.fail_next ≡ none
    → NoCollision sha256 ctx id name description scopes b
    → (stored : StoredAccessKey) × (secret : Text) × (c : Backend) × (p : AccessKeyPrincipal)
      × (create sha256 ctx id name description asked b ≡ (ok (stored, secret), c))
      × ((authenticate sha256 later secret c).0 ≡ ok (some p))
      × (p.id ≡ stored.id)
      × (p.user_id ≡ ctx.caller.user_id)
      × (p.tenant_id ≡ ctx.caller.tenant_id)
      × (p.scopes ≡ scopes)
unfolding authenticate_row
create_then_authenticate sha256 ctx later id name description asked scopes b c r h n =
    let row = issued_row sha256 ctx id name description scopes b in
    (
      to_stored_access_key row,
      next_secret b,
      issued sha256 ctx id name description scopes b,
      record {
        id = row.id;
        user_id = row.user_id;
        tenant_id = row.tenant_id;
        scopes = row.scopes;
        name = row.name;
        key_prefix = row.key_prefix;
      },
      create_lem sha256 ctx id name description scopes b asked c r h,
      rw
          (
            authenticate_lem sha256 later (next_secret b)
                (issued sha256 ctx id name description scopes b) refl h,
            row_of-issued sha256 ctx id name description scopes b n,
          )
          refl,
      refl,
      refl,
      refl,
      refl,
    )

-- ===== src/Service/Authentication.antt =====
-- service/accesskey.go: what Create stores and what Authenticate accepts.
use donkey_work_vault.Base.{
  ◌≡◌, refl, inl, inr, Bool-cases, Option-cases, true, false, Text, text_eq, text_eq_iff, find,
  Option, none, some, ok, Error, ◌≢◌, is_empty,
}
use donkey_work_vault.Base.Table.{get, values}
use donkey_work_vault.Store.Types.{AccessKey}
use donkey_work_vault.Store.Mem.{Mem, fail}
use donkey_work_vault.Store.Mem.AccessKeys.{get_access_key_by_hash}
use donkey_work_vault.Store.Tidy.{get_of_find}
use donkey_work_vault.Store.WellFormed.{IsWellFormed}
use donkey_work_vault.Audit.Log.{Context, Backend}
use donkey_work_vault.Service.AccessKeys.{AccessKeyPrincipal, authenticate, authenticate_row}

-- The row is stored, enabled and has this hash, and the principal is its owner with its scopes.
pub record Speaks (sha256 : Text → Text) (secret : Text) (m : Mem) (p : AccessKeyPrincipal)
    : Type 0 where
  pub row : AccessKey
  pub stored : get row.id m.access_keys ≡ some row
  pub enabled : row.enabled ≡ true
  pub hashed : row.key_hash ≡ sha256 secret
  pub user_id : p.user_id ≡ row.user_id
  pub tenant_id : p.tenant_id ≡ row.tenant_id
  pub scopes : p.scopes ≡ row.scopes

module _ (sha256 : Text → Text) where
  -- What the store finds.
  abbrev pub row_of : Text → Mem → Option AccessKey
  row_of secret m =
      find (λ (k : AccessKey). text_eq k.key_hash (sha256 secret)) (values m.access_keys)

  pub authenticate_lem :
      (ctx : Context) (secret : Text) (b : Backend)
      → is_empty secret ≡ false
      → b.store.fail_next ≡ none
      → authenticate sha256 ctx secret b ≡ authenticate_row sha256 ctx (row_of secret b.store) b
  unfolding authenticate get_access_key_by_hash fail
  authenticate_lem ctx secret b n h = rw (n, h) refl

  authenticate-fails :
      (ctx : Context) (secret : Text) (b : Backend) (e : Error) (p : AccessKeyPrincipal)
      → is_empty secret ≡ false
      → b.store.fail_next ≡ some e
      → (authenticate sha256 ctx secret b).0 ≢ ok (some p)
  unfolding authenticate get_access_key_by_hash fail
  authenticate-fails ctx secret b e p n h k = cc (rw (n, h) at k)

  authenticate-blank :
      (ctx : Context) (secret : Text) (b : Backend) (p : AccessKeyPrincipal)
      → is_empty secret ≡ true
      → (authenticate sha256 ctx secret b).0 ≢ ok (some p)
  unfolding authenticate
  authenticate-blank ctx secret b p n k = cc (rw n at k)

  authenticate_row-Speaks :
      (ctx : Context) (secret : Text) (b : Backend) (o : Option AccessKey) (p : AccessKeyPrincipal)
      → IsWellFormed b.store
      → row_of secret b.store ≡ o
      → (authenticate_row sha256 ctx o b).0 ≡ ok (some p)
      → Speaks sha256 secret b.store p
  unfolding authenticate_row
  authenticate_row-Speaks ctx secret b none p w e h = absurd (cc h)
  authenticate_row-Speaks ctx secret b (some k) p w e h = elim (Bool-cases k.enabled) [
    | inl on ↦
        let (hashed, stored) =
          get_of_find (λ (r : AccessKey). r.id)
            (λ (r : AccessKey). text_eq r.key_hash (sha256 secret)) k b.store.access_keys
            w.access_keys e in
        record {
          row = k;
          stored = stored;
          enabled = on;
          hashed = (text_eq_iff k.key_hash (sha256 secret)).0 hashed;
          user_id = cc (rw on at h);
          tenant_id = cc (rw on at h);
          scopes = cc (rw on at h);
        }
    | inr off ↦ absurd (cc (rw off at h))
  ]

  -- On a well-formed store, Authenticate returns a principal only for a secret that is not empty
  -- and whose hash is that of an enabled key in the store, and the principal is that key's owner,
  -- with that key's scopes.
  pub authenticate-Speaks :
      (ctx : Context) (secret : Text) (b : Backend) (p : AccessKeyPrincipal)
      → IsWellFormed b.store
      → (authenticate sha256 ctx secret b).0 ≡ ok (some p)
      → (is_empty secret ≡ false) × Speaks sha256 secret b.store p
  authenticate-Speaks ctx secret b p w h = elim (Bool-cases (is_empty secret)) [
    | inl blank ↦ absurd (authenticate-blank ctx secret b p blank h)
    | inr given ↦ elim (Option-cases b.store.fail_next) [
      | inl fine ↦ (
        given,
        authenticate_row-Speaks ctx secret b (row_of secret b.store) p w refl
            (rw (authenticate_lem ctx secret b given fine) at h),
      )
      | inr (e, fails) ↦ absurd (authenticate-fails ctx secret b e p given fails h)
    ]
  ]

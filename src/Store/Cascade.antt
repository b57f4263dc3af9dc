-- ===== src/Store/Cascade.antt =====
-- memstore.go: what DeleteManifestCascade deletes.
use donkey_work_vault.Base.{
  ℕ, ◌≡◌, refl, Bool, true, false, Option, none, some, Text, text, text_eq, find, ok, Result, ◌==◌,
  if◌then◌else◌,
}
use donkey_work_vault.Base.Table.{get, values, unless, get-remove, get-drop_where}
use donkey_work_vault.Store.Types.{ProviderManifest}
use donkey_work_vault.Store.Mem.{Mem, fail}
use donkey_work_vault.Store.Mem.Manifests.{
  is_keyed, config_of, token_of, cascade, delete_manifest_cascade,
}
use donkey_work_vault.Store.Tidy.{get_of_find}
use donkey_work_vault.Store.WellFormed.{IsWellFormed}

-- The store after the manifest `r` was deleted: the manifest is gone, and with an OAuth manifest
-- all of the user's configs and tokens of its provider. Nothing else has changed.
pub record IsCascade (u : ℕ) (kind key : Text) (m : Mem) (r : ProviderManifest) (n : Mem)
    : Type 0 where
  pub keyed : is_keyed u kind key r ≡ true
  pub found : get r.id m.manifests ≡ some r
  pub manifests : (j : ℕ) → get j n.manifests ≡ (if r.id == j then none else get j m.manifests)
  pub configs :
      (j : ℕ)
      → get j n.configs
        ≡ unless (config_of (text_eq kind (text "oauth")) r.provider_id u) (get j m.configs)
  pub tokens :
      (j : ℕ)
      → get j n.tokens
        ≡ unless (token_of (text_eq kind (text "oauth")) r.provider_id u) (get j m.tokens)
  pub others :
      (n.access_keys ≡ m.access_keys)
      × (n.api_keys ≡ m.api_keys)
      × (n.states ≡ m.states)
      × (n.audit ≡ m.audit)

abbrev pub Cascaded : ℕ → Text → Text → Mem → Option ProviderManifest → Result Bool × Mem → Type 0
Cascaded u kind key m none after = after ≡ (ok false, m)
Cascaded u kind key m (some r) after = (after.0 ≡ ok true) × IsCascade u kind key m r after.1

delete_manifest_cascade_lem :
    (u : ℕ) (kind key : Text) (m : Mem)
    → m.fail_next ≡ none
    → delete_manifest_cascade u kind key m
      ≡ cascade u kind (find (is_keyed u kind key) (values m.manifests)) m
unfolding delete_manifest_cascade fail
delete_manifest_cascade_lem u kind key m h = rw h refl

-- On a well-formed store that does not fail, DeleteManifestCascade deletes the manifest of the user
-- with this kind and key, and of an OAuth provider the user's configs and tokens with it, and
-- reports true. Without such a manifest it changes nothing and reports false.
pub delete_manifest_cascade-Cascaded :
    (u : ℕ) (kind key : Text) (m : Mem)
    → IsWellFormed m
    → m.fail_next ≡ none
    → Cascaded u kind key m
        (find (is_keyed u kind key) (values m.manifests))
        (delete_manifest_cascade u kind key m)
unfolding cascade
delete_manifest_cascade-Cascaded u kind key m w h =
    rw (delete_manifest_cascade_lem u kind key m h)
      (go (find (is_keyed u kind key) (values m.manifests)) refl)
  where
    go :
        (o : Option ProviderManifest)
        → find (is_keyed u kind key) (values m.manifests) ≡ o
        → Cascaded u kind key m o (cascade u kind o m)
    go none e = refl
    go (some r) e =
        let (keyed, found) = get_of_find _ (is_keyed u kind key) r m.manifests w.manifests e in
        (
          refl,
          record {
            keyed = keyed;
            found = found;
            manifests = λ j. get-remove r.id j m.manifests;
            configs = λ j. get-drop_where _ j m.configs w.configs.distinct;
            tokens = λ j. get-drop_where _ j m.tokens w.tokens.distinct;
            others = (refl, refl, refl, refl);
          },
        )

-- ===== src/Manifests/Upserted.antt =====
-- manifests/resolver.go: a provider that is saved is found again, under a stable id.
use donkey_work_vault.Base.{
  ◌≡◌, ◌≢◌, ◌∙◌, refl, sym, text_eq_iff, arith, Bool, true, find, Option, none, some, text_eq_refl,
  ok,
}
use donkey_work_vault.Base.Table.{put, values}
use donkey_work_vault.Store.Types.{Uuid, ProviderManifest}
use donkey_work_vault.Store.Mem.{Mem, fail_lem}
use donkey_work_vault.Store.Mem.Manifests.{
  is_keyed, get_manifest_by_key, insert_manifest, update_manifest,
}
use donkey_work_vault.Store.Search.{find-put, find-none, find-put_found, update_owned-put}
use donkey_work_vault.Store.Tidy.{IsTidy, get_of_find}
use donkey_work_vault.Store.WellFormed.{IsWellFormed}
use donkey_work_vault.Audit.Log.{Context}
use donkey_work_vault.Manifests.{Manifest, ManifestJson}
use donkey_work_vault.Manifests.Resolver.{
  oauth_kind, is_slug, or_space, stamped, provider_id_of, parent_id_of, materialize, get_oauth,
  identified, write_row, upsert_oauth, resolve_provider_id, provider_id_or_nil,
}

module _ (json : ManifestJson) (ctx : Context) (new_provider new_id : Uuid) (m : Manifest) where
  -- The row that UpsertOAuth leaves.
  abbrev pub row_after : Option ProviderManifest → ProviderManifest
  row_after none = record {
    id = new_id;
    user_id = ctx.caller.user_id;
    tenant_id = ctx.caller.tenant_id;
    kind = oauth_kind;
    key = m.key;
    provider_id = new_provider;
    parent_id = m.parent_id;
    document_json = json.marshal (identified json m none new_provider);
    created_at = ctx.now;
    updated_at = none;
  }
  row_after (some row) = record row {
    provider_id = provider_id_of (some row) new_provider;
    parent_id = parent_id_of (some row) m.parent_id;
    document_json = json.marshal (identified json m (some row) new_provider);
    updated_at = some ctx.now;
  }

  abbrev pub upserted : Option ProviderManifest → Mem → Mem
  upserted o s = record s { manifests = put (row_after o).id (row_after o) s.manifests }

  -- The manifest that is read back.
  abbrev pub saved : Option ProviderManifest → Manifest
  saved o = record m {
    id = provider_id_of o new_provider;
    parent_id = parent_id_of o m.parent_id;
    scope_delimiter = or_space m.scope_delimiter;
  }

  abbrev keyed : ProviderManifest → Bool
  keyed = is_keyed ctx.caller.user_id oauth_kind m.key

  upsert_oauth_lem :
      (o : Option ProviderManifest) (s : Mem)
      → is_slug m.key ≡ true
      → s.fail_next ≡ none
      → IsTidy (λ (r : ProviderManifest). r.id) s.manifests
      → find keyed (values s.manifests) ≡ o
      → (upsert_oauth json ctx new_provider new_id m s ≡ (ok tt, upserted o s))
        × (find keyed (values (upserted o s).manifests) ≡ some (row_after o))
  unfolding upsert_oauth get_manifest_by_key write_row insert_manifest update_manifest
  upsert_oauth_lem none s slug h w f = (
    rw (slug, fail_lem s h, f, fail_lem s h) refl,
    find-put keyed new_id (row_after none) s.manifests
        (ground (arith, text_eq_refl m.key, text_eq_refl oauth_kind))
        (find-none keyed (values s.manifests) f),
  )
  upsert_oauth_lem (some r) s slug h w f =
      let (named, stored) = get_of_find (λ (r : ProviderManifest). r.id) keyed r s.manifests w f in
      (
        rw
            (
              slug,
              fail_lem s h,
              f,
              fail_lem s h,
              update_owned-put (λ (r : ProviderManifest). r.user_id) r.id r (row_after (some r))
                  s.manifests stored refl,
            )
            refl,
        find-put_found keyed (λ (r : ProviderManifest). r.id) r (row_after (some r)) s.manifests w f
            named,
      )

  key_after :
      (o : Option ProviderManifest) (s : Mem)
      → find keyed (values s.manifests) ≡ o
      → IsTidy (λ (r : ProviderManifest). r.id) s.manifests
      → (row_after o).key ≡ m.key
  key_after none s f w = refl
  key_after (some r) s f w =
      let named = (get_of_find (λ (r : ProviderManifest). r.id) keyed r s.manifests w f).0 in
      ground (arith, named, text_eq_iff r.key m.key)

  -- What is read back of the row.
  materialize_after :
      (o : Option ProviderManifest)
      → (row_after o).key ≡ m.key
      → json.unmarshal (json.marshal (identified json m o new_provider))
        ≡ ok (identified json m o new_provider)
      → materialize json (row_after o) ≡ ok (saved o)
  unfolding materialize stamped
  materialize_after none k e = rw e refl
  materialize_after (some r) k e = rw (e, k) refl

  provider_id_after : (o : Option ProviderManifest) → (row_after o).provider_id ≡ (saved o).id
  provider_id_after none = refl
  provider_id_after (some r) = refl

  resolve_lem :
      (o : Option ProviderManifest) (s : Mem)
      → s.fail_next ≡ none
      → find keyed (values s.manifests) ≡ o
      → resolve_provider_id m.key ctx.caller.user_id s ≡ (ok (provider_id_or_nil o), s)
  unfolding resolve_provider_id get_manifest_by_key
  resolve_lem o s h f = rw (fail_lem s h, f) refl

  -- An id that is not nil is kept.
  id_kept :
      (o : Option ProviderManifest) (p : Uuid) → provider_id_or_nil o ≡ p → p ≢ 0 → (saved o).id ≡ p
  id_kept none p e n = absurd (n (omega arith))
  id_kept (some r) p e n = ground (arith, e, n)

  -- On a well-formed store that does not fail, with JSON that reads the manifest back: UpsertOAuth of a
  -- manifest whose key is a slug returns, and afterwards GetOAuth gives the user that manifest under its
  -- key, with its ids and the delimiter filled in. If the key had a provider id before which is not
  -- nil, it resolves to the same id afterwards.
  pub upsert_then_get :
      (s : Mem)
      → IsWellFormed s
      → s.fail_next ≡ none
      → is_slug m.key ≡ true
      → json.unmarshal
          (json.marshal (identified json m (find keyed (values s.manifests)) new_provider))
        ≡ ok (identified json m (find keyed (values s.manifests)) new_provider)
      → (t : Mem) × (upsert_oauth json ctx new_provider new_id m s ≡ (ok tt, t))
        × (get_oauth json m.key ctx.caller.user_id t
            ≡ (ok (some (saved (find keyed (values s.manifests)))), t))
        × ((p : Uuid)
            → resolve_provider_id m.key ctx.caller.user_id s ≡ (ok p, s)
            → p ≢ 0
            → resolve_provider_id m.key ctx.caller.user_id t ≡ (ok p, t))
  unfolding get_oauth get_manifest_by_key
  upsert_then_get s w h slug back =
      let o = find keyed (values s.manifests) in
      let (done, found) = upsert_oauth_lem o s slug h w.manifests refl in
      let t = upserted o s in
      (
        t,
        done,
        rw (fail_lem t h, found, materialize_after o (key_after o s refl w.manifests) back) refl,
        (λ p e n.
            let before : provider_id_or_nil o ≡ p =
              ground (arith, sym (resolve_lem o s h refl) ∙ e) in
            resolve_lem (some (row_after o)) t h found
            ∙ rw (provider_id_after o, id_kept o p before n) refl),
      )

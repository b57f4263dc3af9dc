-- ===== src/Manifests/Tests.antt =====
-- The theorems about the manifests at concrete inputs, with a stand-in for JSON and YAML.
use donkey_work_vault.Base.{
  ◌≡◌, ◌≢◌, refl, true, false, List, [], ◌∷◌, ◌++◌, none, some, Text, text, text_eq, find, Result,
  ok, err, plain, All, has_suffix, has_prefix, to_lower, trim_space,
}
use donkey_work_vault.Base.Table.{get, put, values}
use donkey_work_vault.Base.Cut.{trim_right, drop_left, fields_from}
use donkey_work_vault.Store.Types.{Uuid}
use donkey_work_vault.Store.Mem.{Mem}
use donkey_work_vault.Store.Mem.Manifests.{is_keyed}
use donkey_work_vault.Manifests.{Manifest}
use donkey_work_vault.Manifests.Resolver.{
  oauth_kind, is_slug, get_oauth, upsert_oauth, resolve_provider_id,
}
use donkey_work_vault.Manifests.Loader.{
  Entry, Loader, load, load_from_fs, visit, added, put_key, all_templates,
}
use donkey_work_vault.Manifests.Discovery.{key_from_host, normalize_host}
use donkey_work_vault.Manifests.Upserted.{saved, upsert_then_get}
use donkey_work_vault.Manifests.Catalog.{IsTemplate, load_from_fs-IsTemplate}
use donkey_work_vault.Manifests.Samples.{ctx, github, json, store, store-IsWellFormed}

upsert_then_get_example :
    (t : Mem) × (upsert_oauth json ctx 20 21 github store ≡ (ok tt, t))
    × (get_oauth json (text "github") 7 t ≡ (
      ok (
          some (
            saved json ctx 20 21 github
              (find (is_keyed 7 oauth_kind (text "github")) (values store.manifests)))),
      t,
    ))
    × ((p : Uuid)
        → resolve_provider_id (text "github") 7 store ≡ (ok p, store)
        → p ≢ 0
        → resolve_provider_id (text "github") 7 t ≡ (ok p, t))
unfolding is_slug values text_eq
upsert_then_get_example =
    upsert_then_get json ctx 20 21 github store store-IsWellFormed refl refl refl

-- A file holds the id of its template, and nothing else.
abbrev yaml : Text → Result Manifest
yaml [] = err (plain (text "empty"))
yaml (c ∷ s) = ok (record github { id = c; key = text "k" ++ s; scope_delimiter = [] })

abbrev files : List Entry
files =
    record { path = text "oauth"; failure = none; is_dir = true; raw = [] }
    ∷ record { path = text "oauth/a.yaml"; failure = none; is_dir = false; raw = text "a" }
    ∷ record { path = text "oauth/b.yaml"; failure = none; is_dir = false; raw = text "bx" }
    ∷ record { path = text "oauth/README"; failure = none; is_dir = false; raw = text "a" }
    ∷ []

abbrev loaded : Loader
loaded = record {
  by_keys =
      record github { id = b'a'; key = text "k"; scope_delimiter = text " " }
      ∷ record github { id = b'b'; key = text "kx"; scope_delimiter = text " " }
      ∷ [];
  by_id =
      (b'a', record github { id = b'a'; key = text "k"; scope_delimiter = text " " })
      ∷ (b'b', record github { id = b'b'; key = text "kx"; scope_delimiter = text " " })
      ∷ [];
}

files_load : load_from_fs yaml files ≡ ok loaded
unfolding load_from_fs load visit added put_key put get has_suffix has_prefix text_eq
files_load = refl

load_from_fs-IsTemplate_example : All (IsTemplate loaded.by_id) (all_templates loaded)
load_from_fs-IsTemplate_example = load_from_fs-IsTemplate yaml files loaded files_load

issuer_key : key_from_host (text "WWW.accounts.Google.com.") ≡ text "google"
unfolding key_from_host normalize_host trim_right drop_left fields_from has_prefix to_lower
    trim_space
issuer_key = refl

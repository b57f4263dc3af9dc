-- ===== src/Manifests/Loader.antt =====
-- manifests/manifest.go: the templates that the server carries, read and checked at the start.
use donkey_work_vault.Base.{
  Bool, not, ◌||◌, ◌==◌, List, [], ◌∷◌, Option, none, some, is_some, Text, text, text_eq, is_empty,
  has_suffix, if◌then◌else◌, Result, ok, err, Error, plain,
}
use donkey_work_vault.Base.Table.{Table, get, put}
use donkey_work_vault.Base.Sort.{sort_slice}
use donkey_work_vault.Manifests.{Manifest}
use donkey_work_vault.Manifests.Resolver.{or_space, by_key}

-- A step of fs.WalkDir, with what fs.ReadFile gives there.
pub record Entry : Type 0 where
  pub path : Text
  pub failure : Option Error
  pub is_dir : Bool
  pub raw : Text

-- The map by key is the list of its values, the one that was added first in front.
pub record Loader : Type 0 where
  pub by_keys : List Manifest
  pub by_id : Table Manifest

abbrev pub no_templates : Loader
no_templates = record { by_keys = []; by_id = [] }

-- byKey[m.Key] = m
unfoldable pub put_key : Manifest → List Manifest → List Manifest
put_key m [] = m ∷ []
put_key m (n ∷ ns) = let rest = put_key m ns in if text_eq n.key m.key then m ∷ ns else n ∷ rest

-- The checks of a template, and the two maps with it.
unfoldable pub added : Manifest → Loader → Result Loader
added m l =
    if is_empty m.key || is_empty m.token_endpoint
    then err (plain (text "manifest missing key/token_endpoint"))
    else if m.id == 0
    then err (plain (text "manifest missing a stable 'id' GUID"))
    else if is_some (get m.id l.by_id)
    then err (plain (text "manifest reuses id"))
    else (let kept = record m { scope_delimiter = or_space m.scope_delimiter } in
        ok (record { by_keys = put_key kept l.by_keys; by_id = put m.id kept l.by_id }))

module _ (yaml : Text → Result Manifest) where
  abbrev pub parsed : Result Manifest → Loader → Result Loader
  parsed (err e) l = err (plain (text "manifest"))
  parsed (ok m) l = added m l

  abbrev pub returned : Option Error → Loader → Result Loader
  returned none l = ok l
  returned (some e) l = err e

  -- The function that WalkDir calls.
  unfoldable pub visit : Entry → Loader → Result Loader
  visit e l =
      if is_some e.failure || e.is_dir || not (has_suffix e.path (text ".yaml"))
      then returned e.failure l
      else parsed (yaml e.raw) l

  abbrev pub go_on : (Loader → Result Loader) → Result Loader → Result Loader
  go_on walk (err e) = err e
  go_on walk (ok l) = walk l

  unfoldable pub load : List Entry → Loader → Result Loader
  load [] l = ok l
  load (e ∷ es) l = go_on (load es) (visit e l)

  unfoldable pub load_from_fs : List Entry → Result Loader
  load_from_fs entries = load entries no_templates

unfoldable pub all_templates : Loader → List Manifest
all_templates l = sort_slice by_key l.by_keys

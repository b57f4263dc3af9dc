-- ===== src/Manifests/Catalog.antt =====
-- manifests/manifest.go: what the checks of the loader make sure of.
use mathlib.Core.Bool.{◌||◌}
use donkey_work_vault.Base.{
  ◌≡◌, ◌≢◌, refl, arith, Bool-cases, Option-cases, inl, inr, false, List, [], ◌∷◌, Option, none,
  some, is_some, is_empty, All, Text, text, text_eq, Result, ok, err, Result-cases, ◌==◌, not,
  has_suffix, Error,
}
use donkey_work_vault.Base.Sort.{sort_slice-All}
use donkey_work_vault.Base.Table.{Table, get, put, get-put}
use donkey_work_vault.Manifests.{Manifest}
use donkey_work_vault.Manifests.Resolver.{or_space, by_key}
use donkey_work_vault.Manifests.Loader.{
  Entry, Loader, no_templates, put_key, added, parsed, returned, visit, load, load_from_fs,
  all_templates,
}

-- A template with all that the code relies on, and the only one with its id.
pub record IsTemplate (by_id : Table Manifest) (m : Manifest) : Type 0 where
  pub keyed : is_empty m.key ≡ false
  pub reachable : is_empty m.token_endpoint ≡ false
  pub identified : m.id ≢ 0
  pub delimited : is_empty m.scope_delimiter ≡ false
  pub only : get m.id by_id ≡ some m

abbrev IsChecked : Loader → Type 0
IsChecked l = All (IsTemplate l.by_id) l.by_keys

-- A template stays one when another id is added.
IsTemplate-put :
    (t : Table Manifest) (m n : Manifest)
    → get m.id t ≡ none
    → IsTemplate t n
    → IsTemplate (put m.id m t) n
IsTemplate-put t m n e h = record {
  keyed = h.keyed;
  reachable = h.reachable;
  identified = h.identified;
  delimited = h.delimited;
  only = ground (arith, get-put m.id n.id m t, h.only, e);
}

All-put :
    (t : Table Manifest) (m : Manifest) (ns : List Manifest)
    → get m.id t ≡ none
    → All (IsTemplate t) ns
    → All (IsTemplate (put m.id m t)) ns
All-put t m [] e h = tt
All-put t m (n ∷ ns) e h = (IsTemplate-put t m n e h.0, All-put t m ns e h.1)

put_key-All :
    (t : Table Manifest) (m : Manifest) (ns : List Manifest)
    → IsTemplate t m
    → All (IsTemplate t) ns
    → All (IsTemplate t) (put_key m ns)
unfolding put_key
put_key-All t m [] h k = (h, tt)
put_key-All t m (n ∷ ns) h k = elim (Bool-cases (text_eq n.key m.key)) [
  | inl same ↦ rw same (h, k.1)
  | inr other ↦ rw other (k.0, put_key-All t m ns h k.1)
]

or_space-full : (d : Text) → is_empty (or_space d) ≡ false
or_space-full [] = refl
or_space-full (c ∷ d) = refl

-- The template as it is kept.
abbrev kept : Manifest → Manifest
kept m = record m { scope_delimiter = or_space m.scope_delimiter }

-- What the checks let through.
record Passed (m : Manifest) (l k : Loader) : Type 0 where
  keyed : is_empty m.key ≡ false
  reachable : is_empty m.token_endpoint ≡ false
  identified : m.id ≢ 0
  new : get m.id l.by_id ≡ none
  result : k ≡ record { by_keys = put_key (kept m) l.by_keys; by_id = put m.id (kept m) l.by_id }

added-Passed : (m : Manifest) (l k : Loader) → added m l ≡ ok k → Passed m l k
unfolding added
added-Passed m l k e = elim (Bool-cases (is_empty m.key || is_empty m.token_endpoint)) [
  | inl bad ↦ cc (rw (bad, added) at e)
  | inr good ↦ elim (Bool-cases (m.id == 0)) [
    | inl nil ↦ cc (rw (good, nil, added) at e)
    | inr set ↦ elim (Option-cases (get m.id l.by_id)) [
      | inl new ↦ record {
        keyed = ground (arith, good);
        reachable = ground (arith, good);
        identified = ground (arith, set);
        new = new;
        result = cc (rw (good, set, new, added) at e);
      }
      | inr (n, used) ↦ cc (rw (good, set, used, added) at e)
    ]
  ]
]

added-IsChecked : (m : Manifest) (l k : Loader) → IsChecked l → added m l ≡ ok k → IsChecked k
added-IsChecked m l k h e =
    let p = added-Passed m l k e in
    let t = put m.id (kept m) l.by_id in
    rw p.result (
      put_key-All t (kept m) l.by_keys
        (record {
          keyed = p.keyed;
          reachable = p.reachable;
          identified = p.identified;
          delimited = or_space-full m.scope_delimiter;
          only = ground (arith, get-put m.id m.id (kept m) l.by_id);
        })
        (All-put l.by_id (kept m) l.by_keys p.new h))

module _ (yaml : Text → Result Manifest) where
  visit-IsChecked : (e : Entry) (l k : Loader) → IsChecked l → visit yaml e l ≡ ok k → IsChecked k
  unfolding visit
  visit-IsChecked e l k h q =
      elim (Bool-cases (is_some e.failure || e.is_dir || not (has_suffix e.path (text ".yaml")))) [
        | inl skipped ↦ returned_as e.failure (rw (skipped, visit) at q)
        | inr read ↦ parsed_as (yaml e.raw) (rw (read, visit) at q)
      ]
    where
      returned_as : (o : Option Error) → returned yaml o l ≡ ok k → IsChecked k
      returned_as none r = ground (arith, r, h)
      returned_as (some x) r = cc r

      parsed_as : (r : Result Manifest) → parsed yaml r l ≡ ok k → IsChecked k
      parsed_as (ok m) r = added-IsChecked m l k h r
      parsed_as (err x) r = cc r

  load-IsChecked :
      (es : List Entry) (l k : Loader) → IsChecked l → load yaml es l ≡ ok k → IsChecked k
  unfolding load
  load-IsChecked [] l k h q = ground (arith, q, h)
  load-IsChecked (e ∷ es) l k h q = elim (Result-cases (visit yaml e l)) [
    | inl (n, v) ↦ load-IsChecked es n k (visit-IsChecked e l n h v) (rw v at q)
    | inr (x, v) ↦ cc (rw v at q)
  ]

  -- If the loader accepts the files, whatever they are, each template that All returns has a key, a
  -- token endpoint, an id that is not nil and a scope delimiter, and is the one stored under its id, so
  -- that no two templates share an id.
  pub load_from_fs-IsTemplate :
      (entries : List Entry) (l : Loader)
      → load_from_fs yaml entries ≡ ok l
      → All (IsTemplate l.by_id) (all_templates l)
  unfolding load_from_fs all_templates
  load_from_fs-IsTemplate entries l e =
      sort_slice-All by_key (IsTemplate l.by_id) l.by_keys
        (load-IsChecked entries no_templates l tt e)

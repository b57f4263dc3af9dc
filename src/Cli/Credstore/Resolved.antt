-- ===== src/Cli/Credstore/Resolved.antt =====
-- cli/internal/credstore/credstore.go: a credential that was stored is the one that is resolved.
use mathlib.Core.Path.{subst}
use donkey_work_vault.Base.{
  ◌≡◌, refl, sym, ap, ◌∙◌, arith, inl, inr, Bool, Bool-cases, true, false, List, [], ◌∷◌, Option,
  none, some, Text, text_eq_iff, is_empty, Result, ok, err, validation, oauth_authorization,
  oauth_refresh, invalid_slug, plain, panic,
}
use donkey_work_vault.Config.{set_key}
use donkey_work_vault.Cli.Credstore.{
  StoreKind, store_keyring, store_file, Source, source_keyring, source_file, Credential, Lookup,
  found, not_found, unavailable, Keyring, CredentialJson, Hosts, entries, Machine, lookup,
  file_load, file_get, write_file_atomic, set_host, file_set, file_delete, stored_in_file,
  after_set, store_raw, store_credential, rewrite_file, delete_found, delete_host, parsed_from,
  parse_credential, from_keyring, resolve_credential,
}

-- JSON reads back what it writes, and an object begins with a brace.
pub record IsJson (json : CredentialJson) : Type 0 where
  pub braced : (c : Credential) → (raw : Text) × (json.marshal c ≡ b'{' ∷ raw)
  pub unmarshal-marshal : (c : Credential) → json.unmarshal (json.marshal c) ≡ ok c
  pub unmarshal-marshal_hosts :
      (hosts : List (Text × Text))
      → json.unmarshal_hosts (json.marshal_hosts hosts) ≡ ok (some hosts)

-- A keyring gives back a value that it has accepted, and is as before where it has not.
pub record IsKeyring {K : Type 0} (keyring : Keyring K) : Type 0 where
  pub get-set :
      (k : K) (host v : Text)
      → (keyring.set k host v).0 ≡ true
      → keyring.get (keyring.set k host v).1 host ≡ found v
  pub set-kept :
      (k : K) (host v : Text) → (keyring.set k host v).0 ≡ false → (keyring.set k host v).1 ≡ k

lookup-set_key :
    (host v : Text) (hosts : List (Text × Text)) → lookup host (set_key host v hosts) ≡ some v
lookup-set_key host v [] = ground (arith, text_eq_iff host host)
lookup-set_key host v ((h, w) ∷ hosts) =
    ground (arith, lookup-set_key host v hosts, text_eq_iff h host)

module _ {K : Type 0} (json : CredentialJson) (keyring : Keyring K) (laws : IsJson json) where
  parse-marshal :
      (c : Credential)
      → is_empty c.kind ≡ false
      → parse_credential json keyring (json.marshal c) ≡ ok c
  unfolding parse_credential
  parse-marshal c h =
      let (raw, e) = laws.braced c in
      let back : json.unmarshal (b'{' ∷ raw) ≡ ok c =
        ap json.unmarshal (sym e) ∙ laws.unmarshal-marshal c in
      rw (e, back, h) refl

  write_file_atomic-written :
      (b : Text) (m n : Machine K)
      → write_file_atomic json keyring b m ≡ (ok tt, n)
      → record m { file = some (384, b) } ≡ n
  write_file_atomic-written b m n h = elim (Bool-cases m.writable) [
    | inl on ↦ cc (simp on at h)
    | inr off ↦ absurd (cc (simp off at h))
  ]

  file_load-readable :
      (m : Machine K) (hosts : Hosts) → file_load json keyring m ≡ ok hosts → m.readable ≡ true
  unfolding file_load
  file_load-readable m hosts h = elim (Bool-cases m.readable) [
    | inl on ↦ on
    | inr off ↦ absurd (cc (simp off at h))
  ]

  -- What the file has after a new one was renamed over it.
  file_get-written :
      (host key : Text) (hosts : List (Text × Text)) (m : Machine K)
      → m.readable ≡ true
      → file_get json keyring host
          (record m { file = some (384, json.marshal_hosts (set_key host key hosts)) })
        ≡ ok (some key)
  unfolding file_get file_load
  file_get-written host key hosts m h =
      rw (h, laws.unmarshal-marshal_hosts (set_key host key hosts), lookup-set_key host key hosts)
        refl

  -- What the file has after fileSet.
  file_set-stored :
      (host key : Text) (m n : Machine K)
      → file_set json keyring host key m ≡ (ok tt, n)
      → (file_get json keyring host n ≡ ok (some key)) × (n.keyring ≡ m.keyring)
  unfolding file_set
  file_set-stored host key m n h = go (file_load json keyring m) refl h
    where
      go :
          (r : Result Hosts)
          → file_load json keyring m ≡ r
          → set_host json keyring host key r m ≡ (ok tt, n)
          → (file_get json keyring host n ≡ ok (some key)) × (n.keyring ≡ m.keyring)
      go (err x) e k = absurd (cc k)
      go (ok none) e k = absurd (cc k)
      go (ok (some hosts)) e k =
          subst
            (λ (t : Machine K).
              (file_get json keyring host t ≡ ok (some key)) × (t.keyring ≡ m.keyring))
            (write_file_atomic-written (json.marshal_hosts (set_key host key hosts)) m n k)
            (file_get-written host key hosts m (file_load-readable m (some hosts) e), refl)

  rewrite_file-keyring :
      (hosts : List (Text × Text)) (m : Machine K)
      → (rewrite_file json keyring hosts m).1.keyring ≡ m.keyring
  rewrite_file-keyring [] m = elim (Bool-cases m.writable) [ inl on ↦ simp on | inr off ↦ simp off ]
  rewrite_file-keyring (h ∷ hosts) m = elim (Bool-cases m.writable) [
    | inl on ↦ simp on
    | inr off ↦ simp off
  ]

  delete_found-keyring :
      (host : Text) (o : Option Text) (hosts : List (Text × Text)) (m : Machine K)
      → (delete_found json keyring host o hosts m).1.keyring ≡ m.keyring
  delete_found-keyring host none hosts m = refl
  delete_found-keyring host (some v) hosts m = rewrite_file-keyring _ m

  delete_host-keyring :
      (host : Text) (r : Result Hosts) (m : Machine K)
      → (delete_host json keyring host r m).1.keyring ≡ m.keyring
  delete_host-keyring host (err e) m = refl
  delete_host-keyring host (ok hosts) m =
      delete_found-keyring host (lookup host (entries hosts)) (entries hosts) m

  parsed_from-marshal :
      (source : Source) (c : Credential)
      → is_empty c.kind ≡ false
      → parsed_from json keyring source (json.marshal c) ≡ ok (c, source)
  parsed_from-marshal source c h = rw (parse-marshal c h) refl

  from_keyring-found :
      (c : Credential) (file : Result (Option Text))
      → is_empty c.kind ≡ false
      → from_keyring json keyring (found (json.marshal c)) file ≡ ok (c, source_keyring)
  from_keyring-found c file h =
      let (raw, e) = laws.braced c in
      ap (λ s. from_keyring json keyring (found s) file) e
      ∙ ap (λ s. parsed_from json keyring source_keyring s) (sym e)
      ∙ parsed_from-marshal source_keyring c h

  -- What is resolved after a credential was stored, by where it was stored and what the keyring had
  -- for the host before: the credential, but for one in the file behind an older value of the keyring.
  abbrev pub resolved_after : StoreKind → Lookup → Credential → Result (Credential × Source)
  resolved_after store_keyring l c = ok (c, source_keyring)
  resolved_after store_file (found (b ∷ v)) c = parsed_from json keyring source_keyring (b ∷ v)
  resolved_after store_file l c = ok (c, source_file)

  from_keyring-stored :
      (l : Lookup) (c : Credential)
      → is_empty c.kind ≡ false
      → from_keyring json keyring l (ok (some (json.marshal c))) ≡ resolved_after store_file l c
  from_keyring-stored (found []) c h = parsed_from-marshal source_file c h
  from_keyring-stored (found (b ∷ v)) c h = refl
  from_keyring-stored not_found c h = parsed_from-marshal source_file c h
  from_keyring-stored unavailable c h = parsed_from-marshal source_file c h

  stored_in_file-ok :
      (r : Result (Unit {0}) × Machine K) (k : StoreKind) (n : Machine K)
      → stored_in_file json keyring r ≡ (ok k, n)
      → (k ≡ store_file) × (r ≡ (ok tt, n))
  stored_in_file-ok (ok u, m) k n h = (cc h, cc h)
  stored_in_file-ok (err (validation x), m) k n h = absurd (cc h)
  stored_in_file-ok (err (oauth_authorization x), m) k n h = absurd (cc h)
  stored_in_file-ok (err (oauth_refresh x), m) k n h = absurd (cc h)
  stored_in_file-ok (err (invalid_slug x), m) k n h = absurd (cc h)
  stored_in_file-ok (err (plain x), m) k n h = absurd (cc h)
  stored_in_file-ok (err panic, m) k n h = absurd (cc h)

  after :
      (host : Text) (c : Credential) (old : Lookup) (tried : Bool) (m n : Machine K) (k : StoreKind)
      → is_empty c.kind ≡ false
      → (tried ≡ true → keyring.get m.keyring host ≡ found (json.marshal c))
      → (tried ≡ false → keyring.get m.keyring host ≡ old)
      → after_set json keyring host (json.marshal c) tried m ≡ (ok k, n)
      → resolve_credential json keyring [] host n ≡ resolved_after k old c
  unfolding resolve_credential file_delete
  after host c old true m n k has_kind held refused h =
      let gone : (file_delete json keyring host m).1 ≡ n = cc h in
      let here : store_keyring ≡ k = cc h in
      let kept : n.keyring ≡ m.keyring =
        ap (λ (t : Machine K). t.keyring) (sym gone)
        ∙ delete_host-keyring host (file_load json keyring m) m in
      ap (λ q. from_keyring json keyring q (file_get json keyring host n))
        (ap (λ t. keyring.get t host) kept ∙ held refl)
      ∙ from_keyring-found c (file_get json keyring host n) has_kind
      ∙ ap (λ q. resolved_after q old c) here
  after host c old false m n k has_kind held refused h =
      let (in_file, set) =
        stored_in_file-ok (file_set json keyring host (json.marshal c) m) k n h in
      let (got, kept) = file_set-stored host (json.marshal c) m n set in
      ap (λ q. from_keyring json keyring (keyring.get n.keyring host) q) got
      ∙ from_keyring-stored (keyring.get n.keyring host) c has_kind
      ∙ ap (λ q. resolved_after store_file q c) (ap (λ t. keyring.get t host) kept ∙ refused refl)
      ∙ ap (λ q. resolved_after q old c) (sym in_file)

  -- With a keyring that gives back what it has accepted and is as before where it has refused, and
  -- with JSON that reads back what it writes: after a credential with a type was stored for a host,
  -- and unless VAULT_API_KEY is set, the same credential is resolved for the host, from where it was
  -- stored; but where the keyring has refused it and still has an older value for the host, that
  -- value is what is resolved.
  pub store_then_resolve :
      (host : Text) (c : Credential) (m n : Machine K) (k : StoreKind)
      → IsKeyring keyring
      → is_empty c.kind ≡ false
      → store_credential json keyring host c m ≡ (ok k, n)
      → resolve_credential json keyring [] host n ≡ resolved_after k (keyring.get m.keyring host) c
  unfolding store_credential store_raw
  store_then_resolve host c m n k ring has_kind h =
      let tried = keyring.set m.keyring host (json.marshal c) in
      after host c (keyring.get m.keyring host) tried.0 (record m { keyring = tried.1 }) n k
        has_kind (λ e. ring.get-set m.keyring host (json.marshal c) e)
        (λ e. ap (λ t. keyring.get t host) (ring.set-kept m.keyring host (json.marshal c) e)) h

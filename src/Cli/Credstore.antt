-- ===== src/Cli/Credstore.antt =====
-- cli/internal/credstore/credstore.go: where the client keeps the credential of a host. The keyring of
-- the system is a parameter; the model is that of systems other than Windows.
pub mod Resolved
mod Tests
use donkey_work_vault.Base.{
  ℕ, Bool, true, false, not, List, [], ◌∷◌, keep, Option, none, some, Text, text, text_eq, is_empty,
  ◌%◌, ◌==◌, if◌then◌else◌, Result, ok, err, Error, plain, panic, length,
}
use donkey_work_vault.Base.Fallible.{◌>>=◌}
use donkey_work_vault.Config.{set_key}

pub data StoreKind : Type 0 where
  store_keyring store_file : StoreKind

pub data Source : Type 0 where
  source_env source_keyring source_file : Source

pub record Credential : Type 0 where
  pub kind : Text
  pub secret : Text
  pub issuer : Text
  pub client_id : Text
  pub scopes : Text
  pub access_token : Text
  pub refresh_token : Text
  pub expires_at : Text
  pub refresh_expires_at : Text
  pub account : Text

abbrev pub api_key : Text → Credential
api_key secret = record {
  kind = text "api_key";
  secret = secret;
  issuer = [];
  client_id = [];
  scopes = [];
  access_token = [];
  refresh_token = [];
  expires_at = [];
  refresh_expires_at = [];
  account = [];
}

-- What keyring.Get returns: a value, ErrNotFound, or another error.
pub data Lookup : Type 0 where
  found : Text → Lookup
  not_found unavailable : Lookup

-- The keyring for the service "dwvault"; Set says whether it has succeeded.
pub record Keyring (K : Type 0) : Type 0 where
  pub get : K → Text → Lookup
  pub set : K → Text → Text → Bool × K
  pub remove : K → Text → K

-- The map of the file; JSON null gives a nil map, which reads as an empty one and is not written to.
abbrev pub Hosts : Type 0
Hosts = Option (List (Text × Text))

abbrev pub entries : Hosts → List (Text × Text)
entries none = []
entries (some hosts) = hosts

pub record CredentialJson : Type 0 where
  pub marshal : Credential → Text
  pub unmarshal : Text → Result Credential
  pub marshal_hosts : List (Text × Text) → Text
  pub unmarshal_hosts : Text → Result Hosts

-- The keyring, the credentials file with its mode, and whether the disk can be read and be written.
pub record Machine (K : Type 0) : Type 0 where
  pub keyring : K
  pub file : Option (ℕ × Text)
  pub readable : Bool
  pub writable : Bool

abbrev pub lookup : Text → List (Text × Text) → Option Text
lookup host [] = none
lookup host ((h, v) ∷ hosts) = if text_eq h host then some v else lookup host hosts

module _ {K : Type 0} (json : CredentialJson) (keyring : Keyring K) where
  abbrev pub read_file : Option (ℕ × Text) → Result Hosts
  read_file none = ok (some [])
  read_file (some (mode, contents)) =
      if not (mode % 64 == 0)
      then err (plain (text "insecure permissions; refusing to read"))
      else json.unmarshal_hosts contents

  -- checkPerms first: a file that the group or others can access is not read.
  unfoldable pub file_load : Machine K → Result Hosts
  file_load m =
      if not m.readable then err (plain (text "cannot read the file")) else read_file m.file

  unfoldable pub file_get : Text → Machine K → Result (Option Text)
  file_get host m = file_load m >>= λ hosts. ok (lookup host (entries hosts))

  -- writeFileAtomic: a new file of mode 0600 is renamed over the old one.
  abbrev pub write_file_atomic : Text → Machine K → Result (Unit {0}) × Machine K
  write_file_atomic b m =
      if m.writable
      then (ok tt, record m { file = some (384, b) })
      else (err (plain (text "cannot write the file")), m)

  abbrev pub set_host : Text → Text → Result Hosts → Machine K → Result (Unit {0}) × Machine K
  set_host host key (err e) m = (err e, m)
  set_host host key (ok none) m = (err panic, m)
  set_host host key (ok (some hosts)) m =
      write_file_atomic (json.marshal_hosts (set_key host key hosts)) m

  unfoldable pub file_set : Text → Text → Machine K → Result (Unit {0}) × Machine K
  file_set host key m = set_host host key (file_load m) m

  -- os.Remove, and os.WriteFile, which keeps the mode of the file.
  abbrev pub remove_file : Machine K → Result (Unit {0}) × Machine K
  remove_file m =
      if m.writable
      then (ok tt, record m { file = none })
      else (err (plain (text "cannot write the file")), m)

  abbrev pub mode_of : Option (ℕ × Text) → ℕ
  mode_of none = 384
  mode_of (some (mode, contents)) = mode

  abbrev pub rewrite_file : List (Text × Text) → Machine K → Result (Unit {0}) × Machine K
  rewrite_file [] m = remove_file m
  rewrite_file (h ∷ hosts) m =
      if m.writable
      then (ok tt, record m { file = some (mode_of m.file, json.marshal_hosts (h ∷ hosts)) })
      else (err (plain (text "cannot write the file")), m)

  abbrev pub delete_found :
      Text → Option Text → List (Text × Text) → Machine K → Result (Unit {0}) × Machine K
  delete_found host none hosts m = (ok tt, m)
  delete_found host (some v) hosts m =
      rewrite_file (keep (λ (h : Text × Text). not (text_eq h.0 host)) hosts) m

  abbrev pub delete_host : Text → Result Hosts → Machine K → Result (Unit {0}) × Machine K
  delete_host host (err e) m = (err e, m)
  delete_host host (ok hosts) m = delete_found host (lookup host (entries hosts)) (entries hosts) m

  unfoldable pub file_delete : Text → Machine K → Result (Unit {0}) × Machine K
  file_delete host m = delete_host host (file_load m) m

  abbrev pub stored_in_file : Result (Unit {0}) × Machine K → Result StoreKind × Machine K
  stored_in_file (ok u, m) = (ok store_file, m)
  stored_in_file (err panic, m) = (err panic, m)
  stored_in_file (err e, m) =
      (err (plain (text "no OS keyring available and file fallback failed")), m)

  abbrev pub after_set : Text → Text → Bool → Machine K → Result StoreKind × Machine K
  after_set host key true m = (ok store_keyring, (file_delete host m).1)
  after_set host key false m = stored_in_file (file_set host key m)

  unfoldable pub store_raw : Text → Text → Machine K → Result StoreKind × Machine K
  store_raw host key m =
      let tried = keyring.set m.keyring host key in
      after_set host key tried.0 (record m { keyring = tried.1 })

  unfoldable pub store_credential : Text → Credential → Machine K → Result StoreKind × Machine K
  store_credential host c m = store_raw host (json.marshal c) m

  abbrev pub typed : Credential → Result Credential
  typed c = if is_empty c.kind then err (plain (text "credential missing type")) else ok c

  unfoldable pub parse_credential : Text → Result Credential
  parse_credential [] = err (plain (text "no stored credential for host"))
  parse_credential (b ∷ raw) =
      if not (b == b'{') then ok (api_key (b ∷ raw)) else (json.unmarshal (b ∷ raw) >>= typed)

  abbrev pub parsed_from : Source → Text → Result (Credential × Source)
  parsed_from source raw = parse_credential raw >>= λ c. ok (c, source)

  -- The file comes after the keyring, whose error is given only if the file has nothing.
  abbrev pub from_file : Lookup → Result (Option Text) → Result (Credential × Source)
  from_file l (err e) = err e
  from_file l (ok (some raw)) = parsed_from source_file raw
  from_file unavailable (ok none) =
      err (plain (text "read OS keyring (no file fallback available)"))
  from_file l (ok none) = err (plain (text "no stored credential for host"))

  abbrev pub from_keyring : Lookup → Result (Option Text) → Result (Credential × Source)
  from_keyring (found (b ∷ raw)) file = parsed_from source_keyring (b ∷ raw)
  from_keyring l file = from_file l file

  -- The value of VAULT_API_KEY comes first.
  unfoldable pub resolve_credential : Text → Text → Machine K → Result (Credential × Source)
  resolve_credential env host m =
      if not (is_empty env)
      then ok (api_key env, source_env)
      else from_keyring (keyring.get m.keyring host) (file_get host m)

  abbrev pub key_of : Credential × Source → Result (Text × Source)
  key_of (c, source) =
      if not (text_eq c.kind (text "api_key"))
      then err (plain (text "stored credential is not api_key"))
      else ok (c.secret, source)

  unfoldable pub resolve : Text → Text → Machine K → Result (Text × Source)
  resolve env host m = resolve_credential env host m >>= key_of

  unfoldable pub delete : Text → Machine K → Result (Unit {0}) × Machine K
  delete host m = file_delete host (record m { keyring = keyring.remove m.keyring host })

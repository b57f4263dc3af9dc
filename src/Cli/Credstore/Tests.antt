-- ===== src/Cli/Credstore/Tests.antt =====
-- A stand-in for JSON, a machine without a usable keyring, and a credential that is stored there.
use donkey_work_vault.Base.{
  ℕ, zero, suc, ◌≡◌, ◌∙◌, refl, ap, false, true, List, [], ◌∷◌, none, some, Text, text, text_eq,
  Result, ok, err, plain,
}
use donkey_work_vault.Cli.Credstore.{
  Credential, Keyring, CredentialJson, Machine, not_found, store_file, file_load, file_set,
  store_raw, store_credential, resolve_credential,
}
use donkey_work_vault.Cli.Credstore.Resolved.{IsJson, IsKeyring, resolved_after, store_then_resolve}

-- Each character is one more, and 0 ends the text.
abbrev write_text : Text → Text → Text
write_text [] rest = 0 ∷ rest
write_text (c ∷ s) rest = suc c ∷ write_text s rest

abbrev push : ℕ → List Text → List Text
push c [] = (c ∷ []) ∷ []
push c (s ∷ ss) = (c ∷ s) ∷ ss

abbrev read_texts : Text → List Text
read_texts [] = []
read_texts (zero ∷ t) = [] ∷ read_texts t
read_texts (suc c ∷ t) = push c (read_texts t)

read_texts-write_text : (s rest : Text) → read_texts (write_text s rest) ≡ s ∷ read_texts rest
read_texts-write_text [] rest = refl
read_texts-write_text (c ∷ s) rest = ap (push c) (read_texts-write_text s rest)

abbrev write_hosts : List (Text × Text) → Text
write_hosts [] = []
write_hosts ((h, v) ∷ hosts) = write_text h (write_text v (write_hosts hosts))

abbrev pairs : List Text → List (Text × Text)
pairs (h ∷ v ∷ rest) = (h, v) ∷ pairs rest
pairs _ = []

pairs-write_hosts : (hosts : List (Text × Text)) → pairs (read_texts (write_hosts hosts)) ≡ hosts
pairs-write_hosts [] = refl
pairs-write_hosts ((h, v) ∷ hosts) =
    ap pairs (
      read_texts-write_text h (write_text v (write_hosts hosts))
      ∙ ap (λ t. h ∷ t) (read_texts-write_text v (write_hosts hosts)))
    ∙ ap (λ t. (h, v) ∷ t) (pairs-write_hosts hosts)

abbrev texts : List Text → Text
texts [] = []
texts (s ∷ ss) = write_text s (texts ss)

read_texts-texts : (ss : List Text) → read_texts (texts ss) ≡ ss
read_texts-texts [] = refl
read_texts-texts (s ∷ ss) =
    read_texts-write_text s (texts ss) ∙ ap (λ t. s ∷ t) (read_texts-texts ss)

abbrev fields_of : Credential → List Text
fields_of c =
    c.kind ∷ c.secret ∷ c.issuer ∷ c.client_id ∷ c.scopes ∷ c.access_token ∷ c.refresh_token
    ∷ c.expires_at ∷ c.refresh_expires_at ∷ c.account ∷ []

abbrev from_fields : List Text → Result Credential
from_fields (k ∷ s ∷ i ∷ ci ∷ sc ∷ a ∷ r ∷ e ∷ re ∷ ac ∷ []) = ok (record {
  kind = k;
  secret = s;
  issuer = i;
  client_id = ci;
  scopes = sc;
  access_token = a;
  refresh_token = r;
  expires_at = e;
  refresh_expires_at = re;
  account = ac;
})
from_fields _ = err (plain (text "not a credential"))

abbrev after_brace : Text → Result Credential
after_brace [] = err (plain (text "not an object"))
after_brace (b ∷ t) = from_fields (read_texts t)

abbrev json : CredentialJson
json = record {
  marshal = λ c. b'{' ∷ texts (fields_of c);
  unmarshal = after_brace;
  marshal_hosts = write_hosts;
  unmarshal_hosts = λ t. ok (some (pairs (read_texts t)));
}

json-IsJson : IsJson json
json-IsJson = record {
  braced = λ c. (texts (fields_of c), refl);
  unmarshal-marshal = λ c. ap from_fields (read_texts-texts (fields_of c));
  unmarshal-marshal_hosts = λ hosts. ap (λ hs. ok (some hs)) (pairs-write_hosts hosts);
}

-- A keyring that refuses everything.
abbrev refusing : Keyring (Unit {0})
refusing = record { get = λ k host. not_found; set = λ k host v. (false, k); remove = λ k host. k }

refusing-IsKeyring : IsKeyring refusing
refusing-IsKeyring = record { get-set = λ k host v e. absurd (cc e); set-kept = λ k host v e. refl }

abbrev machine : Machine (Unit {0})
machine = record { keyring = tt; file = none; readable = true; writable = true }

abbrev session : Credential
session = record {
  kind = text "oauth";
  secret = [];
  issuer = text "https://id";
  client_id = text "cli";
  scopes = text "openid";
  access_token = text "at";
  refresh_token = text "rt";
  expires_at = [];
  refresh_expires_at = [];
  account = text "ada";
}

abbrev after_login : Machine (Unit {0})
after_login = (store_credential json refusing (text "vault") session machine).1

stored :
    store_credential json refusing (text "vault") session machine ≡ (ok store_file, after_login)
unfolding store_credential store_raw file_set file_load text_eq
stored = refl

store_then_resolve_example :
    resolve_credential json refusing [] (text "vault") after_login
    ≡ resolved_after json refusing json-IsJson store_file not_found session
store_then_resolve_example =
    store_then_resolve json refusing json-IsJson (text "vault") session machine after_login
      store_file refusing-IsKeyring refl stored

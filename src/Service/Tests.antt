-- ===== src/Service/Tests.antt =====
-- The theorems about the services at concrete inputs, with a stand-in for SHA-256.
use donkey_work_vault.Base.{
  ◌≡◌, refl, arith, false, not, ◌&&◌, List, [], ◌∷◌, some, none, Text, text, text_eq, contains,
  is_empty, trim_space, has_part, has_prefix, ok,
}
use donkey_work_vault.Base.Base64.{raw_url_encode}
use donkey_work_vault.Base.Table.{values}
use donkey_work_vault.Store.Mem.{fail}
use donkey_work_vault.Store.Mem.AccessKeys.{get_access_key_by_hash}
use donkey_work_vault.Audit.Log.{Backend}
use donkey_work_vault.Crypto.Cipher.{Cipher, IsCipher}
use donkey_work_vault.Service.AccessKeys.{
  AccessKeyPrincipal, StoredAccessKey, normalize_scopes, checked_scopes, create, authenticate,
  authenticate_row,
}
use donkey_work_vault.Service.ApiKeys.{CreateApiKeyParams, checked_username}
use donkey_work_vault.Service.Normalized.{Unique, normalize_scopes-exact}
use donkey_work_vault.Service.Authentication.{Speaks, authenticate-Speaks}
use donkey_work_vault.Service.Issue.{NoCollision, create_then_authenticate}
use donkey_work_vault.Service.Reveal.{Revealed, create_then_reveal}
use donkey_work_vault.Service.Samples.{digest, ctx, store, backend, principal, store-IsWellFormed}

abbrev asked : List Text
asked = text "vault:read" ∷ text " " ∷ text "vault:audit" ∷ text "vault:read" ∷ []

normalize_scopes-exact_example :
    Unique (normalize_scopes asked)
    × ((s : Text)
        → contains (normalize_scopes asked) s ≡ (contains asked s && not (is_empty (trim_space s))))
normalize_scopes-exact_example = normalize_scopes-exact asked

authenticated : (authenticate digest ctx (text "dwv_old") backend).0 ≡ ok (some principal)
unfolding authenticate authenticate_row get_access_key_by_hash fail text_eq values
authenticated = refl

authenticate-Speaks_example :
    (is_empty (text "dwv_old") ≡ false) × Speaks digest (text "dwv_old") store principal
authenticate-Speaks_example =
    authenticate-Speaks digest ctx (text "dwv_old") backend principal store-IsWellFormed
      authenticated

accepted : checked_scopes (text "deploy") asked ≡ ok (text "vault:read" ∷ text "vault:audit" ∷ [])
unfolding checked_scopes normalize_scopes contains text_eq trim_space
accepted = refl

no_collision :
    NoCollision digest ctx 9
      (text "deploy")
      none
      (text "vault:read" ∷ text "vault:audit" ∷ [])
      backend
unfolding text_eq raw_url_encode values
no_collision = (refl, tt)

create_then_authenticate_example :
    (stored : StoredAccessKey) × (secret : Text) × (c : Backend) × (p : AccessKeyPrincipal)
    × (create digest ctx 9 (text "deploy") none asked backend ≡ (ok (stored, secret), c))
    × ((authenticate digest ctx secret c).0 ≡ ok (some p))
    × (p.id ≡ stored.id)
    × (p.user_id ≡ 7)
    × (p.tenant_id ≡ 1)
    × (p.scopes ≡ text "vault:read" ∷ text "vault:audit" ∷ [])
create_then_authenticate_example =
    create_then_authenticate digest ctx ctx 9 (text "deploy") none asked
      (text "vault:read" ∷ text "vault:audit" ∷ []) backend accepted (omega arith) refl no_collision

-- A cipher that hides nothing.
abbrev plain_cipher : Cipher
plain_cipher = record {
  encrypt_string = λ p source. (ok p, source);
  decrypt_to_string = λ blob. ok blob;
}

plain_cipher-IsCipher : IsCipher plain_cipher
plain_cipher-IsCipher = record { decrypt-encrypt_string = λ p source blob rest h. cc h }

-- The name is that of the stored secret, which is replaced.
abbrev params : CreateApiKeyParams
params = record {
  name = text "db";
  secret = some (text "s3cret");
  description = some (text "the database");
  base_url = none;
  docs_url = none;
  header = none;
  prefix = none;
  username = some (text "admin");
  kind = text "username_password";
}

named : is_empty (trim_space (text "db")) ≡ false
unfolding trim_space
named = refl

user_accepted : checked_username (some (text "admin")) ≡ ok (some (text "admin"))
unfolding checked_username trim_space has_part has_prefix
user_accepted = refl

create_then_reveal_example :
    Revealed plain_cipher ctx ctx 9 params (some (text "admin")) (text "s3cret") backend
create_then_reveal_example =
    create_then_reveal plain_cipher ctx ctx 9 params (some (text "admin")) 115 (text "3cret")
      (text "s3cret") backend.random backend plain_cipher-IsCipher store-IsWellFormed refl refl
      named user_accepted refl refl

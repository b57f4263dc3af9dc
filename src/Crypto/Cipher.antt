-- ===== src/Crypto/Cipher.antt =====
-- The Cipher interface of crypto.go, which the services use, and the envelope cipher behind it.
use donkey_work_vault.Base.{◌≡◌, Text, Result, ok}
use donkey_work_vault.Base.Exec.{Exec}
use donkey_work_vault.Crypto.{Aead, IsAead, KekProvider, Opens}
use donkey_work_vault.Crypto.Envelope.{encrypt, decrypt}
use donkey_work_vault.Crypto.RoundTrip.{decrypt-encrypt}

-- EncryptString draws from the random source.
pub record Cipher : Type 0 where
  pub encrypt_string : Text → Exec Text Text
  pub decrypt_to_string : Text → Result Text

-- What was encrypted decrypts.
pub record IsCipher (c : Cipher) : Type 0 where
  pub decrypt-encrypt_string :
      (p source blob rest : Text)
      → c.encrypt_string p source ≡ (ok blob, rest)
      → c.decrypt_to_string blob ≡ ok p

abbrev pub envelope_cipher : Aead → KekProvider → Cipher
envelope_cipher aead kek = record {
  encrypt_string = encrypt aead kek;
  decrypt_to_string = decrypt aead kek;
}

pub envelope_cipher-IsCipher :
    (aead : Aead) (kek : KekProvider)
    → IsAead aead
    → Opens kek kek
    → IsCipher (envelope_cipher aead kek)
envelope_cipher-IsCipher aead kek laws opens = record {
  decrypt-encrypt_string =
      λ p source blob rest h. decrypt-encrypt aead laws kek kek opens p source h;
}

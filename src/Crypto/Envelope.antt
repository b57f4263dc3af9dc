-- ===== src/Crypto/Envelope.antt =====
-- crypto.go: EnvelopeCipher.Encrypt and Decrypt. EncryptString and DecryptToString are the same
-- functions, since a Go string is its bytes.
use donkey_work_vault.Base.{
  ◌-◌, ◌++◌, Text, text, length, take, drop, leb, not, if◌then◌else◌, plain, Result, ok, err,
}
use donkey_work_vault.Base.Fallible
use donkey_work_vault.Base.Exec.{Exec, lift, ◌>>=◌}
use donkey_work_vault.Crypto.{
  nonce_size, tag_size, dek_size, Aead, opened, check_key, read_full, KekProvider,
}
use donkey_work_vault.Crypto.Blob.{Parts, join, split}

-- The checks and the appends at the end of Encrypt.
unfoldable pub assemble : Text → Text → Text → Text → Result Text
assemble kek_id wrapped_dek nonce sealed =
    if not (leb (length kek_id) 0xFF)
    then err (plain (text "kekId is too long to encode (max 255 bytes)"))
    else if not (leb (length wrapped_dek) 0xFFFF)
    then err (plain (text "wrapped DEK is too long to encode"))
    else (ok (
        join (record {
          kek_id = kek_id;
          wrapped_dek = wrapped_dek;
          nonce = nonce;
          tag = drop (length sealed - tag_size) sealed;
          ciphertext = take (length sealed - tag_size) sealed;
        })))

-- The state is what the random source has left.
unfoldable pub encrypt : Aead → KekProvider → Text → Exec Text Text
encrypt aead kek plaintext = do
  dek ← read_full dek_size
  key ← lift (check_key dek)
  nonce ← read_full nonce_size
  wrapped_dek ← kek.wrap dek
  lift (assemble kek.active_kek_id wrapped_dek nonce (aead.seal key nonce plaintext))

-- Decrypt from the call of Unwrap on.
unfoldable pub open_parts : Aead → KekProvider → Parts → Result Text
open_parts aead kek p = Fallible.◌>>=◌ (kek.unwrap p.kek_id p.wrapped_dek) λ dek.
    Fallible.◌>>=◌ (check_key dek)
      λ key. opened (aead.open_sealed key p.nonce (p.ciphertext ++ p.tag))

unfoldable pub decrypt : Aead → KekProvider → Text → Result Text
decrypt aead kek blob = Fallible.◌>>=◌ (split blob) (open_parts aead kek)

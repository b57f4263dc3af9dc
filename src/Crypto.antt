-- ===== src/Crypto.antt =====
-- server/internal/crypto: the sizes of crypto.go, the AEAD that the package takes from Go's
-- crypto/cipher, the source of random bytes, and the KekProvider interface.
pub mod Blob
pub mod Envelope
pub mod Format
pub mod LocalKek
pub mod RoundTrip
pub mod Rotation
pub mod Total
pub mod Cipher
mod Toy
mod Tests
use donkey_work_vault.Base.{
  ℕ, ◌+◌, ◌≤◌, ◌≡◌, true, Bool, Option, some, none, Text, text, length, take, drop, ltb, ◌==◌, ◌||◌,
  if◌then◌else◌, is_empty, plain, Result, ok, err,
}
use donkey_work_vault.Base.Exec.{Exec}

abbrev pub magic : Text
magic = text "DWV1"

abbrev pub version : ℕ
version = 1

abbrev pub nonce_size : ℕ
nonce_size = 12

abbrev pub tag_size : ℕ
tag_size = 16

abbrev pub dek_size : ℕ
dek_size = 32

-- aes.NewCipher takes keys of 16, 24 and 32 bytes.
abbrev pub valid_key_size : ℕ → Bool
valid_key_size n = (n == 16) || (n == 24) || (n == 32)

-- AES-GCM of Go's standard library, for a key and a nonce.
pub record Aead : Type 0 where
  pub seal : Text → Text → Text → Text
  pub open_sealed : Text → Text → Text → Option Text

-- A key and a nonce that GCM takes.
abbrev pub Usable : Text → Text → Type 0
Usable key nonce = (valid_key_size (length key) ≡ true) × (length nonce ≡ nonce_size)

-- What the package relies on: Seal appends a tag of 16 bytes, Open inverts Seal, and Open accepts
-- nothing but what Seal gives.
pub record IsAead (a : Aead) : Type 0 where
  pub length-seal :
      (key nonce p : Text) → Usable key nonce → length (a.seal key nonce p) ≡ length p + tag_size
  pub open-seal :
      (key nonce p : Text)
      → Usable key nonce
      → a.open_sealed key nonce (a.seal key nonce p) ≡ some p
  pub open_sound :
      (key nonce sealed p : Text)
      → Usable key nonce
      → a.open_sealed key nonce sealed ≡ some p
      → sealed ≡ a.seal key nonce p

-- A failed tag check is an error of Open.
abbrev pub opened : Option Text → Result Text
opened none = err (plain (text "cipher: message authentication failed"))
opened (some p) = ok p

-- aes.NewCipher and cipher.NewGCM
abbrev pub check_key : Text → Result Text
check_key key =
    if valid_key_size (length key)
    then ok key
    else err (plain (text "crypto/aes: invalid key size"))

-- io.ReadFull(randReader, make([]byte, n)): the state is what the reader has left.
unfoldable pub read_full : ℕ → Exec Text Text
read_full n source =
    if ltb (length source) n
    then (
      err (plain (if is_empty source then text "EOF" else text "unexpected EOF")),
      drop (length source) source,
    )
    else (ok (take n source), drop n source)

-- The KekProvider interface of crypto.go.
pub record KekProvider : Type 0 where
  pub active_kek_id : Text
  pub wrap : Text → Exec Text Text
  pub unwrap : Text → Text → Result Text

-- One provider opens what the other wraps: the contract of Wrap and Unwrap, across a change of keys.
pub record Opens (writer reader : KekProvider) : Type 0 where
  pub unwrap-wrap :
      (dek source wrapped rest : Text)
      → length dek ≡ dek_size
      → writer.wrap dek source ≡ (ok wrapped, rest)
      → reader.unwrap writer.active_kek_id wrapped ≡ ok dek

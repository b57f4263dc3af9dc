-- ===== src/Crypto/Tests.antt =====
-- The theorems of the package at concrete inputs: two KEKs, of which the second becomes active.
use donkey_work_vault.Base.{
  ◌≡◌, refl, arith, List, [], ◌∷◌, ◌++◌, ◌≢◌, Text, text, text_eq, some, ok, err, panic,
}
use donkey_work_vault.Base.Base64.{std_decode, raw_url_encode}
use donkey_work_vault.Crypto.{read_full}
use donkey_work_vault.Crypto.Blob.{Parts, join, split, slice, byte_at}
use donkey_work_vault.Crypto.Envelope.{assemble, encrypt, decrypt}
use donkey_work_vault.Crypto.LocalKek.{
  kek_of, LocalKekProvider, decode_keks, new_local_kek_provider, wrap, as_kek_provider,
}
use donkey_work_vault.Crypto.Format.{Fits}
use donkey_work_vault.Crypto.Format.Sound.{split-ne-panic, join-split}
use donkey_work_vault.Crypto.Rotation.{IsValid, new_local_kek_provider-IsValid}
use donkey_work_vault.Crypto.Total.{encrypt_then_rotate}
use donkey_work_vault.Crypto.Toy.{toy, toy-IsAead, zeros}

abbrev key_one : Text
key_one = text "0123456789abcdef0123456789abcdef"

abbrev key_two : Text
key_two = text "fedcba9876543210fedcba9876543210"

abbrev before : LocalKekProvider
before = record { keks = (text "local:v1", key_one) ∷ []; active_kek = text "local:v1" }

abbrev after : LocalKekProvider
after = record {
  keks = (text "local:v2", key_two) ∷ (text "local:v1", key_one) ∷ [];
  active_kek = text "local:v2";
}

abbrev entropy : Text
entropy = key_two ++ (text "nonce-number" ++ text "another one!")

abbrev blob : Text
blob = join (record {
  kek_id = text "local:v1";
  wrapped_dek = text "another one!" ++ (zeros ++ key_two);
  nonce = text "nonce-number";
  tag = zeros;
  ciphertext = text "s3cret";
})

decoded : std_decode (text "aGVsbG8=") ≡ some (text "hello")
unfolding std_decode
decoded = refl

encoded : raw_url_encode (251 ∷ 255 ∷ []) ≡ text "-_8"
unfolding raw_url_encode
encoded = refl

encrypted : encrypt toy (as_kek_provider toy before) (text "s3cret") entropy ≡ (ok blob, [])
unfolding encrypt wrap assemble join read_full kek_of text_eq
encrypted = refl

before-IsValid : IsValid before
unfolding kek_of text_eq
before-IsValid = record { sized = (refl, tt); named = refl; active = (key_one, refl) }

encrypt_then_rotate_example :
    (b : Text) × (rest : Text) × (encrypt toy (as_kek_provider toy before) (text "s3cret") entropy
      ≡ (ok b, rest))
    × (decrypt toy (as_kek_provider toy after) b ≡ ok (text "s3cret"))
unfolding kek_of text_eq
encrypt_then_rotate_example =
    encrypt_then_rotate toy toy-IsAead before after (text "s3cret") entropy before-IsValid
      (omega arith) refl (omega arith)

abbrev parts : Parts
parts = record {
  kek_id = text "local:v1";
  wrapped_dek = text "another one!" ++ (zeros ++ key_two);
  nonce = text "nonce-number";
  tag = zeros;
  ciphertext = text "s3cret";
}

read_blob : split (join parts) ≡ ok parts
unfolding split join slice byte_at text_eq
read_blob = refl

join-split_example : Fits parts × (join parts ≡ join parts)
unfolding join
join-split_example = join-split (join parts) parts (omega arith) read_blob

split-ne-panic_example : split (text "DWV1") ≢ err panic
split-ne-panic_example = split-ne-panic (text "DWV1")

abbrev configured : List (Text × Text)
configured = (text "local:v1", text "MDEyMzQ1Njc4OWFiY2RlZjAxMjM0NTY3ODlhYmNkZWY=") ∷ []

loaded : new_local_kek_provider (text "local:v1") configured ≡ ok before
unfolding new_local_kek_provider decode_keks std_decode kek_of text_eq
loaded = refl

new_local_kek_provider-IsValid_example : IsValid before × (before.active_kek ≡ text "local:v1")
new_local_kek_provider-IsValid_example =
    new_local_kek_provider-IsValid (text "local:v1") configured loaded

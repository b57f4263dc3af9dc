-- ===== src/Crypto/Total.antt =====
-- With enough random bytes Encrypt returns, and what it returns can be read back, also after
-- another KEK has become the active one.
use donkey_work_vault.Base.{
  ℕ, ◌+◌, ◌-◌, ◌≤◌, ◌≡◌, refl, ◌∙◌, arith, List, [], ◌∷◌, ◌++◌, Text, length, length-append,
  length-take, length-drop, take, drop, All, some, ok,
}
use donkey_work_vault.Crypto.{nonce_size, tag_size, dek_size, Aead, IsAead, read_full}
use donkey_work_vault.Crypto.Blob.{join}
use donkey_work_vault.Crypto.Envelope.{assemble, encrypt, decrypt}
use donkey_work_vault.Crypto.LocalKek.{kek_of, LocalKekProvider, wrap, as_kek_provider}
use donkey_work_vault.Crypto.RoundTrip.{check_key_dek, decrypt-encrypt}
use donkey_work_vault.Crypto.Rotation.{IsValid, unwrap-wrap}

read_full_total : (n : ℕ) (s : Text) → n ≤ length s → read_full n s ≡ (ok (take n s), drop n s)
unfolding read_full
read_full_total n s h = ground arith

kek_of-sized :
    (id key : Text) (m : List (Text × Text))
    → All (λ (e : Text × Text). length e.1 ≡ 32) m
    → kek_of id m ≡ some key
    → length key ≡ 32
unfolding kek_of
kek_of-sized id key [] h e = ground arith
kek_of-sized id key ((k, v) ∷ m) h e = ground (arith, kek_of-sized id key m)

assemble_total :
    (kek_id wrapped nonce sealed : Text)
    → length kek_id ≤ 0xFF
    → length wrapped ≤ 0xFFFF
    → (blob : Text) × (assemble kek_id wrapped nonce sealed ≡ ok blob)
unfolding assemble
assemble_total kek_id wrapped nonce sealed k w = (
  join (record {
    kek_id = kek_id;
    wrapped_dek = wrapped;
    nonce = nonce;
    tag = drop (length sealed - tag_size) sealed;
    ciphertext = take (length sealed - tag_size) sealed;
  }),
  ground arith,
)

module _ (aead : Aead) (laws : IsAead aead) where
  wrap_total :
      (p : LocalKekProvider) (key dek s : Text)
      → kek_of p.active_kek p.keks ≡ some key
      → length key ≡ 32
      → nonce_size ≤ length s
      → (w : Text) × (wrap aead p dek s ≡ (ok w, drop nonce_size s))
        × (length w ≡ nonce_size + tag_size + length dek)
  unfolding wrap
  wrap_total p key dek s found l h =
      let nonce = take nonce_size s in
      let sealed = aead.seal key nonce dek in
      let n = length sealed - tag_size in
      (
        nonce ++ (drop n sealed ++ take n sealed),
        rw (found, check_key_dek key l, read_full_total nonce_size s h) refl,
        omega (
          arith,
          length-append nonce (drop n sealed ++ take n sealed),
          length-append (drop n sealed) (take n sealed),
          length-take nonce_size s,
          length-take n sealed,
          length-drop n sealed,
          laws.length-seal key nonce dek (ground arith, omega (arith, length-take nonce_size s)),
        ),
      )

  -- For an AES-GCM with its laws: with 56 random bytes, Encrypt under a valid provider whose active id has at most 255 bytes
  -- returns a blob, and Decrypt gives back the plaintext from it under every provider that has the
  -- same key under that id, whatever its own active id is.
  pub encrypt_then_rotate :
      (p q : LocalKekProvider) (plaintext source : Text)
      → IsValid p
      → length p.active_kek ≤ 0xFF
      → kek_of p.active_kek q.keks ≡ kek_of p.active_kek p.keks
      → dek_size + nonce_size + nonce_size ≤ length source
      → (blob : Text) × (rest : Text) × (encrypt aead (as_kek_provider aead p) plaintext source
          ≡ (ok blob, rest))
        × (decrypt aead (as_kek_provider aead q) blob ≡ ok plaintext)
  unfolding encrypt
  encrypt_then_rotate p q plaintext source v l same h =
      let (key, found) = v.active in
      let dek = take dek_size source in
      let s1 = drop dek_size source in
      let nonce = take nonce_size s1 in
      let s2 = drop nonce_size s1 in
      let sized : length dek ≡ dek_size = omega (arith, length-take dek_size source) in
      let r1 = read_full_total dek_size source (omega arith) in
      let r2 = read_full_total nonce_size s1 (omega (arith, length-drop dek_size source)) in
      let (w, wrapped, lw) =
        wrap_total p key dek s2 found (kek_of-sized p.active_kek key p.keks v.sized found)
          (omega (arith, length-drop nonce_size s1, length-drop dek_size source)) in
      let (blob, made) =
        assemble_total p.active_kek w nonce (aead.seal dek nonce plaintext) l
          (omega (arith, lw, sized)) in
      let done : encrypt aead (as_kek_provider aead p) plaintext source
          ≡ (ok blob, drop nonce_size s2) =
        rw (r1, check_key_dek dek sized, r2, wrapped, made) refl in
      (
        blob,
        drop nonce_size s2,
        done,
        decrypt-encrypt aead laws _ _ (unwrap-wrap aead laws p q key found (same ∙ found)) plaintext
            source done,
      )

-- ===== src/Crypto/RoundTrip.antt =====
-- Decrypt gives back what Encrypt was given.
use donkey_work_vault.Base.{
  ℕ, ◌-◌, ◌≡◌, refl, ap, arith, ◌++◌, Text, length, length-take, length-drop, take, drop,
  take-append-drop, ok, Result,
}
use mathlib.Core.Path.{subst}
use donkey_work_vault.Base.Exec.{>>=-eq-ok}
use donkey_work_vault.Crypto.{
  nonce_size, tag_size, dek_size, Aead, IsAead, Usable, check_key, read_full, KekProvider, Opens,
}
use donkey_work_vault.Crypto.Blob.{Parts, join}
use donkey_work_vault.Crypto.Envelope.{assemble, encrypt, open_parts, decrypt}
use donkey_work_vault.Crypto.Format.{Fits, split-join}

pub length-read_full :
    (n : ℕ) (s : Text) {x rest : Text} → read_full n s ≡ (ok x, rest) → length x ≡ n
unfolding read_full
length-read_full n s h = ground (arith, length-take n s)

pub check_key-eq : (dek : Text) {key : Text} → check_key dek ≡ ok key → key ≡ dek
check_key-eq dek h = ground arith

pub check_key_dek : (dek : Text) → length dek ≡ dek_size → check_key dek ≡ ok dek
check_key_dek dek h = ground arith

module _ (aead : Aead) (laws : IsAead aead) where
  -- The tag is the last 16 bytes of what Seal gives, and putting the halves together again gives
  -- what Open takes.
  pub seal_halves :
      (key nonce p : Text)
      → Usable key nonce
      → let sealed = aead.seal key nonce p in
        let n = length sealed - tag_size in
        (length (drop n sealed) ≡ tag_size) × (take n sealed ++ drop n sealed ≡ sealed)
  seal_halves key nonce p u =
      let sealed = aead.seal key nonce p in
      let n = length sealed - tag_size in
      (
        omega (arith, length-drop n sealed, laws.length-seal key nonce p u),
        take-append-drop n sealed,
      )

  module _ (writer reader : KekProvider) (opens : Opens writer reader) where
    -- What a successful Encrypt wrote, and under which DEK.
    record Sealed (plaintext blob : Text) : Type 0 where
      dek : Text
      parts : Parts
      fits : Fits parts
      written : blob ≡ join parts
      unwrapped : reader.unwrap parts.kek_id parts.wrapped_dek ≡ ok dek
      usable : check_key dek ≡ ok dek
      good : Usable dek parts.nonce
      whole : parts.ciphertext ++ parts.tag ≡ aead.seal dek parts.nonce plaintext

    Sealed-of_assemble :
        (p dek nonce wrapped : Text) {blob : Text}
        → length dek ≡ dek_size
        → length nonce ≡ nonce_size
        → reader.unwrap writer.active_kek_id wrapped ≡ ok dek
        → assemble writer.active_kek_id wrapped nonce (aead.seal dek nonce p) ≡ ok blob
        → Sealed p blob
    unfolding assemble
    Sealed-of_assemble p dek nonce wrapped l n u h =
        let good : Usable dek nonce = (ground arith, n) in
        let sealed = aead.seal dek nonce p in
        let q : Parts = record {
          kek_id = writer.active_kek_id;
          wrapped_dek = wrapped;
          nonce = nonce;
          tag = drop (length sealed - tag_size) sealed;
          ciphertext = take (length sealed - tag_size) sealed;
        } in
        record {
          dek = dek;
          parts = q;
          fits = record {
            kek_id = ground arith;
            wrapped_dek = ground arith;
            nonce = n;
            tag = (seal_halves dek nonce p good).0;
          };
          written = ground arith;
          unwrapped = u;
          usable = check_key_dek dek l;
          good = good;
          whole = (seal_halves dek nonce p good).1;
        }

    Sealed-of_encrypt :
        (p s : Text) {blob rest : Text} → encrypt aead writer p s ≡ (ok blob, rest) → Sealed p blob
    unfolding encrypt
    Sealed-of_encrypt p s {blob} h =
        let (dek, s1, e1, h1) = >>=-eq-ok (read_full dek_size) _ s h in
        let (key, s2, e2, h2) = >>=-eq-ok (λ t. (check_key dek, t)) _ s1 h1 in
        let (nonce, s3, e3, h3) = >>=-eq-ok (read_full nonce_size) _ s2 h2 in
        let (wrapped, s4, e4, h4) = >>=-eq-ok (writer.wrap dek) _ s3 h3 in
        let l : length dek ≡ dek_size = length-read_full dek_size s e1 in
        let same : key ≡ dek = check_key-eq dek (ap (λ (x : Result Text × Text). x.0) e2) in
        let assembled = ap (λ (x : Result Text × Text). x.0) h4 in
        Sealed-of_assemble p dek nonce wrapped l (length-read_full nonce_size s2 e3)
          (opens.unwrap-wrap dek s3 wrapped s4 l e4)
          (subst (λ k. assemble writer.active_kek_id wrapped nonce (aead.seal k nonce p) ≡ ok blob)
            same assembled)

    -- For an AES-GCM with its laws: whatever blob Encrypt returns, Decrypt gives back the plaintext, if the reader's provider unwraps
    -- what the writer's wraps.
    pub decrypt-encrypt :
        (p s : Text) {blob rest : Text}
        → encrypt aead writer p s ≡ (ok blob, rest)
        → decrypt aead reader blob ≡ ok p
    unfolding decrypt open_parts
    decrypt-encrypt p s h =
        let w = Sealed-of_encrypt p s h in
        rw
          (
            w.written,
            split-join w.parts w.fits,
            w.unwrapped,
            w.usable,
            w.whole,
            laws.open-seal w.dek w.parts.nonce p w.good,
          )
          refl

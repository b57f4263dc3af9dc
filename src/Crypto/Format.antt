-- ===== src/Crypto/Format.antt =====
-- The layout of a blob: Decrypt reads back what Encrypt writes, reads nothing else, and does not
-- run out of range on any input.
mod Slices
pub mod Sound
use donkey_work_vault.Base.{
  ℕ, ◌+◌, ◌-◌, ◌*◌, ◌/◌, ◌%◌, ◌^◌, ◌≤◌, ◌<◌, ◌≡◌, ◌≢◌, refl, sym, ◌∙◌, inl, inr, arith, [], ◌∷◌,
  ◌++◌, Text, text, text_eq, text_eq_refl, length, length-append, take, drop, All, Bool-cases,
  panic, err, ok,
}
use donkey_work_vault.Crypto.{magic, version, nonce_size, tag_size}
use donkey_work_vault.Crypto.Blob.{slice, byte_at, be16, Parts, join, split}
use Slices.{slice_skip, slice_front, slice_whole, byte_at_skip, byte_at_first}

-- The sizes that the layout can carry.
pub record Fits (p : Parts) : Type 0 where
  pub kek_id : length p.kek_id ≤ 0xFF
  pub wrapped_dek : length p.wrapped_dek ≤ 0xFFFF
  pub nonce : length p.nonce ≡ nonce_size
  pub tag : length p.tag ≡ tag_size

module _ (p : Parts) (h : Fits p) where
  open p use {kek_id, wrapped_dek, nonce, tag, ciphertext}

  abbrev id_len : ℕ
  id_len = length kek_id

  abbrev dek_len : ℕ
  dek_len = length wrapped_dek

  -- The blob behind its first six bytes, behind the KEK id, and behind the wrapped DEK.
  abbrev from_dek : Text
  from_dek = be16 dek_len ++ (wrapped_dek ++ (nonce ++ (tag ++ ciphertext)))

  abbrev header : Text
  header = magic ++ version ∷ (id_len % 2 ^ 8) ∷ []

  join_lem : join p ≡ header ++ (kek_id ++ from_dek)
  unfolding join
  join_lem = refl

  length-join :
      length (join p) ≡ 6 + id_len + 2 + dek_len + nonce_size + tag_size + length ciphertext
  unfolding join
  length-join = omega (
    arith,
    length-append kek_id from_dek,
    length-append wrapped_dek (nonce ++ (tag ++ ciphertext)),
    length-append nonce (tag ++ ciphertext),
    length-append tag ciphertext,
    h.nonce,
    h.tag,
  )

  id_len-byte : byte_at (join p) 5 ≡ ok id_len
  unfolding join byte_at
  id_len-byte = let e : id_len % 256 ≡ id_len = omega (arith, h.kek_id) in rw e

  slice-kek_id : slice (join p) 6 (6 + id_len) ≡ ok kek_id
  slice-kek_id = rw join_lem (
      slice_skip header (kek_id ++ from_dek) 6 (6 + id_len) 0 id_len (omega arith) (omega arith)
      ∙ slice_front kek_id from_dek id_len refl)

  byte_at_dek : (i j : ℕ) → i ≡ 6 + id_len + j → byte_at (join p) i ≡ byte_at from_dek j
  byte_at_dek i j e = rw join_lem (
      byte_at_skip header (kek_id ++ from_dek) i (id_len + j) (omega arith)
      ∙ byte_at_skip kek_id from_dek (id_len + j) j refl)

  slice_dek :
      (lo hi a b : ℕ)
      → lo ≡ 6 + id_len + a
      → hi ≡ 6 + id_len + b
      → slice (join p) lo hi ≡ slice from_dek a b
  slice_dek lo hi a b l e = rw join_lem (
      slice_skip header (kek_id ++ from_dek) lo hi (id_len + a) (id_len + b) (omega arith)
        (omega arith)
      ∙ slice_skip kek_id from_dek (id_len + a) (id_len + b) a b refl refl)

  take-magic : take 4 (join p) ≡ magic
  unfolding join
  take-magic = refl

  version-byte : byte_at (join p) 4 ≡ ok version
  unfolding join byte_at
  version-byte = refl

  hi-byte : byte_at (join p) (6 + id_len) ≡ ok (dek_len % 2 ^ 16 / 256)
  unfolding byte_at
  hi-byte = byte_at_dek (6 + id_len) 0 (omega arith)

  lo-byte : byte_at (join p) (6 + id_len + 1) ≡ ok (dek_len % 2 ^ 16 % 256)
  unfolding byte_at
  lo-byte = byte_at_dek (6 + id_len + 1) 1 (omega arith)

  dek_len-bytes : dek_len % 2 ^ 16 / 256 * 256 + dek_len % 2 ^ 16 % 256 ≡ dek_len
  dek_len-bytes = omega (arith, h.wrapped_dek)

  slice-wrapped_dek : slice (join p) (6 + id_len + 2) (6 + id_len + 2 + dek_len) ≡ ok wrapped_dek
  slice-wrapped_dek =
      slice_dek (6 + id_len + 2) (6 + id_len + 2 + dek_len) 2 (2 + dek_len) (omega arith)
        (omega arith)
      ∙ slice_skip (be16 dek_len) _ 2 (2 + dek_len) 0 dek_len (omega arith) (omega arith)
      ∙ slice_front wrapped_dek _ dek_len refl

  -- The slices behind the wrapped DEK.
  slice_tail :
      (lo hi a b : ℕ)
      → lo ≡ 6 + id_len + 2 + dek_len + a
      → hi ≡ 6 + id_len + 2 + dek_len + b
      → slice (join p) lo hi ≡ slice (nonce ++ (tag ++ ciphertext)) a b
  slice_tail lo hi a b l e =
      slice_dek lo hi (2 + dek_len + a) (2 + dek_len + b) (omega arith) (omega arith)
      ∙ slice_skip (be16 dek_len) _ _ _ (dek_len + a) (dek_len + b) (omega arith) (omega arith)
      ∙ slice_skip wrapped_dek _ _ _ a b refl refl

  abbrev tail_at : ℕ
  tail_at = 6 + id_len + 2 + dek_len

  slice-nonce : slice (join p) tail_at (tail_at + nonce_size) ≡ ok nonce
  slice-nonce =
      slice_tail tail_at (tail_at + nonce_size) 0 nonce_size (omega arith) (omega arith)
      ∙ slice_front nonce _ nonce_size (sym h.nonce)

  slice-tag : slice (join p) (tail_at + nonce_size) (tail_at + nonce_size + tag_size) ≡ ok tag
  slice-tag =
      slice_tail _ _ nonce_size (nonce_size + tag_size) (omega arith) (omega arith)
      ∙ slice_skip nonce _ _ _ 0 tag_size (omega (arith, h.nonce)) (omega (arith, h.nonce))
      ∙ slice_front tag _ tag_size (sym h.tag)

  slice-ciphertext :
      slice (join p) (tail_at + nonce_size + tag_size) (length (join p)) ≡ ok ciphertext
  slice-ciphertext =
      slice_tail _ _ (nonce_size + tag_size) (nonce_size + (tag_size + length ciphertext))
        (omega arith) (omega (arith, length-join))
      ∙ slice_skip nonce _ _ _ tag_size (tag_size + length ciphertext) (omega (arith, h.nonce))
          (omega (arith, h.nonce))
      ∙ slice_skip tag _ _ _ 0 (length ciphertext) (omega (arith, h.tag)) (omega (arith, h.tag))
      ∙ slice_whole ciphertext

  -- Decrypt's reader gives back the parts that Encrypt's writer was given, if they fit.
  pub split-join : split (join p) ≡ ok p
  unfolding split
  split-join = ground (
    arith,
    take-magic,
    text_eq_refl magic,
    version-byte,
    id_len-byte,
    length-join,
    slice-kek_id,
    hi-byte,
    lo-byte,
    dek_len-bytes,
    slice-wrapped_dek,
    slice-nonce,
    slice-tag,
    slice-ciphertext,
  )

-- ===== src/Crypto/Blob.antt =====
-- crypto.go: the layout of a blob, as Encrypt writes it and Decrypt reads it. A slice or an index
-- out of range is the error `panic`, so that its absence is a theorem.
use donkey_work_vault.Base.{
  ℕ, ◌+◌, ◌-◌, ◌*◌, ◌/◌, ◌%◌, ◌^◌, [], ◌∷◌, ◌++◌, not, Text, text, text_eq, length, take, drop, leb,
  ltb, ◌==◌, ◌||◌, if◌then◌else◌, plain, panic, Result, ok, err, check,
}
use donkey_work_vault.Base.Fallible.{◌>>=◌, ◌>>◌}
use donkey_work_vault.Crypto.{magic, version, nonce_size, tag_size}

-- b[lo:hi]
unfoldable pub slice : Text → ℕ → ℕ → Result Text
slice b lo hi =
    if leb lo hi
    then (if leb hi (length b) then ok (take (hi - lo) (drop lo b)) else err panic)
    else err panic

-- b[i]
unfoldable pub byte_at : Text → ℕ → Result ℕ
byte_at [] i = err panic
byte_at (c ∷ b) i = let rest = byte_at b (i - 1) in if i == 0 then ok c else rest

-- binary.BigEndian.AppendUint16 of uint16(n)
abbrev pub be16 : ℕ → Text
be16 n = (n % 2 ^ 16 / 256) ∷ (n % 2 ^ 16 % 256) ∷ []

-- The parts of a blob.
pub record Parts : Type 0 where
  pub kek_id : Text
  pub wrapped_dek : Text
  pub nonce : Text
  pub tag : Text
  pub ciphertext : Text

-- The appends at the end of Encrypt.
unfoldable pub join : Parts → Text
join p =
    magic
    ++ version
      ∷ (length p.kek_id % 2 ^ 8)
      ∷ (p.kek_id
          ++ (be16 (length p.wrapped_dek)
              ++ (p.wrapped_dek ++ (p.nonce ++ (p.tag ++ p.ciphertext)))))

-- Decrypt up to the call of Unwrap: the parts of a blob, or the first check that fails.
unfoldable pub split : Text → Result Parts
split blob =
    if ltb (length blob) (length magic + 2) || not (text_eq (take (length magic) blob) magic)
    then err (plain (text "not a recognized envelope blob (bad magic)"))
    else do
      v ← byte_at blob 4
      check (v == version) (plain (text "unsupported envelope version"))
      kek_id_len ← byte_at blob 5
      check (leb (6 + kek_id_len + 2) (length blob)) (plain (text "envelope truncated (kekId)"))
      kek_id ← slice blob 6 (6 + kek_id_len)
      let o = 6 + kek_id_len
      hi ← byte_at blob o
      lo ← byte_at blob (o + 1)
      let wrapped_len = hi * 256 + lo
      check (leb (o + 2 + wrapped_len + nonce_size + tag_size) (length blob))
          (plain (text "envelope truncated (body)"))
      wrapped_dek ← slice blob (o + 2) (o + 2 + wrapped_len)
      let p = o + 2 + wrapped_len
      nonce ← slice blob p (p + nonce_size)
      tag ← slice blob (p + nonce_size) (p + nonce_size + tag_size)
      ciphertext ← slice blob (p + nonce_size + tag_size) (length blob)
      ok (record {
        kek_id = kek_id;
        wrapped_dek = wrapped_dek;
        nonce = nonce;
        tag = tag;
        ciphertext = ciphertext;
      })

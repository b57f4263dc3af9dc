-- ===== src/Crypto/Format/Sound.antt =====
-- What Decrypt's reader accepts is what Encrypt's writer writes, and no input makes it panic.
use donkey_work_vault.Base.{
  ℕ, suc, zero, ◌+◌, ◌-◌, ◌*◌, ◌%◌, ◌≤◌, ◌<◌, ◌≡◌, ◌≢◌, refl, sym, ap, ◌∙◌, arith, [], ◌∷◌, ◌++◌,
  Text, text_eq_iff, length, length-take, length-drop, take, drop, take-append-drop, All, ok, err,
  panic,
}
use mathlib.Core.Path.{subst}
use donkey_work_vault.Crypto.{magic, version, nonce_size, tag_size}
use donkey_work_vault.Crypto.Blob.{slice, byte_at, be16, Parts, join, split}
use donkey_work_vault.Crypto.Format.{Fits, split-join}

-- The value of an index, where it is in range.
nth : Text → ℕ → ℕ
nth [] i = 0
nth (c ∷ s) zero = c
nth (c ∷ s) (suc i) = nth s i

byte_at-nth : (s : Text) (i : ℕ) → i < length s → byte_at s i ≡ ok (nth s i)
unfolding byte_at nth
byte_at-nth [] i h = absurd (omega arith)
byte_at-nth (c ∷ s) zero h = refl
byte_at-nth (c ∷ s) (suc i) h =
    let e : suc i - 1 ≡ i = omega arith in rw e (ground (arith, byte_at-nth s i))

slice_in :
    (s : Text) (lo hi : ℕ)
    → lo ≤ hi
    → hi ≤ length s
    → slice s lo hi ≡ ok (take (hi - lo) (drop lo s))
unfolding slice
slice_in s lo hi l h = ground arith

-- The body's length, as the reader finds it.
abbrev id_at : Text → ℕ
id_at b = nth b 5

abbrev dek_at : Text → ℕ
dek_at b = nth b (6 + id_at b) * 256 + nth b (6 + id_at b + 1)

-- Decrypt's reader runs out of range on no input: it returns parts, or one of its own errors.
pub split-ne-panic : (b : Text) → split b ≢ err panic
unfolding split
split-ne-panic b = ground (
  arith,
  byte_at-nth b 4,
  byte_at-nth b 5,
  byte_at-nth b (6 + id_at b),
  byte_at-nth b (6 + id_at b + 1),
  slice_in b 6 (6 + id_at b),
  slice_in b (6 + id_at b + 2) (6 + id_at b + 2 + dek_at b),
  slice_in b (6 + id_at b + 2 + dek_at b) (6 + id_at b + 2 + dek_at b + nonce_size),
  slice_in b (6 + id_at b + 2 + dek_at b + nonce_size)
      (6 + id_at b + 2 + dek_at b + nonce_size + tag_size),
  slice_in b (6 + id_at b + 2 + dek_at b + nonce_size + tag_size) (length b),
)

-- What the reader has checked when it returns.
record Accepted (b : Text) : Type 0 where
  starts : take 4 b ≡ magic
  versioned : nth b 4 ≡ version
  holds : 6 + id_at b + 2 + dek_at b + nonce_size + tag_size ≤ length b

Accepted-of_split : (b : Text) (p : Parts) → split b ≡ ok p → Accepted b
unfolding split
Accepted-of_split b p h = ground (
  arith,
  text_eq_iff (take 4 b) magic,
  byte_at-nth b 4,
  byte_at-nth b 5,
  byte_at-nth b (6 + id_at b),
  byte_at-nth b (6 + id_at b + 1),
)

abbrev pub AreBytes : Text → Type 0
AreBytes = All (λ c. c < 256)

AreBytes-nth : (s : Text) (i : ℕ) → AreBytes s → nth s i < 256
unfolding nth
AreBytes-nth [] i h = omega arith
AreBytes-nth (c ∷ s) zero h = h.0
AreBytes-nth (c ∷ s) (suc i) h = AreBytes-nth s i h.1

be16_of_bytes : (n hi lo : ℕ) → hi < 256 → lo < 256 → n ≡ hi * 256 + lo → be16 n ≡ hi ∷ lo ∷ []
be16_of_bytes n hi lo h l e = ground arith

AreBytes-drop : (n : ℕ) (s : Text) → AreBytes s → AreBytes (drop n s)
AreBytes-drop zero s h = h
AreBytes-drop (suc n) [] h = tt
AreBytes-drop (suc n) (c ∷ s) h = AreBytes-drop n s h.1

nth-drop : (n i : ℕ) (s : Text) → nth (drop n s) i ≡ nth s (n + i)
unfolding nth
nth-drop zero i s = let e : 0 + i ≡ i = omega arith in rw e
nth-drop (suc n) i [] = refl
nth-drop (suc n) i (c ∷ s) = let e : suc n + i ≡ suc (n + i) = omega arith in rw e (nth-drop n i s)

-- The body behind the KEK id.
record Body (s : Text) : Type 0 where
  wrapped_dek : Text
  nonce : Text
  tag : Text
  ciphertext : Text
  laid_out : s ≡ be16 (length wrapped_dek) ++ (wrapped_dek ++ (nonce ++ (tag ++ ciphertext)))
  length_nonce : length nonce ≡ nonce_size
  length_tag : length tag ≡ tag_size
  fits : length wrapped_dek ≤ 0xFFFF

Body-of_bytes :
    (s : Text)
    → AreBytes s
    → 2 + (nth s 0 * 256 + nth s 1) + nonce_size + tag_size ≤ length s
    → Body s
unfolding nth
Body-of_bytes (hi ∷ lo ∷ s) bytes h =
    let d = hi * 256 + lo in
    let u = drop d s in
    let v = drop nonce_size u in
    let ld : length (take d s) ≡ d = omega (arith, length-take d s) in
    record {
      wrapped_dek = take d s;
      nonce = take nonce_size u;
      tag = take tag_size v;
      ciphertext = drop tag_size v;
      laid_out =
          rw (take-append-drop tag_size v, take-append-drop nonce_size u, take-append-drop d s)
            (ap (λ (t : Text). t ++ s)
              (sym (be16_of_bytes (length (take d s)) hi lo bytes.0 bytes.1.0 ld)));
      length_nonce = omega (arith, length-take nonce_size u, length-drop d s);
      length_tag = omega (arith, length-take tag_size v, length-drop nonce_size u, length-drop d s);
      fits = omega (arith, bytes.0, bytes.1.0);
    }
Body-of_bytes _ bytes h = absurd (omega arith)

-- What the reader accepts is laid out as the writer lays it out.
join_of_Accepted : (b : Text) → AreBytes b → Accepted b → (q : Parts) × Fits q × (join q ≡ b)
unfolding join nth
join_of_Accepted (c0 ∷ c1 ∷ c2 ∷ c3 ∷ c4 ∷ n ∷ r) bytes a =
    let rest = AreBytes-drop 6 (c0 ∷ c1 ∷ c2 ∷ c3 ∷ c4 ∷ n ∷ r) bytes in
    let b : Text = c0 ∷ c1 ∷ c2 ∷ c3 ∷ c4 ∷ n ∷ r in
    let first : nth r (n + 0) ≡ nth b (6 + n) =
      let e : n + 0 ≡ n = omega arith in rw e (nth-drop 6 n b) in
    let second : nth b (6 + n + 1) ≡ nth r (n + 1) =
      let e : 6 + n + 1 ≡ 6 + (n + 1) = omega arith in rw e (sym (nth-drop 6 (n + 1) b)) in
    let body =
      Body-of_bytes (drop n r) (AreBytes-drop n r rest)
        (omega (arith, a.holds, nth-drop n 0 r, nth-drop n 1 r, length-drop n r, first, second)) in
    let lk : length (take n r) ≡ n = omega (arith, length-take n r, a.holds) in
    let q : Parts = record {
      kek_id = take n r;
      wrapped_dek = body.wrapped_dek;
      nonce = body.nonce;
      tag = body.tag;
      ciphertext = body.ciphertext;
    } in
    (
      q,
      record {
        kek_id = omega (arith, bytes.1.1.1.1.1.0);
        wrapped_dek = body.fits;
        nonce = body.length_nonce;
        tag = body.length_tag;
      },
      let e : take n r
                ++ (be16 (length body.wrapped_dek)
                    ++ (body.wrapped_dek ++ (body.nonce ++ (body.tag ++ body.ciphertext))))
              ≡ r =
            ap (λ (u : Text). take n r ++ u) (sym body.laid_out) ∙ take-append-drop n r in
          let m : length (take n r) % 256 ≡ n = omega (arith, bytes.1.1.1.1.1.0) in
          cc (e, m, a.starts, a.versioned),
    )
join_of_Accepted _ bytes a = absurd (omega (arith, a.holds))

-- Whatever blob of bytes the reader accepts, the parts that it returns fit, and writing them gives the blob.
pub join-split : (b : Text) (p : Parts) → AreBytes b → split b ≡ ok p → Fits p × (join p ≡ b)
join-split b p bytes h =
    let (q, fits, e) = join_of_Accepted b bytes (Accepted-of_split b p h) in
    let s : split b ≡ ok q = subst (λ t. split t ≡ ok q) e (split-join q fits) in
    let same : q ≡ p = cc (s, h) in (rw (← same) fits, rw (← same) e)

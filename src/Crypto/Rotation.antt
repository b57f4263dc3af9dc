-- ===== src/Crypto/Rotation.antt =====
-- localkek.go: what the constructor checks, and that keys stay usable when the active one changes.
use mathlib.Core.Path.{subst}
use mathlib.Core.List.{append_assoc}
use donkey_work_vault.Base.{
  false, true, ◌+◌, ◌-◌, ◌≡◌, refl, sym, ap, ◌∙◌, inl, inr, arith, List, [], ◌∷◌, ◌++◌, Text,
  length, length-append, take, drop, take-length-append, drop-length-append, All, Option,
  Option-cases, is_empty, some, ok, Result, Result-cases,
}
use donkey_work_vault.Base.Exec.{>>=-eq-ok}
use donkey_work_vault.Crypto.{
  valid_key_size, nonce_size, tag_size, Aead, IsAead, Usable, check_key, read_full, Opens,
}
use donkey_work_vault.Crypto.LocalKek.{
  kek_of, or_nil, LocalKekProvider, decode_keks, new_local_kek_provider, wrap, unwrap,
  as_kek_provider,
}
use donkey_work_vault.Crypto.RoundTrip.{length-read_full, check_key-eq, seal_halves}

-- A provider as the constructor leaves it: every key has 32 bytes, and the active id has one.
pub record IsValid (p : LocalKekProvider) : Type 0 where
  pub sized : All (λ (e : Text × Text). length e.1 ≡ 32) p.keks
  pub named : is_empty p.active_kek ≡ false
  pub active : (key : Text) × (kek_of p.active_kek p.keks ≡ some key)

decode_keks-sized :
    (m : List (Text × Text)) {keks : List (Text × Text)}
    → decode_keks m ≡ ok keks
    → All (λ (e : Text × Text). length e.1 ≡ 32) keks
unfolding decode_keks
decode_keks-sized [] h = ground arith
decode_keks-sized ((id, b64) ∷ m) h = elim (Result-cases (decode_keks m)) [
  | inl (more, e) ↦ ground (arith, decode_keks-sized m e)
  | inr (x, e) ↦ ground arith
]

-- NewLocalKekProvider returns only valid providers.
pub new_local_kek_provider-IsValid :
    (active : Text) (m : List (Text × Text)) {p : LocalKekProvider}
    → new_local_kek_provider active m ≡ ok p
    → IsValid p × (p.active_kek ≡ active)
unfolding new_local_kek_provider
new_local_kek_provider-IsValid active m {p} h = elim (Result-cases (decode_keks m)) [
  | inl (keks, e) ↦ elim (Option-cases (kek_of active keks)) [
    | inl missing ↦ ground arith
    | inr (key, found) ↦
        let made : record { keks = keks; active_kek = active } ≡ p = ground arith in
        subst (λ (t : LocalKekProvider). IsValid t × (t.active_kek ≡ active)) made
          (
            record { sized = decode_keks-sized m e; named = ground arith; active = (key, found) },
            refl,
          )
  ]
  | inr (x, e) ↦ ground arith
]

check_key-valid :
    (key : Text) {k : Text} → check_key key ≡ ok k → valid_key_size (length key) ≡ true
check_key-valid key h = ground arith

module _ (aead : Aead) (laws : IsAead aead) where
  wrapped_parts :
      (nonce tag ct : Text)
      → length nonce ≡ nonce_size
      → length tag ≡ tag_size
      → let w = nonce ++ (tag ++ ct) in
        (take nonce_size w ≡ nonce)
        × (take tag_size (drop nonce_size w) ≡ tag)
        × (drop (nonce_size + tag_size) w ≡ ct)
  wrapped_parts nonce tag ct n t = (
    take-length-append nonce_size nonce (tag ++ ct) (sym n),
    rw (drop-length-append nonce_size nonce (tag ++ ct) (sym n))
        (take-length-append tag_size tag ct (sym t)),
    rw (← append_assoc nonce tag ct) (
        drop-length-append (nonce_size + tag_size) (nonce ++ tag) ct
          (omega (arith, length-append nonce tag, n, t))),
  )

  -- The wrapped DEK is nonce, tag and ciphertext, sealed by the active key.
  record Wrapped (key dek wrapped : Text) : Type 0 where
    nonce : Text
    length_nonce : length nonce ≡ nonce_size
    good : Usable key nonce
    usable : check_key key ≡ ok key
    laid_out :
        let sealed = aead.seal key nonce dek in
        let n = length sealed - tag_size in wrapped ≡ nonce ++ (drop n sealed ++ take n sealed)

  Wrapped-of_wrap :
      (p : LocalKekProvider) (key dek source : Text) {wrapped rest : Text}
      → kek_of p.active_kek p.keks ≡ some key
      → wrap aead p dek source ≡ (ok wrapped, rest)
      → Wrapped key dek wrapped
  unfolding wrap
  Wrapped-of_wrap p key dek source {wrapped} hp h =
      let (k, s1, e1, h1) =
        >>=-eq-ok (λ t. (check_key (or_nil (kek_of p.active_kek p.keks)), t)) _ source h in
      let (nonce, s2, e2, h2) = >>=-eq-ok (read_full nonce_size) _ s1 h1 in
      let found : check_key key ≡ ok k =
        ap (λ (o : Option Text). check_key (or_nil o)) (sym hp)
        ∙ ap (λ (x : Result Text × Text). x.0) e1 in
      let same : k ≡ key = check_key-eq key found in
      record {
        nonce = nonce;
        length_nonce = length-read_full nonce_size s1 e2;
        good = (check_key-valid key found, length-read_full nonce_size s1 e2);
        usable = subst (λ (t : Text). check_key key ≡ ok t) same found;
        laid_out =
            subst
              (λ (t : Text).
                wrapped
                ≡ nonce
                  ++ (drop (length (aead.seal t nonce dek) - tag_size) (aead.seal t nonce dek)
                      ++ take (length (aead.seal t nonce dek) - tag_size) (aead.seal t nonce dek)))
              same (cc h2);
      }

  -- For an AES-GCM with its laws: what a provider wraps, any provider that has its active key under the same id unwraps.
  pub unwrap-wrap :
      (p q : LocalKekProvider) (key : Text)
      → kek_of p.active_kek p.keks ≡ some key
      → kek_of p.active_kek q.keks ≡ some key
      → Opens (as_kek_provider aead p) (as_kek_provider aead q)
  unfolding unwrap
  unwrap-wrap p q key hp hq = record {
    unwrap-wrap = λ dek source wrapped rest l h.
        let w = Wrapped-of_wrap p key dek source hp h in
        let sealed = aead.seal key w.nonce dek in
        let n = length sealed - tag_size in
        let (lt, whole) = seal_halves aead laws key w.nonce dek w.good in
        let (e1, e2, e3) =
          wrapped_parts w.nonce (drop n sealed) (take n sealed) w.length_nonce lt in
        rw (hq, w.laid_out, e1, e2, e3, w.usable, whole, laws.open-seal key w.nonce dek w.good)
          (ground (
            arith,
            length-append w.nonce (drop n sealed ++ take n sealed),
            w.length_nonce,
            lt,
            length-append (drop n sealed) (take n sealed),
          ));
  }

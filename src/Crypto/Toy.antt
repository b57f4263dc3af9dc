-- ===== src/Crypto/Toy.antt =====
-- A stand-in for AES-GCM that keeps its length and authentication laws, for the concrete inputs.
use donkey_work_vault.Base.{
  ◌-◌, ◌≡◌, refl, sym, ◌∙◌, arith, [], ◌∷◌, ◌++◌, ◌&&◌, Text, text_eq, text_eq_iff, text_eq_refl,
  length, length-append, take, drop, take-append-drop, take-length-append, drop-length-append, leb,
  Option, some, none, if◌then◌else◌,
}
use donkey_work_vault.Crypto.{tag_size, Aead, IsAead}

abbrev pub zeros : Text
zeros = 0 ∷ 0 ∷ 0 ∷ 0 ∷ 0 ∷ 0 ∷ 0 ∷ 0 ∷ 0 ∷ 0 ∷ 0 ∷ 0 ∷ 0 ∷ 0 ∷ 0 ∷ 0 ∷ []

unfoldable pub toy_open : Text → Option Text
toy_open s =
    if leb tag_size (length s) && text_eq (drop (length s - tag_size) s) zeros
    then some (take (length s - tag_size) s)
    else none

abbrev pub toy : Aead
toy = record { seal = λ key nonce p. p ++ zeros; open_sealed = λ key nonce s. toy_open s }

front : (p : Text) → length (p ++ zeros) - tag_size ≡ length p
front p = omega (arith, length-append p zeros)

toy-open : (p : Text) → toy_open (p ++ zeros) ≡ some p
unfolding toy_open
toy-open p =
    rw
      (
        front p,
        drop-length-append (length p) p zeros refl,
        take-length-append (length p) p zeros refl,
      )
      (ground (arith, text_eq_refl zeros, length-append p zeros))

toy_sound : (s p : Text) → toy_open s ≡ some p → s ≡ p ++ zeros
unfolding toy_open
toy_sound s p h =
    let n = length s - tag_size in
    let rest : drop n s ≡ zeros = ground (arith, text_eq_iff (drop n s) zeros) in
    let kept : take n s ≡ p = ground arith in sym (take-append-drop n s) ∙ (λ i. kept i ++ rest i)

pub toy-IsAead : IsAead toy
toy-IsAead = record {
  length-seal = λ key nonce p u. length-append p zeros;
  open-seal = λ key nonce p u. toy-open p;
  open_sound = λ key nonce s p u h. toy_sound s p h;
}

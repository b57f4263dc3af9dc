-- ===== src/Crypto/Format/Slices.antt =====
-- Reading at an offset of a concatenation.
use donkey_work_vault.Base.{
  ℕ, suc, zero, ◌+◌, ◌-◌, ◌≡◌, refl, ap, arith, [], ◌∷◌, ◌++◌, Text, length, length-append, take,
  drop, take-length-append, ok,
}
use donkey_work_vault.Crypto.Blob.{slice, byte_at}

drop-append : (n : ℕ) (xs ys : Text) (a : ℕ) → n ≡ length xs + a → drop n (xs ++ ys) ≡ drop a ys
drop-append n [] ys a h = let e : n ≡ a = omega arith in rw e
drop-append zero (x ∷ xs) ys a h = absurd (omega arith)
drop-append (suc n) (x ∷ xs) ys a h = drop-append n xs ys a (omega arith)

pub slice_skip :
    (xs ys : Text) (lo hi a b : ℕ)
    → lo ≡ length xs + a
    → hi ≡ length xs + b
    → slice (xs ++ ys) lo hi ≡ slice ys a b
unfolding slice
slice_skip xs ys lo hi a b l h =
    rw (drop-append lo xs ys a l)
      (let e : hi - lo ≡ b - a = omega arith in rw e (ground (arith, length-append xs ys)))

pub slice_front : (xs ys : Text) (hi : ℕ) → hi ≡ length xs → slice (xs ++ ys) 0 hi ≡ ok xs
unfolding slice
slice_front xs ys hi h =
    let e : hi - 0 ≡ hi = omega arith in
    rw (e, take-length-append hi xs ys h) (ground (arith, length-append xs ys))

take_all : (s : Text) → take (length s) s ≡ s
take_all [] = refl
take_all (c ∷ s) = ap (λ (t : Text). c ∷ t) (take_all s)

pub slice_whole : (s : Text) → slice s 0 (length s) ≡ ok s
unfolding slice
slice_whole s = let e : length s - 0 ≡ length s = omega arith in rw (e, take_all s) (ground arith)

pub byte_at_skip :
    (xs ys : Text) (i j : ℕ) → i ≡ length xs + j → byte_at (xs ++ ys) i ≡ byte_at ys j
unfolding byte_at
byte_at_skip [] ys i j h = let e : i ≡ j = omega arith in rw e
byte_at_skip (x ∷ xs) ys i j h = ground (arith, byte_at_skip xs ys (i - 1) j)

pub byte_at_first : (c : ℕ) (s : Text) → byte_at (c ∷ s) 0 ≡ ok c
unfolding byte_at
byte_at_first c s = refl

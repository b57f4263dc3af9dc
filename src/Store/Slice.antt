-- ===== src/Store/Slice.antt =====
-- Slices of a sorted list, for the pages of the audit trail in memstore.go.
use donkey_work_vault.Base.{
  ℕ, zero, suc, ◌+◌, ◌≡◌, ◌≤◌, ◌++◌, refl, ap, ◌∙◌, arith, Bool, List, [], ◌∷◌, take-All, take,
  drop, length,
}
use donkey_work_vault.Base.Sort.{insert, sort_slice, InOrder}

module _ {A : Type 0} (less : A → A → Bool) where
  pub InOrder-drop : (n : ℕ) (xs : List A) → InOrder less xs → InOrder less (drop n xs)
  InOrder-drop zero xs h = h
  InOrder-drop (suc n) [] h = h
  InOrder-drop (suc n) (x ∷ xs) h = InOrder-drop n xs h.1

  pub InOrder-take : (n : ℕ) (xs : List A) → InOrder less xs → InOrder less (take n xs)
  InOrder-take zero xs h = tt
  InOrder-take (suc n) [] h = h
  InOrder-take (suc n) (x ∷ xs) h = (take-All _ n xs h.0, InOrder-take n xs h.1)

length-insert :
    {A : Type 0} (less : A → A → Bool) (x : A) (xs : List A)
    → length (insert less x xs) ≡ suc (length xs)
unfolding insert
length-insert less x [] = refl
length-insert less x (y ∷ ys) = ground (arith, length-insert less x ys)

pub length-sort_slice :
    {A : Type 0} (less : A → A → Bool) (xs : List A) → length (sort_slice less xs) ≡ length xs
unfolding sort_slice
length-sort_slice less [] = refl
length-sort_slice less (x ∷ xs) =
    omega (arith, length-insert less x (sort_slice less xs), length-sort_slice less xs)

pub drop-past : {A : Type 0} (n : ℕ) (xs : List A) → length xs ≤ n → drop n xs ≡ []
drop-past zero [] h = refl
drop-past zero (x ∷ xs) h = absurd (omega arith)
drop-past (suc n) [] h = refl
drop-past (suc n) (x ∷ xs) h = drop-past n xs (omega arith)

pub take-past : {A : Type 0} (n : ℕ) (xs : List A) → length xs ≤ n → take n xs ≡ xs
take-past zero [] h = refl
take-past zero (x ∷ xs) h = absurd (omega arith)
take-past (suc n) [] h = refl
take-past (suc n) (x ∷ xs) h = ap (λ t. x ∷ t) (take-past n xs (omega arith))

pub take-nil : {A : Type 0} (n : ℕ) → take {A = A} n [] ≡ []
take-nil zero = refl
take-nil (suc n) = refl

pub drop-nil : {A : Type 0} (n : ℕ) → drop {A = A} n [] ≡ []
drop-nil zero = refl
drop-nil (suc n) = refl

zero_add : (k : ℕ) → k ≡ 0 + k
zero_add k = omega arith

suc_add : (n k : ℕ) → suc (n + k) ≡ suc n + k
suc_add n k = omega arith

pub take-add :
    {A : Type 0} (n k : ℕ) (xs : List A) → take n xs ++ take k (drop n xs) ≡ take (n + k) xs
take-add zero k xs = ap (λ j. take j xs) (zero_add k)
take-add (suc n) k [] = rw (take-nil k, take-nil (suc n + k)) refl
take-add (suc n) k (x ∷ xs) =
    ap (λ t. x ∷ t) (take-add n k xs) ∙ ap (λ j. take j (x ∷ xs)) (suc_add n k)

pub drop-add : {A : Type 0} (n k : ℕ) (xs : List A) → drop k (drop n xs) ≡ drop (n + k) xs
drop-add zero k xs = ap (λ j. drop j xs) (zero_add k)
drop-add (suc n) k [] = rw (drop-nil k, drop-nil (suc n + k)) refl
drop-add (suc n) k (x ∷ xs) = drop-add n k xs ∙ ap (λ j. drop j (x ∷ xs)) (suc_add n k)

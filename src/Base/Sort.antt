-- ===== src/Base/Sort.antt =====
-- sort.Slice, as an insertion sort by a `less` test that need not be an order. The sort of package
-- sort is not stable: this is one of the results that it allows.
use mathlib.Core.Path.{◌≡◌}
use mathlib.Core.Logic.{inl, inr}
use mathlib.Core.Bool.{Bool, true, false}
use mathlib.Core.List.{List, [], ◌∷◌, Perm}
use mathlib.Core.List.Perm
use native.Mathlib.Omega.{arith}
use donkey_work_vault.Base.Tests.{if◌then◌else◌, Bool-cases}
use donkey_work_vault.Base.Lists.{All}

module _ {ℓ} {A : Type ℓ} (less : A → A → Bool) where
  unfoldable pub insert : A → List A → List A
  insert x [] = x ∷ []
  insert x (y ∷ ys) = let rest = insert x ys in if less y x then y ∷ rest else x ∷ y ∷ ys

  unfoldable pub sort_slice : List A → List A
  unfolding insert
  sort_slice [] = []
  sort_slice (x ∷ xs) = insert x (sort_slice xs)

  insert-perm : (x : A) (xs : List A) → Perm (insert x xs) (x ∷ xs)
  unfolding insert
  insert-perm x [] = Perm.refl (x ∷ [])
  insert-perm x (y ∷ ys) = elim (Bool-cases (less y x)) [
    | inl lt ↦ rw lt (Perm.trans (Perm.cons y (insert-perm x ys)) (Perm.swap x y ys))
    | inr ge ↦ rw ge (Perm.refl (x ∷ y ∷ ys))
  ]

  pub sort_slice-perm : (xs : List A) → Perm (sort_slice xs) xs
  unfolding sort_slice
  sort_slice-perm [] = Perm.refl []
  sort_slice-perm (x ∷ xs) =
      Perm.trans (insert-perm x (sort_slice xs)) (Perm.cons x (sort_slice-perm xs))

  -- No element is less than one before it.
  abbrev pub InOrder : List A → Type ℓ
  InOrder [] = Unit
  InOrder (x ∷ xs) = All (λ y. less y x ≡ false) xs × InOrder xs

  insert-All {κ} : (P : A → Type κ) (x : A) (xs : List A) → P x → All P xs → All P (insert x xs)
  unfolding insert
  insert-All P x [] p h = (p, tt)
  insert-All P x (y ∷ ys) p h = ground (arith, insert-All P x ys p)

  pub sort_slice-All {κ} : (P : A → Type κ) (xs : List A) → All P xs → All P (sort_slice xs)
  unfolding sort_slice
  sort_slice-All P [] h = tt
  sort_slice-All P (x ∷ xs) h = insert-All P x (sort_slice xs) h.0 (sort_slice-All P xs h.1)

  module _ (asym : (a b : A) → less a b ≡ true → less b a ≡ false)
      (co_trans : (a b c : A) → less b a ≡ false → less c b ≡ false → less c a ≡ false) where
    All-co_trans :
        (x y : A) (ys : List A)
        → less y x ≡ false
        → All (λ z. less z y ≡ false) ys
        → All (λ z. less z x ≡ false) ys
    All-co_trans x y [] n h = tt
    All-co_trans x y (z ∷ zs) n h = (co_trans x y z n h.0, All-co_trans x y zs n h.1)

    insert-InOrder : (x : A) (xs : List A) → InOrder xs → InOrder (insert x xs)
    unfolding insert
    insert-InOrder x [] h = (tt, tt)
    insert-InOrder x (y ∷ ys) h = elim (Bool-cases (less y x)) [
      | inl lt ↦ rw lt (insert-All _ x ys (asym y x lt) h.0, insert-InOrder x ys h.1)
      | inr ge ↦ rw ge ((ge, All-co_trans x y ys ge h.0), h)
    ]

    pub sort_slice-InOrder : (xs : List A) → InOrder (sort_slice xs)
    unfolding sort_slice
    sort_slice-InOrder [] = tt
    sort_slice-InOrder (x ∷ xs) = insert-InOrder x (sort_slice xs) (sort_slice-InOrder xs)

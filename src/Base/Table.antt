-- ===== src/Base/Table.antt =====
-- Go's `map[uuid.UUID]V` as an association list. Go leaves the order of a `range` open; here it is
-- the order of the list, and every theorem about a range holds for each such order.
use Prim.Native.Nat.{ℕ}
use mathlib.Core.Path.{◌≡◌, refl}
use mathlib.Core.Logic.{◌≢◌}
use mathlib.Core.Bool.{Bool}
use mathlib.Core.List.{List, [], ◌∷◌}
use mathlib.Core.Option.{Option, none, some}
use native.Mathlib.Omega.{arith}
use donkey_work_vault.Base.Tests.{◌==◌, if◌then◌else◌}

abbrev pub Table {ℓ} : Type ℓ → Type ℓ
Table V = List (ℕ × V)

-- What a lookup gives, unless the test drops it.
abbrev pub unless {ℓ} : {V : Type ℓ} → (V → Bool) → Option V → Option V
unless p none = none
unless p (some w) = if p w then none else some w

module _ {ℓ} {V : Type ℓ} where
  -- v, ok := m[k]
  unfoldable pub get : ℕ → Table V → Option V
  get k [] = none
  get k ((j, v) ∷ t) = if j == k then some v else get k t

  -- m[k] = v
  unfoldable pub put : ℕ → V → Table V → Table V
  put k v [] = (k, v) ∷ []
  put k v ((j, w) ∷ t) = let rest = put k v t in if j == k then (j, v) ∷ t else (j, w) ∷ rest

  -- for k, v := range m { if p(v) { delete(m, k) } }
  unfoldable pub drop_where : (V → Bool) → Table V → Table V
  drop_where p [] = []
  drop_where p ((j, w) ∷ t) = let rest = drop_where p t in if p w then rest else (j, w) ∷ rest

  -- delete(m, k)
  unfoldable pub remove : ℕ → Table V → Table V
  remove k [] = []
  remove k ((j, w) ∷ t) = let rest = remove k t in if j == k then rest else (j, w) ∷ rest

  -- the values in the order of a range
  unfoldable pub values : Table V → List V
  values [] = []
  values ((j, w) ∷ t) = w ∷ values t

  -- No key twice.
  abbrev pub Fresh : ℕ → Table V → Type 0
  Fresh k [] = Unit
  Fresh k ((j, w) ∷ t) = (j ≢ k) × Fresh k t

  abbrev pub Distinct : Table V → Type 0
  Distinct [] = Unit
  Distinct ((j, w) ∷ t) = Fresh j t × Distinct t

  pub get-put :
      (k j : ℕ) (v : V) (t : Table V) → get j (put k v t) ≡ (if k == j then some v else get j t)
  unfolding get put
  get-put k j v [] = ground arith
  get-put k j v ((i, w) ∷ t) = ground (arith, get-put k j v t)

  pub get-remove : (k j : ℕ) (t : Table V) → get j (remove k t) ≡ (if k == j then none else get j t)
  unfolding get remove
  get-remove k j [] = ground arith
  get-remove k j ((i, w) ∷ t) = ground (arith, get-remove k j t)

  pub get-eq-none_of_Fresh : (k : ℕ) (t : Table V) → Fresh k t → get k t ≡ none
  unfolding get
  get-eq-none_of_Fresh k [] h = refl
  get-eq-none_of_Fresh k ((j, w) ∷ t) h = ground (arith, get-eq-none_of_Fresh k t)

  Fresh-put : (i k : ℕ) (v : V) (t : Table V) → k ≢ i → Fresh i t → Fresh i (put k v t)
  unfolding put
  Fresh-put i k v [] n h = (n, tt)
  Fresh-put i k v ((j, w) ∷ t) n h = ground (arith, Fresh-put i k v t n)

  pub Distinct-put : (k : ℕ) (v : V) (t : Table V) → Distinct t → Distinct (put k v t)
  unfolding put
  Distinct-put k v [] h = (tt, tt)
  Distinct-put k v ((j, w) ∷ t) h = ground (arith, Distinct-put k v t, Fresh-put j k v t)

  Fresh-remove : (i k : ℕ) (t : Table V) → Fresh i t → Fresh i (remove k t)
  unfolding remove
  Fresh-remove i k [] h = tt
  Fresh-remove i k ((j, w) ∷ t) h = ground (arith, Fresh-remove i k t)

  pub Distinct-remove : (k : ℕ) (t : Table V) → Distinct t → Distinct (remove k t)
  unfolding remove
  Distinct-remove k [] h = tt
  Distinct-remove k ((j, w) ∷ t) h = ground (arith, Distinct-remove k t, Fresh-remove j k t)

  Fresh-drop_where : (i : ℕ) (p : V → Bool) (t : Table V) → Fresh i t → Fresh i (drop_where p t)
  unfolding drop_where
  Fresh-drop_where i p [] h = tt
  Fresh-drop_where i p ((j, w) ∷ t) h = ground (arith, Fresh-drop_where i p t)

  pub Distinct-drop_where : (p : V → Bool) (t : Table V) → Distinct t → Distinct (drop_where p t)
  unfolding drop_where
  Distinct-drop_where p [] h = tt
  Distinct-drop_where p ((j, w) ∷ t) h =
      ground (arith, Distinct-drop_where p t, Fresh-drop_where j p t)

  pub get-drop_where :
      (p : V → Bool) (k : ℕ) (t : Table V)
      → Distinct t
      → get k (drop_where p t) ≡ unless p (get k t)
  unfolding get drop_where
  get-drop_where p k [] h = refl
  get-drop_where p k ((j, w) ∷ t) h =
      ground (
        arith,
        get-drop_where p k t,
        get-eq-none_of_Fresh k (drop_where p t),
        Fresh-drop_where k p t,
      )

pub ruleset table_laws = (get-put, get-remove)

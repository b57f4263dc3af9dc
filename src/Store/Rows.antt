-- ===== src/Store/Rows.antt =====
-- What the methods of memstore.go do alike on each of the six tables, for rows with an id and an
-- owner: lookups, updates and deletions that a user may make of the user's own rows.
use donkey_work_vault.Base.{
  ℕ, ◌≡◌, ◌≢◌, arith, Bool, true, false, Option, some, none, List, ◌==◌, if◌then◌else◌, keep,
}
use donkey_work_vault.Base.Table.{
  Table, get, put, remove, values, get-put, get-remove, Distinct, Distinct-put, Distinct-remove,
}

-- `if row.ID == uuid.Nil { row.ID = uuid.New() }`, and the same for the zero time
abbrev pub or_new : ℕ → ℕ → ℕ
or_new given fresh = if given == 0 then fresh else given

-- `if v, ok := m[id]; ok { change(&v); m[id] = v }`
unfoldable pub modify_at {ℓ} : {V : Type ℓ} → (V → V) → ℕ → Table V → Table V
modify_at change id t = elim (get id t) [ none ↦ t | some v ↦ put id (change v) t ]

module _ {V : Type 0} (owner : V → ℕ) where
  -- the row if it is the user's: `v, ok := m[id]; ok && v.UserID == userID`
  abbrev pub if_owned : ℕ → Option V → Option V
  if_owned u none = none
  if_owned u (some v) = if owner v == u then some v else none

  unfoldable pub get_owned : ℕ → ℕ → Table V → Option V
  get_owned u id t = if_owned u (get id t)

  unfoldable pub delete_owned : ℕ → ℕ → Table V → Bool × Table V
  unfolding get_owned
  delete_owned u id t = elim (get_owned u id t) [ none ↦ (false, t) | some v ↦ (true, remove id t) ]

  -- `if existing, ok := m[row.ID]; ok && existing.UserID == row.UserID { m[row.ID] = row }`
  unfoldable pub update_owned : ℕ → V → Table V → Table V
  unfolding get_owned
  update_owned id row t = elim (get_owned (owner row) id t) [ none ↦ t | some v ↦ put id row t ]

  -- the rows of a user, in the order of the range
  unfoldable pub list_owned : ℕ → Table V → List V
  list_owned u t = keep (λ v. owner v == u) (values t)

  -- Deleting as one user leaves the rows of another as they are.
  pub get_owned-delete_owned :
      (u v id j : ℕ) (t : Table V) → u ≢ v → get_owned v j (delete_owned u id t).1 ≡ get_owned v j t
  unfolding get_owned delete_owned
  get_owned-delete_owned u v id j t h = ground (arith, get-remove id j t)

  pub get_owned-update_owned :
      (v id j : ℕ) (row : V) (t : Table V)
      → owner row ≢ v
      → get_owned v j (update_owned id row t) ≡ get_owned v j t
  unfolding get_owned update_owned
  get_owned-update_owned v id j row t h = ground (arith, get-put id j row t)

  -- Writing a row under a key that no row of the other user has.
  pub get_owned-put :
      (v id j : ℕ) (row : V) (t : Table V)
      → owner row ≢ v
      → get_owned v id t ≡ none
      → get_owned v j (put id row t) ≡ get_owned v j t
  unfolding get_owned
  get_owned-put v id j row t h f = ground (arith, get-put id j row t)

  pub Distinct-delete_owned :
      (u id : ℕ) (t : Table V) → Distinct t → Distinct (delete_owned u id t).1
  unfolding delete_owned
  Distinct-delete_owned u id t d = ground (arith, Distinct-remove id t d)

  pub Distinct-update_owned :
      (id : ℕ) (row : V) (t : Table V) → Distinct t → Distinct (update_owned id row t)
  unfolding update_owned
  Distinct-update_owned id row t d = ground (arith, Distinct-put id row t d)

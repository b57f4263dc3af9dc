-- ===== src/Store/Method/Isolation/Owned.antt =====
-- What a user has in a table, when a row is changed or rows are deleted by a test.
use donkey_work_vault.Base.{
  true, ℕ, ◌≡◌, ◌≢◌, refl, arith, ◌⊎◌, Bool, Option, Option-cases, some, none, inl, inr,
}
use donkey_work_vault.Base.Table.{Table, get, drop_where, unless, get-put, get-drop_where, Distinct}
use donkey_work_vault.Store.Rows.{if_owned, modify_at, get_owned}

module _ {A : Type 0} (owner : A → ℕ) where
  pub get_owned-modify_at :
      (change : A → A) (v i j : ℕ) (t : Table A)
      → ((r : A) → owner (change r) ≢ v ⊎ (owner (change r) ≡ owner r))
      → get_owned owner v i t ≡ none
      → get_owned owner v j (modify_at change i t) ≡ get_owned owner v j t
  unfolding modify_at get_owned
  get_owned-modify_at change v i j t same f = elim (Option-cases (get i t)) [
    | inl e ↦ rw (e, modify_at) refl
    | inr (r, e) ↦ rw (e, modify_at) (ground (arith, get-put i j (change r) t, same r, e))
  ]

  -- Deleting rows by a test that only rows of another user pass.
  pub get_owned-drop_where :
      (p : A → Bool) (v j : ℕ) (t : Table A)
      → ((r : A) → p r ≡ true → owner r ≢ v)
      → Distinct t
      → get_owned owner v j (drop_where p t) ≡ get_owned owner v j t
  unfolding get_owned
  get_owned-drop_where p v j t other d = rw (get-drop_where p j t d) (go (get j t))
    where
      go : (o : Option A) → if_owned owner v (unless p o) ≡ if_owned owner v o
      go none = refl
      go (some r) = ground (arith, other r)

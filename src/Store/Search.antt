-- ===== src/Store/Search.antt =====
-- Searching the rows of a table after a row was written.
use donkey_work_vault.Base.{
  ℕ, ◌≡◌, refl, arith, Bool, true, false, List, [], ◌∷◌, find, none, some, All,
}
use donkey_work_vault.Base.Table.{Table, get, put, values, get-eq-none_of_Fresh}
use donkey_work_vault.Store.Rows.{update_owned, get_owned}
use donkey_work_vault.Store.Tidy.{IsTidy, get_of_find}

module _ {A : Type 0} (p : A → Bool) where
  -- A row that passes a test which no other row passes is the one that a search finds.
  pub find-put :
      (k : ℕ) (v : A) (t : Table A)
      → p v ≡ true
      → All (λ w. p w ≡ false) (values t)
      → find p (values (put k v t)) ≡ some v
  unfolding values put
  find-put k v [] h n = rw h refl
  find-put k v ((j, w) ∷ t) h n = ground (arith, find-put k v t)

  pub find-none : (xs : List A) → find p xs ≡ none → All (λ x. p x ≡ false) xs
  find-none [] h = tt
  find-none (x ∷ xs) h = ground (arith, find-none xs)

  -- The row that a search finds, replaced by one that passes too.
  pub find-put_found :
      (id : A → ℕ) (r v : A) (t : Table A)
      → IsTidy id t
      → find p (values t) ≡ some r
      → p v ≡ true
      → find p (values (put (id r) v t)) ≡ some v
  unfolding values put get
  find-put_found id r v [] h e q = absurd (cc e)
  find-put_found id r v ((j, w) ∷ t) h e q =
      let rest : IsTidy id t = record { distinct = h.distinct.1; keyed = h.keyed.1 } in
      ground (
        arith,
        find-put_found id r v t rest,
        get_of_find id p r t rest,
        get-eq-none_of_Fresh j t,
        h.keyed.0,
      )

module _ {A : Type 0} (owner : A → ℕ) where
  pub update_owned-put :
      (i : ℕ) (k v : A) (t : Table A)
      → get i t ≡ some k
      → owner v ≡ owner k
      → update_owned owner i v t ≡ put i v t
  unfolding update_owned get_owned
  update_owned-put i k v t h e = ground (arith, h, e)

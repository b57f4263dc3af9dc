-- ===== src/Store/Tidy.antt =====
-- Tables that hold each key once, and a row only under its own id.
use donkey_work_vault.Base.{
  Bool, true, find, ℕ, ◌≡◌, refl, arith, Bool, [], ◌∷◌, some, Option-cases, inl, inr, All,
}
use donkey_work_vault.Base.Table.{
  values, get-eq-none_of_Fresh, Table, get, put, remove, drop_where, Distinct, Distinct-put,
  Distinct-remove, Distinct-drop_where,
}
use donkey_work_vault.Store.Rows.{modify_at, delete_owned, update_owned}

module _ {V : Type 0} (id : V → ℕ) where
  abbrev pub Keyed : Table V → Type 0
  Keyed t = All (λ (e : ℕ × V). id e.1 ≡ e.0) t

  -- A table as the methods keep it.
  pub record IsTidy (t : Table V) : Type 0 where
    pub distinct : Distinct t
    pub keyed : Keyed t

  Keyed-put : (v : V) (t : Table V) → Keyed t → Keyed (put (id v) v t)
  unfolding put
  Keyed-put v [] h = (refl, tt)
  Keyed-put v ((j, w) ∷ t) h = ground (arith, Keyed-put v t)

  Keyed-remove : (k : ℕ) (t : Table V) → Keyed t → Keyed (remove k t)
  unfolding remove
  Keyed-remove k [] h = tt
  Keyed-remove k ((j, w) ∷ t) h = ground (arith, Keyed-remove k t)

  Keyed-drop_where : (p : V → Bool) (t : Table V) → Keyed t → Keyed (drop_where p t)
  unfolding drop_where
  Keyed-drop_where p [] h = tt
  Keyed-drop_where p ((j, w) ∷ t) h = ground (arith, Keyed-drop_where p t)

  pub id_of_get : (k : ℕ) (v : V) (t : Table V) → Keyed t → get k t ≡ some v → id v ≡ k
  unfolding get
  id_of_get k v [] h e = ground arith
  id_of_get k v ((j, w) ∷ t) h e = ground (arith, id_of_get k v t)

  pub IsTidy-put : (v : V) (t : Table V) → IsTidy t → IsTidy (put (id v) v t)
  IsTidy-put v t h = record {
    distinct = Distinct-put (id v) v t h.distinct;
    keyed = Keyed-put v t h.keyed;
  }

  pub IsTidy-put_at : (k : ℕ) (v : V) (t : Table V) → id v ≡ k → IsTidy t → IsTidy (put k v t)
  IsTidy-put_at k v t e h = rw (← e) (IsTidy-put v t h)

  pub IsTidy-remove : (k : ℕ) (t : Table V) → IsTidy t → IsTidy (remove k t)
  IsTidy-remove k t h = record {
    distinct = Distinct-remove k t h.distinct;
    keyed = Keyed-remove k t h.keyed;
  }

  pub IsTidy-drop_where : (p : V → Bool) (t : Table V) → IsTidy t → IsTidy (drop_where p t)
  IsTidy-drop_where p t h = record {
    distinct = Distinct-drop_where p t h.distinct;
    keyed = Keyed-drop_where p t h.keyed;
  }

  pub IsTidy-delete_owned :
      (owner : V → ℕ) (u k : ℕ) (t : Table V) → IsTidy t → IsTidy (delete_owned owner u k t).1
  unfolding delete_owned
  IsTidy-delete_owned owner u k t h = ground (arith, IsTidy-remove k t h)

  pub IsTidy-update_owned :
      (owner : V → ℕ) (v : V) (t : Table V) → IsTidy t → IsTidy (update_owned owner (id v) v t)
  unfolding update_owned
  IsTidy-update_owned owner v t h = ground (arith, IsTidy-put v t h)

module _ {V : Type 0} (id : V → ℕ) where
  pub IsTidy-modify_at :
      (change : V → V) (k : ℕ) (t : Table V)
      → ((v : V) → id v ≡ k → id (change v) ≡ k)
      → IsTidy id t
      → IsTidy id (modify_at change k t)
  unfolding modify_at
  IsTidy-modify_at change k t same h = elim (Option-cases (get k t)) [
    | inl e ↦ rw (e, modify_at) h
    | inr (v, e) ↦
        rw (e, modify_at)
          (IsTidy-put_at id k (change v) t (same v (id_of_get id k v t h.keyed e)) h)
  ]

module _ {V : Type 0} (id : V → ℕ) where
  -- What a range finds in a tidy table passes the test, and stands under its own id.
  pub get_of_find :
      (p : V → Bool) (r : V) (t : Table V)
      → IsTidy id t
      → find p (values t) ≡ some r
      → (p r ≡ true) × (get (id r) t ≡ some r)
  unfolding get values
  get_of_find p r [] h e = ground arith
  get_of_find p r ((j, w) ∷ t) h e = ground (
    arith,
    get_of_find p r t (record { distinct = h.distinct.1; keyed = h.keyed.1 }),
    get-eq-none_of_Fresh j t,
  )

-- ===== src/Audit/Persisted.antt =====
-- audit/writer.go: a batch outlives a failure of the store.
use donkey_work_vault.Base.{
  ℕ, ◌≡◌, ◌++◌, ◌⊎◌, inl, inr, Bool, ◌&&◌, refl, true, false, List, map, Option, none, some, Error,
}
use donkey_work_vault.Store.Mem.{Mem, fail}
use donkey_work_vault.Store.Mem.Audit.{assign_ids, insert_audit_batch}
use donkey_work_vault.Audit.Types.{Event}
use donkey_work_vault.Audit.Writer.{
  Fate, stored, logged, abandoned, Attempts, to_entry, attempt, persist,
}

-- The batch is in the store.
abbrev pub is_stored : Fate → Bool
is_stored stored = true
is_stored logged = false
is_stored abandoned = false

-- Whatever the attempts meet: persist stores the whole batch, in order, behind the rows of the trail, or
-- stores nothing, which happens only if the first attempt fails and the context is done or the wait is
-- cut short. Nothing else changes but that the failure is used up.
pub persist-cases :
    (w : Attempts) (batch : List Event) (m : Mem)
    → ((ids : List ℕ) × (persist w batch m ≡ (
      stored,
      record m { audit = m.audit ++ assign_ids ids (map to_entry batch); fail_next = none },
    )))
      ⊎ ((f : Fate) × (is_stored f ≡ false)
          × (persist w batch m ≡ (f, record m { fail_next = none }))
          × ((w.alive 3 && w.waited 3) ≡ false))
unfolding persist attempt insert_audit_batch fail
persist-cases w batch m = go m.fail_next refl (w.alive 3) (w.waited 3) refl refl
  where
    go :
        (o : Option Error)
        → m.fail_next ≡ o
        → (a b : Bool) → w.alive 3 ≡ a
        → w.waited 3 ≡ b
        → ((ids : List ℕ) × (persist w batch m ≡ (
          stored,
          record m { audit = m.audit ++ assign_ids ids (map to_entry batch); fail_next = none },
        )))
          ⊎ ((f : Fate) × (is_stored f ≡ false)
              × (persist w batch m ≡ (f, record m { fail_next = none }))
              × ((a && b) ≡ false))
    go none e a b ea eb = inl (w.ids 3, rw e refl)
    go (some x) e true true ea eb = inl (w.ids 2, rw (e, ea, eb) refl)
    go (some x) e true false ea eb = inr (abandoned, refl, rw (e, ea, eb) refl, refl)
    go (some x) e false b ea eb = inr (logged, refl, rw (e, ea) refl, refl)

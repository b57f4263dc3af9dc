-- ===== src/Audit/Swept.antt =====
-- audit/retention.go: what a sweep leaves of the trail.
use donkey_work_vault.Base.{
  ℕ, zero, suc, ◌+◌, ◌≡◌, ◌<◌, refl, ◌∙◌, sym, arith, inl, inr, Bool, Bool-cases, true, List, [],
  ◌∷◌, none, some, ok, ltb, keep, length, if◌then◌else◌,
}
use donkey_work_vault.Base.Integers.{ℤ, pos, negsuc, to_nat, below_one}
use donkey_work_vault.Store.Types.{AuditEntry}
use donkey_work_vault.Store.Mem.{Mem, fail}
use donkey_work_vault.Store.Mem.Audit.{sweep_rows, delete_audit_older_than}
use donkey_work_vault.Store.Sweep.{recent, sweep_rows-length, keep-sweep_rows, sweep_rows-short}
use donkey_work_vault.Audit.Retention.{
  RetentionOptions, new_retention, sweep_loop, cutoff_at, sweep,
}

-- A store with this trail that does not fail.
abbrev pub with_audit : Mem → List AuditEntry → Mem
with_audit m es = record m { audit = es; fail_next = none }

-- Rounds of a loop whose context is never cancelled.
abbrev pub live : ℕ → List Bool
live zero = []
live (suc n) = true ∷ live n

-- One turn of the loop.
sweep_loop-turn :
    (rounds : List Bool) (c b total : ℕ) (es : List AuditEntry) (m : Mem)
    → sweep_loop (true ∷ rounds) c b total (with_audit m es) ≡ (
        if ltb (sweep_rows c b es).1 b
        then (ok (some (total + (sweep_rows c b es).1)), with_audit m (sweep_rows c b es).0)
        else sweep_loop rounds c b
            (total + (sweep_rows c b es).1)
            (with_audit m (sweep_rows c b es).0))
unfolding sweep_loop delete_audit_older_than fail
sweep_loop-turn rounds c b total es m = elim (Bool-cases (ltb (sweep_rows c b es).1 b)) [
  | inl short ↦ rw short refl
  | inr full ↦ rw full refl
]

-- A batch that is not full ends the loop, and each full batch shortens the trail.
sweep_loop-live :
    (n c b total : ℕ) (es : List AuditEntry) (m : Mem)
    → 0 < b
    → length es < n
    → (k : ℕ) × (sweep_loop (live n) c b total (with_audit m es)
        ≡ (ok (some k), with_audit m (keep (recent c) es)))
      × (k + length (keep (recent c) es) ≡ total + length es)
sweep_loop-live zero c b total es m p l = absurd (omega arith)
sweep_loop-live (suc n) c b total es m p l = elim (Bool-cases (ltb (sweep_rows c b es).1 b)) [
  | inl short ↦
      let left = sweep_rows-short c b es (ground arith) in
      (
        total + (sweep_rows c b es).1,
        rw (sweep_loop-turn (live n) c b total es m, short, left) refl,
        rw (← left) (omega (arith, sweep_rows-length c b es)),
      )
  | inr full ↦
      let (k, e, count) =
        sweep_loop-live n c b (total + (sweep_rows c b es).1) (sweep_rows c b es).0 m p
          (ground (arith, sweep_rows-length c b es)) in
      (
        k,
        rw (sweep_loop-turn (live n) c b total es m, full, e, keep-sweep_rows c b es) refl,
        rw (← keep-sweep_rows c b es) (omega (arith, count, sweep_rows-length c b es)),
      )
]

pub or_default-pos : (z : ℤ) (n : ℕ) → 0 < n → 0 < to_nat (if below_one z then pos n else z)
or_default-pos (pos zero) n h = h
or_default-pos (pos (suc k)) n h = omega arith
or_default-pos (negsuc k) n h = h

batch_size-pos : (o : RetentionOptions) → 0 < to_nat (new_retention o).batch_size
unfolding new_retention
batch_size-pos o = or_default-pos o.batch_size 5000 (omega arith)

-- With the options that NewRetention makes of any options, on a store that does not fail and with a
-- context that lives for one turn more than there are rows, Sweep ends, deletes all rows older than
-- the cutoff and no other, changes nothing else, and has counted the rows it deleted.
pub sweep-live :
    (n now : ℕ) (o : RetentionOptions) (m : Mem)
    → m.fail_next ≡ none
    → length m.audit < n
    → (k : ℕ) × (sweep (live n) now (new_retention o) m ≡ (
      ok (some k),
      record m { audit = keep (recent (cutoff_at now (new_retention o))) m.audit },
    ))
      × (k + length (keep (recent (cutoff_at now (new_retention o))) m.audit) ≡ length m.audit)
unfolding sweep
sweep-live n now o m h l =
    let (k, e, count) =
      sweep_loop-live n (cutoff_at now (new_retention o)) (to_nat (new_retention o).batch_size) 0
        m.audit m (batch_size-pos o) l in
    (
      k,
      (λ i.
            sweep_loop (live n) (cutoff_at now (new_retention o))
              (to_nat (new_retention o).batch_size) 0 (record m { fail_next = h i }))
          ∙ e
          ∙ (λ i. (
            ok (some k),
            record m {
              audit = keep (recent (cutoff_at now (new_retention o))) m.audit;
              fail_next = sym h i;
            },
          )),
      omega (arith, count),
    )

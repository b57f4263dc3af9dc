-- ===== src/Store/Sweep.antt =====
-- memstore.go: what DeleteAuditOlderThan leaves.
use donkey_work_vault.Base.{
  ℕ, ◌+◌, ◌-◌, ◌≡◌, ◌≤◌, ◌<◌, refl, arith, Bool, List, [], ◌∷◌, ltb, not, keep, length,
}
use donkey_work_vault.Store.Types.{Time, AuditEntry}
use donkey_work_vault.Store.Mem.Audit.{sweep_rows}

-- The row is not older than the cutoff.
abbrev pub recent : Time → AuditEntry → Bool
recent cutoff e = not (ltb e.created_at cutoff)

-- The rows that went and the rows that stay are all of the rows.
pub sweep_rows-length :
    (c n : ℕ) (es : List AuditEntry)
    → (sweep_rows c n es).1 + length (sweep_rows c n es).0 ≡ length es
unfolding sweep_rows
sweep_rows-length c n [] = refl
sweep_rows-length c n (e ∷ es) =
    ground (arith, sweep_rows-length c (n - 1) es, sweep_rows-length c n es)

-- No more rows go than the batch has room for.
pub sweep_rows-le : (c n : ℕ) (es : List AuditEntry) → (sweep_rows c n es).1 ≤ n
unfolding sweep_rows
sweep_rows-le c n [] = omega arith
sweep_rows-le c n (e ∷ es) = ground (arith, sweep_rows-le c (n - 1) es, sweep_rows-le c n es)

-- No recent row goes.
pub keep-sweep_rows :
    (c n : ℕ) (es : List AuditEntry) → keep (recent c) (sweep_rows c n es).0 ≡ keep (recent c) es
unfolding sweep_rows
keep-sweep_rows c n [] = refl
keep-sweep_rows c n (e ∷ es) = ground (arith, keep-sweep_rows c (n - 1) es, keep-sweep_rows c n es)

-- A batch that was not filled has left the recent rows only.
pub sweep_rows-short :
    (c n : ℕ) (es : List AuditEntry)
    → (sweep_rows c n es).1 < n
    → (sweep_rows c n es).0 ≡ keep (recent c) es
unfolding sweep_rows
sweep_rows-short c n [] h = refl
sweep_rows-short c n (e ∷ es) h =
    ground (arith, sweep_rows-short c (n - 1) es, sweep_rows-short c n es)

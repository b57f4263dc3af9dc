-- ===== src/Audit/Retention.antt =====
-- audit/retention.go: the sweeper. The list of rounds says for each turn of the loop whether the
-- context still lives, and bounds the turns; `none` is a loop that has not ended by then.
use donkey_work_vault.Base.{
  ℕ, ◌+◌, ◌-◌, ◌*◌, Bool, true, false, List, [], ◌∷◌, Option, none, some, ltb, if◌then◌else◌,
}
use donkey_work_vault.Base.Exec.{Exec, pure, ◌>>=◌}
use donkey_work_vault.Base.Integers.{ℤ, pos, below_one, to_nat}
use donkey_work_vault.Store.Types.{Time}
use donkey_work_vault.Store.Mem.{Mem}
use donkey_work_vault.Store.Mem.Audit.{delete_audit_older_than}

pub record RetentionOptions : Type 0 where
  pub retention_days : ℤ
  pub sweep_interval : ℤ
  pub batch_size : ℤ

-- NewRetention, in nanoseconds for the interval.
unfoldable pub new_retention : RetentionOptions → RetentionOptions
new_retention o = record {
  retention_days = if below_one o.retention_days then pos 180 else o.retention_days;
  sweep_interval =
      if below_one o.sweep_interval then pos (12 * 3600000000000) else o.sweep_interval;
  batch_size = if below_one o.batch_size then pos 5000 else o.batch_size;
}

-- The loop of Sweep, with the count so far.
unfoldable pub sweep_loop : List Bool → Time → ℕ → ℕ → Exec Mem (Option ℕ)
sweep_loop [] cutoff batch total = pure none
sweep_loop (false ∷ rounds) cutoff batch total = pure (some total)
sweep_loop (true ∷ rounds) cutoff batch total = do
  deleted ← delete_audit_older_than cutoff batch
  if ltb deleted batch
      then pure (some (total + deleted))
      else sweep_loop rounds cutoff batch (total + deleted)

-- `now.AddDate(0, 0, -days)` in UTC, where each day has 86,400 seconds
unfoldable pub cutoff_at : Time → RetentionOptions → Time
cutoff_at now o = now - to_nat o.retention_days * 86400000000000

unfoldable pub sweep : List Bool → Time → RetentionOptions → Exec Mem (Option ℕ)
sweep rounds now o = sweep_loop rounds (cutoff_at now o) (to_nat o.batch_size) 0

-- ===== src/Audit/Writer.antt =====
-- audit/writer.go: how the writer stores a batch of events.
pub mod Run
pub mod Flushed
pub mod Delivered
use donkey_work_vault.Base.{ℕ, zero, suc, Bool, List, map, if◌then◌else◌, ok, err}
use donkey_work_vault.Store.Types.{Uuid, AuditEntry}
use donkey_work_vault.Store.Mem.{Mem}
use donkey_work_vault.Store.Mem.Audit.{insert_audit_batch}
use donkey_work_vault.Audit.Types.{Event, event_int, outcome_int}

abbrev pub to_entry : Event → AuditEntry
to_entry e = record {
  id = 0;
  event_type = event_int e.kind;
  outcome = outcome_int e.outcome;
  user_id = e.user_id;
  tenant_id = e.tenant_id;
  access_key_id = e.access_key_id;
  access_key_prefix = e.access_key_prefix;
  access_key_name = e.access_key_name;
  source_ip = e.source_ip;
  headers = e.headers;
  target_kind = e.target_kind;
  target_provider = e.target_provider;
  target_account = e.target_account;
  target_name = e.target_name;
  transport = e.transport;
  method = e.method;
  detail = e.detail;
  created_at = e.created_at;
}

-- What became of a batch: stored, written to the log in place of the store, or given up in a wait.
pub data Fate : Type 0 where
  stored logged abandoned : Fate

-- What each attempt meets, by the number of attempts that are left after it: the ids that the store
-- draws, whether the context lives after a failure, and whether the wait runs to its end.
pub record Attempts : Type 0 where
  pub ids : ℕ → List Uuid
  pub alive : ℕ → Bool
  pub waited : ℕ → Bool

-- The branch of a failed attempt that is not the last one.
abbrev pub retry : Bool → Bool → Fate × Mem → Mem → Fate × Mem
retry alive waited next m = if alive then (if waited then next else (abandoned, m)) else (logged, m)

-- The loop of persist; the number is that of the attempts left after this one.
unfoldable pub attempt : ℕ → Attempts → List AuditEntry → Mem → Fate × Mem
attempt zero w entries m = elim (insert_audit_batch (w.ids 0) entries m).0 [
  | ok u ↦ (stored, (insert_audit_batch (w.ids 0) entries m).1)
  | err e ↦ (logged, (insert_audit_batch (w.ids 0) entries m).1)
]
attempt (suc k) w entries m =
    let after = insert_audit_batch (w.ids (suc k)) entries m in
    let next = attempt k w entries after.1 in
    elim after.0 [
      | ok u ↦ (stored, after.1)
      | err e ↦ retry (w.alive (suc k)) (w.waited (suc k)) next after.1
    ]

-- Four attempts.
unfoldable pub persist : Attempts → List Event → Mem → Fate × Mem
persist w batch m = attempt 3 w (map to_entry batch) m

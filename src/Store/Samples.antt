-- ===== src/Store/Samples.antt =====
-- Rows for the tests.
use donkey_work_vault.Base.{ℕ, [], none, text}
use donkey_work_vault.Store.Types.{AuditEntry}

abbrev pub entry_at : ℕ → ℕ → AuditEntry
entry_at user_id created_at = record {
  id = 0;
  event_type = 1;
  outcome = 0;
  user_id = user_id;
  tenant_id = 1;
  access_key_id = none;
  access_key_prefix = none;
  access_key_name = none;
  source_ip = none;
  headers = [];
  target_kind = none;
  target_provider = none;
  target_account = none;
  target_name = none;
  transport = text "http";
  method = none;
  detail = none;
  created_at = created_at;
}

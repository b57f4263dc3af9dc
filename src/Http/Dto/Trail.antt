-- ===== src/Http/Dto/Trail.antt =====
-- httpapi/dto.go: the wire form of the audit trail.
use donkey_work_vault.Base.{ℕ, List, Option, Text, if◌then◌else◌, ◌==◌, none, some, find}
use donkey_work_vault.Store.Types.{Uuid, Time, AuditEntry}
use donkey_work_vault.Audit.Types.{
  EventType, event_int, event_name, event_types, event_unknown, outcome_name, outcome_success,
  outcome_failure,
}

pub record AuditEventDto : Type 0 where
  pub id : Uuid
  pub kind : Text
  pub outcome : Text
  pub user_id : Uuid
  pub tenant_id : Uuid
  pub access_key_prefix : Option Text
  pub access_key_name : Option Text
  pub source_ip : Option Text
  pub target_kind : Option Text
  pub target_provider : Option Text
  pub target_account : Option Text
  pub target_name : Option Text
  pub transport : Text
  pub method : Option Text
  pub detail : Option Text
  pub created_at : Time

pub record AuditPageResponse : Type 0 where
  pub items : List AuditEventDto
  pub total : ℕ
  pub limit : ℕ
  pub offset : ℕ

-- audit.EventType(n).String() and audit.Outcome(n).String()
abbrev pub name_of_event : Option EventType → Text
name_of_event none = event_name event_unknown
name_of_event (some t) = event_name t

abbrev pub event_text : ℕ → Text
event_text n = name_of_event (find (λ t. event_int t == n) event_types)

abbrev pub outcome_text : ℕ → Text
outcome_text n = if n == 1 then outcome_name outcome_failure else outcome_name outcome_success

unfoldable pub to_audit_dto : AuditEntry → AuditEventDto
to_audit_dto e = record {
  id = e.id;
  kind = event_text e.event_type;
  outcome = outcome_text e.outcome;
  user_id = e.user_id;
  tenant_id = e.tenant_id;
  access_key_prefix = e.access_key_prefix;
  access_key_name = e.access_key_name;
  source_ip = e.source_ip;
  target_kind = e.target_kind;
  target_provider = e.target_provider;
  target_account = e.target_account;
  target_name = e.target_name;
  transport = e.transport;
  method = e.method;
  detail = e.detail;
  created_at = e.created_at;
}

-- ===== src/Audit/Query.antt =====
-- audit/query.go: reading the trail, for the caller's own rows, which is itself recorded.
use donkey_work_vault.Base.{ℕ, List, Option, none, some, text, [], ltb, if◌then◌else◌}
use donkey_work_vault.Base.Exec.{Exec, pure, ◌>>=◌, ◌>>◌}
use donkey_work_vault.Base.Integers.{ℤ, below_one, to_nat}
use donkey_work_vault.Store.Types.{Uuid, Time, AuditEntry, AuditFilter}
use donkey_work_vault.Store.Mem.Audit.{query_audit}
use donkey_work_vault.Audit.Types.{
  EventType, Outcome, event_int, outcome_int, event_audit_accessed, outcome_success,
}
use donkey_work_vault.Audit.Log.{Context, Backend, emit, emit_params, on_store}

abbrev pub max_limit : ℕ
max_limit = 200

pub record Query : Type 0 where
  pub limit : ℤ
  pub offset : ℤ
  pub kind : Option EventType
  pub outcome : Option Outcome
  pub user_id : Option Uuid
  pub since : Option Time
  pub until : Option Time

pub record QueryResult : Type 0 where
  pub items : List AuditEntry
  pub total : ℕ
  pub limit : ℕ
  pub offset : ℕ

-- `if limit < 1 { limit = 1 }; if limit > MaxLimit { limit = MaxLimit }`
unfoldable pub clamp_limit : ℤ → ℕ
clamp_limit limit =
    let n = if below_one limit then 1 else to_nat limit in if ltb max_limit n then max_limit else n

abbrev pub option_map : {A B : Type 0} → (A → B) → Option A → Option B
option_map f none = none
option_map f (some a) = some (f a)

-- A negative offset counts as 0.
unfoldable pub filter_for : Context → Query → AuditFilter
filter_for ctx q = record {
  user_id = ctx.caller.user_id;
  tenant_id = ctx.caller.tenant_id;
  limit = clamp_limit q.limit;
  offset = to_nat q.offset;
  event_type = option_map event_int q.kind;
  outcome = option_map outcome_int q.outcome;
  filter_user_id = q.user_id;
  since = q.since;
  until = q.until;
}

unfoldable pub query : Context → Query → Exec Backend QueryResult
query ctx q = do
  found ← on_store (query_audit (filter_for ctx q))
  emit ctx (emit_params event_audit_accessed outcome_success (text "audit_log") [])
  pure (record {
    items = found.0;
    total = found.1;
    limit = clamp_limit q.limit;
    offset = to_nat q.offset;
  })

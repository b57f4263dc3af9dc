-- ===== src/Store/Mem/Audit.antt =====
-- memstore.go: the methods on the audit trail.
use donkey_work_vault.Base.{
  ℕ, suc, ◌+◌, ◌-◌, ◌++◌, Bool, Option, some, none, List, ltb, keep, take, drop, length,
  if◌then◌else◌, ok, ◌==◌, ◌&&◌, not, true, [], ◌∷◌,
}
use donkey_work_vault.Base.Sort.{sort_slice}
use donkey_work_vault.Base.Exec.{Exec, gets, modify, ◌>>◌}
use donkey_work_vault.Store.Types.{Uuid, Time, AuditEntry, AuditFilter}
use donkey_work_vault.Store.Rows.{or_new}
use donkey_work_vault.Store.Mem.{Mem, fail}

-- `if e.ID == uuid.Nil { e.ID = uuid.New() }` for each entry, from a supply of fresh ids.
unfoldable pub assign_ids : List Uuid → List AuditEntry → List AuditEntry
assign_ids ids [] = []
assign_ids [] (e ∷ es) = e ∷ assign_ids [] es
assign_ids (i ∷ ids) (e ∷ es) =
    record e { id = or_new e.id i } ∷ assign_ids (if e.id == 0 then ids else i ∷ ids) es

unfoldable pub insert_audit_batch : List Uuid → List AuditEntry → Exec Mem Unit
unfolding assign_ids
insert_audit_batch ids entries = do
  fail
  modify (λ m. record m { audit = m.audit ++ assign_ids ids entries })

-- `f.X != nil && …` lets everything pass where the filter has no value.
abbrev pub passes {ℓ} : {A : Type ℓ} → (A → Bool) → Option A → Bool
passes p none = true
passes p (some a) = p a

-- The tests of QueryAudit.
unfoldable pub matches : AuditFilter → AuditEntry → Bool
matches f e =
    (e.user_id == f.user_id)
    && (e.tenant_id == f.tenant_id)
    && passes (λ t. e.event_type == t) f.event_type
    && passes (λ o. e.outcome == o) f.outcome
    && passes (λ s. not (ltb e.created_at s)) f.since
    && passes (λ u. ltb e.created_at u) f.until

-- Newest first.
abbrev pub newer : AuditEntry → AuditEntry → Bool
newer a b = ltb b.created_at a.created_at

-- `matched[lo:hi]`, with both ends cut at the total
unfoldable pub page : ℕ → ℕ → List AuditEntry → List AuditEntry
page offset limit matched =
    let total = length matched in
    let lo = if ltb total offset then total else offset in
    let hi = if ltb total (lo + limit) then total else lo + limit in
    take (hi - lo) (drop lo matched)

unfoldable pub query_audit : AuditFilter → Exec Mem (List AuditEntry × ℕ)
query_audit f = do
  fail
  gets (λ m.
      let matched = sort_slice newer (keep (matches f) m.audit) in
      (page f.offset f.limit matched, length matched))

-- The loop of DeleteAuditOlderThan: what is kept, and how many rows went.
unfoldable pub sweep_rows : Time → ℕ → List AuditEntry → List AuditEntry × ℕ
sweep_rows cutoff room [] = ([], 0)
sweep_rows cutoff room (e ∷ es) =
    let old = ltb e.created_at cutoff && ltb 0 room in
    let rest = sweep_rows cutoff (if old then room - 1 else room) es in
    if old then (rest.0, suc rest.1) else (e ∷ rest.0, rest.1)

delete_rows : Time → ℕ → Exec Mem ℕ
delete_rows cutoff batch_size m =
    let swept = sweep_rows cutoff batch_size m.audit in (ok swept.1, record m { audit = swept.0 })

unfoldable pub delete_audit_older_than : Time → ℕ → Exec Mem ℕ
unfolding delete_rows
delete_audit_older_than cutoff batch_size = do fail; delete_rows cutoff batch_size

unfoldable pub audit_count : Mem → ℕ
audit_count m = length m.audit

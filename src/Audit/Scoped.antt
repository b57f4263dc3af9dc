-- ===== src/Audit/Scoped.antt =====
-- audit/query.go: a caller reads the caller's own rows, a bounded page of them.
use donkey_work_vault.Base.{
  ℕ, zero, suc, ◌-◌, ◌≡◌, ◌≤◌, ◌<◌, ◌↔◌, Option, some, refl, arith, min, true, List, [], ◌∷◌, none,
  text, ok, All, keep, length,
}
use donkey_work_vault.Base.Integers.{ℤ, pos, negsuc, to_nat}
use donkey_work_vault.Store.Types.{AuditEntry}
use donkey_work_vault.Store.Mem.Audit.{matches}
use donkey_work_vault.Store.Trail.{Given, IsPage, NewestFirst, matches_iff, query_audit_lem}
use donkey_work_vault.Audit.Types.{event_int, outcome_int, event_audit_accessed, outcome_success}
use donkey_work_vault.Audit.Log.{Context, Backend, emit, emit_params, enqueue, event_for}
use donkey_work_vault.Audit.Query.{
  Query, QueryResult, max_limit, clamp_limit, option_map, filter_for, query,
}

clamp_limit-bounds : (z : ℤ) → (1 ≤ clamp_limit z) × (clamp_limit z ≤ max_limit)
unfolding clamp_limit
clamp_limit-bounds (pos zero) = (omega arith, omega arith)
clamp_limit-bounds (pos (suc n)) = ground arith
clamp_limit-bounds (negsuc n) = (omega arith, omega arith)

-- The row belongs to the caller.
abbrev pub Own : Context → AuditEntry → Type 0
Own ctx e = (e.user_id ≡ ctx.caller.user_id) × (e.tenant_id ≡ ctx.caller.tenant_id)

Own-of_matches :
    (ctx : Context) (q : Query) (e : AuditEntry) → matches (filter_for ctx q) e ≡ true → Own ctx e
unfolding matches filter_for
Own-of_matches ctx q e h = ground arith

Own-All :
    (ctx : Context) (q : Query) (es : List AuditEntry)
    → All (λ e. matches (filter_for ctx q) e ≡ true) es
    → All (Own ctx) es
Own-All ctx q [] h = tt
Own-All ctx q (e ∷ es) h = (Own-of_matches ctx q e h.0, Own-All ctx q es h.1)

short : {n : ℕ} (z : ℤ) (k : ℕ) → n ≡ min (clamp_limit z) k → n ≤ max_limit
short z k h = omega (arith, (clamp_limit-bounds z).1)

-- What a query asks of a row: that it is the caller's own, with the type and the outcome where they are
-- given, and a time from `since` on and before `until`. The user that a query names is not asked for.
abbrev pub Asked : Context → Query → AuditEntry → Type 0
Asked ctx q e =
    Own ctx e
    × Given (λ t. e.event_type ≡ event_int t) q.kind
    × Given (λ o. e.outcome ≡ outcome_int o) q.outcome
    × Given (λ s. s ≤ e.created_at) q.since
    × Given (λ u. e.created_at < u) q.until

Given-option_map :
    {A B : Type 0} (P : B → Type 0) (f : A → B) (o : Option A)
    → Given P (option_map f o) ↔ Given (λ a. P (f a)) o
Given-option_map P f none = (λ g. g, λ g. g)
Given-option_map P f (some a) = (λ g. g, λ g. g)

matches-Asked :
    (ctx : Context) (q : Query) (e : AuditEntry)
    → (matches (filter_for ctx q) e ≡ true) ↔ Asked ctx q e
unfolding filter_for
matches-Asked ctx q e =
    let fits = matches_iff (filter_for ctx q) e in
    let kinds = Given-option_map (λ t. e.event_type ≡ t) event_int q.kind in
    let outcomes = Given-option_map (λ o. e.outcome ≡ o) outcome_int q.outcome in
    (
      λ h. let (u, t, k, o, s, l) = fits.0 h in ((u, t), kinds.0 k, outcomes.0 o, s, l),
      λ h. let (own, k, o, s, l) = h in fits.1 (own.0, own.1, kinds.1 k, outcomes.1 o, s, l),
    )

-- The limit that is asked for, or the nearest one from 1 to 200.
abbrev pub Nearest : ℤ → ℕ → Type 0
Nearest z n = n ≡ suc (min 199 (to_nat z - 1))

clamp_limit-Nearest : (z : ℤ) → Nearest z (clamp_limit z)
unfolding clamp_limit
clamp_limit-Nearest (pos zero) = omega arith
clamp_limit-Nearest (pos (suc n)) = ground arith
clamp_limit-Nearest (negsuc n) = omega arith

-- On a store that does not fail, a query returns the rows between its offset, which is 0 for a
-- negative one, and its limit, which is taken to the nearest from 1 to 200, of the rows that match,
-- newest first: all of them the caller's own, at most 200, with the number of all rows that match. A row matches
-- exactly if it is the caller's own and has the type, the outcome and a time that the query asks
-- for. The reading is recorded, and the store is left as it is.
pub query-Own :
    (ctx : Context) (q : Query) (b : Backend)
    → b.store.fail_next ≡ none
    → (r : QueryResult) × (query ctx q b ≡ (
      ok r,
      record b {
        log =
            enqueue
              (event_for ctx
                (emit_params event_audit_accessed outcome_success (text "audit_log") []))
              b.log;
      },
    ))
      × IsPage (matches (filter_for ctx q)) r.limit r.offset b.store.audit r.items
      × Nearest q.limit r.limit
      × (r.offset ≡ to_nat q.offset)
      × All (Own ctx) r.items
      × NewestFirst r.items
      × (length r.items ≤ max_limit)
      × (r.total ≡ length (keep (matches (filter_for ctx q)) b.store.audit))
      × ((e : AuditEntry) → (matches (filter_for ctx q) e ≡ true) ↔ Asked ctx q e)
unfolding query emit filter_for
query-Own ctx q b h =
    let (rows, e, page, ordered, matching, len, fits) =
      query_audit_lem (filter_for ctx q) b.store h in
    (
      record {
        items = rows;
        total = length (keep (matches (filter_for ctx q)) b.store.audit);
        limit = clamp_limit q.limit;
        offset = to_nat q.offset;
      },
      rw e refl,
      page,
      clamp_limit-Nearest q.limit,
      refl,
      Own-All ctx q rows matching,
      ordered,
      short q.limit
          (length (keep (matches (filter_for ctx q)) b.store.audit) - (filter_for ctx q).offset)
          len,
      refl,
      matches-Asked ctx q,
    )

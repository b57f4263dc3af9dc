-- ===== src/Store/Method/Isolation/Trail.antt =====
-- Calls on OAuth states and on the trail, and what another user has.
use mathlib.Core.List.{append-nil}
use donkey_work_vault.Base.{
  ℕ, ◌≡◌, ◌≢◌, ◌≤◌, ◌-◌, ◌++◌, ◌⊎◌, ◌&&◌, refl, ap, ◌∙◌, arith, inl, inr, Bool-cases, List, [], ◌∷◌,
  Option-cases, All, ltb, ◌==◌, if◌then◌else◌,
}
use donkey_work_vault.Base.Table.{get, get-remove}
use donkey_work_vault.Store.Types.{AuditEntry, OauthState}
use donkey_work_vault.Store.Rows.{or_new, get_owned, get_owned-put}
use donkey_work_vault.Store.Mem.{Mem}
use donkey_work_vault.Store.SameRows.{
  SameRows, SameRows-refl, trail_of, with_states, with_audit, guarded_rows,
}
use donkey_work_vault.Store.Method.{add_state, drop_state, add_audit, drop_audit, run}
use donkey_work_vault.Store.Mem.States.{insert_oauth_state, delete_state, delete_oauth_state}
use donkey_work_vault.Store.Mem.Audit.{
  assign_ids, insert_audit_batch, sweep_rows, delete_audit_older_than,
}
use donkey_work_vault.Store.Method.Isolation.Calls.{Foreign}

pub rows-add_state :
    (v i t : ℕ) (k : OauthState) (m : Mem)
    → Foreign v (add_state i t k) m
    → SameRows v m (run (add_state i t k) m)
unfolding run insert_oauth_state
rows-add_state v i t k m h = guarded_rows _ (
    with_states _ (λ j.
      get_owned-put (λ (r : OauthState). r.owner_user_id) v (or_new k.id i) j
        (record k { id = or_new k.id i; created_at = or_new k.created_at t }) m.states h.0 h.1))

pub rows-drop_state :
    (v i : ℕ) (m : Mem) → Foreign v (drop_state i) m → SameRows v m (run (drop_state i) m)
unfolding run delete_oauth_state delete_state get_owned
rows-drop_state v i m h = guarded_rows _ (elim (Option-cases (get i m.states)) [
  | inl e ↦ rw (e, delete_state) SameRows-refl
  | inr (s, e) ↦
      rw (e, delete_state) (with_states _ (λ j. ground (arith, h, e, get-remove i j m.states)))
])

trail_of-append :
    (v : ℕ) (es fs : List AuditEntry) → trail_of v (es ++ fs) ≡ trail_of v es ++ trail_of v fs
trail_of-append v [] fs = refl
trail_of-append v (e ∷ es) fs = elim (Bool-cases (e.user_id == v)) [
  | inl mine ↦ rw mine (ap (λ t. e ∷ t) (trail_of-append v es fs))
  | inr other ↦ rw other (trail_of-append v es fs)
]

trail_of-assign_ids :
    (v : ℕ) (es : List AuditEntry) (is : List ℕ)
    → All (λ (e : AuditEntry). e.user_id ≢ v) es
    → trail_of v (assign_ids is es) ≡ []
unfolding assign_ids
trail_of-assign_ids v [] is h = refl
trail_of-assign_ids v (e ∷ es) [] h = ground (arith, trail_of-assign_ids v es [] h.1)
trail_of-assign_ids v (e ∷ es) (i ∷ is) h =
    ground (arith, trail_of-assign_ids v es (if e.id == 0 then is else i ∷ is) h.1)

pub rows-add_audit :
    (v : ℕ) (is : List ℕ) (es : List AuditEntry) (m : Mem)
    → Foreign v (add_audit is es) m
    → SameRows v m (run (add_audit is es) m)
unfolding run insert_audit_batch
rows-add_audit v is es m h = guarded_rows _ (
    with_audit _ (
      trail_of-append v m.audit (assign_ids is es)
      ∙ ap (λ t. trail_of v m.audit ++ t) (trail_of-assign_ids v es is h)
      ∙ append-nil (trail_of v m.audit)))

trail_of-sweep_rows :
    (v cutoff room : ℕ) (es : List AuditEntry)
    → All (λ (e : AuditEntry). (e.user_id ≢ v) ⊎ (cutoff ≤ e.created_at)) es
    → trail_of v (sweep_rows cutoff room es).0 ≡ trail_of v es
unfolding sweep_rows
trail_of-sweep_rows v cutoff room [] h = refl
trail_of-sweep_rows v cutoff room (e ∷ es) h =
    elim (Bool-cases (ltb e.created_at cutoff && ltb 0 room)) [
      | inl old ↦ rw old (ground (arith, old, h.0, trail_of-sweep_rows v cutoff (room - 1) es h.1))
      | inr kept ↦ rw kept (ground (arith, trail_of-sweep_rows v cutoff room es h.1))
    ]

pub rows-drop_audit :
    (v t n : ℕ) (m : Mem) → Foreign v (drop_audit t n) m → SameRows v m (run (drop_audit t n) m)
unfolding run delete_audit_older_than
rows-drop_audit v t n m h = guarded_rows _ (with_audit _ (trail_of-sweep_rows v t n m.audit h))

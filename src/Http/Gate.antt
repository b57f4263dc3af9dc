-- ===== src/Http/Gate.antt =====
-- httpapi: which scopes let a request pass, and who is granted them.
use mathlib.Core.Bool.{◌&&◌, ◌||◌}
use donkey_work_vault.Base.{
  ◌≡◌, ◌↔◌, refl, arith, inl, inr, Bool, Bool-cases, true, false, not, List, [], Text, text,
  text_eq, text_eq_iff, is_empty, contains, has_suffix, has_prefix, ok,
}
use donkey_work_vault.Audit.Log.{Backend, emit}
use donkey_work_vault.Http.Scopes.{
  vault_scopes_for, has_scope, required_scope, contains_some, cli_vault_scopes,
}
use donkey_work_vault.Http.Middleware.{Session, next, scope_gate, emit_auth_failed}

audit_suffix : has_suffix (text "vault:audit") (text ":read") ≡ false
unfolding has_suffix has_prefix
audit_suffix = refl

readwrite_suffix : has_suffix (text "vault:readwrite") (text ":read") ≡ false
unfolding has_suffix has_prefix
readwrite_suffix = refl

read_suffix : has_suffix (text "vault:read") (text ":read") ≡ true
unfolding has_suffix has_prefix
read_suffix = refl

has_scope-audit :
    (granted : List Text)
    → has_scope granted (text "vault:audit") ≡ contains granted (text "vault:audit")
unfolding has_scope
has_scope-audit granted = ground (arith, audit_suffix)

has_scope-readwrite :
    (granted : List Text)
    → has_scope granted (text "vault:readwrite") ≡ contains granted (text "vault:readwrite")
unfolding has_scope
has_scope-readwrite granted = ground (arith, readwrite_suffix)

has_scope-read :
    (granted : List Text)
    → has_scope granted (text "vault:read")
      ≡ (contains granted (text "vault:read") || contains granted (text "vault:readwrite"))
unfolding has_scope
has_scope-read granted = ground (arith, read_suffix)

gate_iff :
    (fixed method : Text) (s : Session) (b : Backend)
    → (scope_gate fixed method s b ≡ (ok (next s), b))
      ↔ (has_scope s.scopes (required_scope fixed method) ≡ true)
unfolding scope_gate emit_auth_failed emit
gate_iff fixed method s b = elim (Bool-cases (has_scope s.scopes (required_scope fixed method))) [
  | inl has ↦ rw has (λ h. refl, λ h. refl)
  | inr lacks ↦ rw lacks (λ h. absurd (cc h), λ h. absurd (cc h))
]

-- A method that changes nothing.
abbrev pub safe : Text → Bool
safe method =
    text_eq method (text "GET") || text_eq method (text "HEAD") || text_eq method (text "OPTIONS")

-- A route without a scope of its own passes on the request of a session exactly if the session has
-- vault:readwrite, or has vault:read and the method is GET, HEAD or OPTIONS. The routes of the
-- audit trail pass on exactly the sessions that have vault:audit, which no other scope implies.
pub scope_gate_iff :
    (method : Text) (s : Session) (b : Backend)
    → ((scope_gate [] method s b ≡ (ok (next s), b)) ↔ (
        (contains s.scopes (text "vault:readwrite")
          || (safe method && contains s.scopes (text "vault:read")))
        ≡ true))
      × ((scope_gate (text "vault:audit") method s b ≡ (ok (next s), b))
          ↔ (contains s.scopes (text "vault:audit") ≡ true))
unfolding required_scope
scope_gate_iff method s b = (
  ground (arith, gate_iff [] method s b, has_scope-read s.scopes, has_scope-readwrite s.scopes),
  ground (arith, gate_iff (text "vault:audit") method s b, has_scope-audit s.scopes),
)

no_audit : contains cli_vault_scopes (text "vault:audit") ≡ false
unfolding contains text_eq
no_audit = refl

-- The client of a token is granted the audit scope only if it is the web client, and one is set:
-- the command-line client and any other one never have it.
pub vault_scopes_for-audit :
    (client_id web cli : Text) (audiences : List Text)
    → contains (vault_scopes_for client_id audiences web cli) (text "vault:audit") ≡ true
    → (client_id ≡ web) × (is_empty web ≡ false)
unfolding vault_scopes_for contains
vault_scopes_for-audit client_id web cli audiences h =
    elim (Bool-cases (text_eq client_id cli && not (is_empty cli) && contains_some audiences web)) [
      | inl is_cli ↦ absurd (ground (arith, no_audit, rw is_cli at h))
      | inr other ↦ elim (Bool-cases (text_eq client_id web && not (is_empty web))) [
        | inl is_web ↦ ground (arith, is_web, text_eq_iff client_id web)
        | inr none_such ↦ absurd (ground (arith, rw (other, none_such) at h))
      ]
    ]

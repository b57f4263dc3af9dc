-- ===== src/Http/SameButUses.antt =====
-- httpapi/middleware.go: an authentication changes no row but the time of an access key's last use.
use mathlib.Core.Bool.{◌&&◌}
use donkey_work_vault.Base.{
  ℕ, ◌≡◌, inl, inr, refl, Bool-cases, Option-cases, not, Option, none, some, [], ◌∷◌, map, ap, ◌∙◌,
  Text, ◌==◌, is_empty, Result, ok, err,
}
use donkey_work_vault.Base.Table.{Table, get, put}
use donkey_work_vault.Store.Types.{AccessKey}
use donkey_work_vault.Store.Rows.{modify_at}
use donkey_work_vault.Store.Mem.{Mem, fail_lem}
use donkey_work_vault.Store.Mem.AccessKeys.{get_access_key_by_hash, touch_access_key_last_used}
use donkey_work_vault.Audit.Log.{Context, Backend, emit}
use donkey_work_vault.Service.AccessKeys.{AccessKeyPrincipal, authenticate, authenticate_row}
use donkey_work_vault.Http.Middleware.{
  Request, Server, Verified, rejected, undecodable, verified, emit_auth_failed, extract_access_key,
  bearer_token, with_principal, with_claims, session_of, authenticate_jwt, authenticate_request,
}

-- An access key without the time of its last use, which an authentication notes.
abbrev pub unused : AccessKey → AccessKey
unused k = record k { last_used_at = none }

abbrev pub all_unused : Table AccessKey → Table AccessKey
all_unused t = map (λ (e : ℕ × AccessKey). (e.0, unused e.1)) t

-- The stores have the same rows under the same ids, but for the last uses of the access keys.
pub record SameButUses (m n : Mem) : Type 0 where
  pub access_keys : all_unused m.access_keys ≡ all_unused n.access_keys
  pub api_keys : m.api_keys ≡ n.api_keys
  pub configs : m.configs ≡ n.configs
  pub states : m.states ≡ n.states
  pub tokens : m.tokens ≡ n.tokens
  pub manifests : m.manifests ≡ n.manifests
  pub audit : m.audit ≡ n.audit

with_keys :
    (m : Mem) (t : Table AccessKey)
    → all_unused t ≡ all_unused m.access_keys
    → SameButUses (record m { access_keys = t }) m
with_keys m t e = record {
  access_keys = e;
  api_keys = refl;
  configs = refl;
  states = refl;
  tokens = refl;
  manifests = refl;
  audit = refl;
}

SameButUses-refl : (m : Mem) → SameButUses m m
SameButUses-refl m = with_keys m m.access_keys refl

-- Writing a row that differs in its last use alone.
unused-put :
    (id : ℕ) (k u : AccessKey) (t : Table AccessKey)
    → get id t ≡ some k
    → unused u ≡ unused k
    → all_unused (put id u t) ≡ all_unused t
unfolding get put
unused-put id k u [] h e = absurd (cc h)
unused-put id k u ((j, w) ∷ t) h e = elim (Bool-cases (j == id)) [
  | inl here ↦
      let same : k ≡ w = cc (rw here at h) in
      rw here (ap (λ q. (j, q) ∷ all_unused t) (e ∙ ap unused same))
  | inr there ↦ rw there (ap (λ r. (j, unused w) ∷ r) (unused-put id k u t (rw there at h) e))
]

unused-modify_at :
    (now id : ℕ) (t : Table AccessKey)
    → all_unused (modify_at (λ (k : AccessKey). record k { last_used_at = some now }) id t)
      ≡ all_unused t
unfolding modify_at
unused-modify_at now id t = elim (Option-cases (get id t)) [
  | inl e ↦ rw (e, modify_at) refl
  | inr (k, e) ↦ rw (e, modify_at) (unused-put id k (record k { last_used_at = some now }) t e refl)
]

module _ (sha256 : Text → Text) where
  authenticate_row-SameButUses :
      (ctx : Context) (o : Option AccessKey) (b : Backend)
      → b.store.fail_next ≡ none
      → SameButUses (authenticate_row sha256 ctx o b).1.store b.store
  unfolding authenticate_row touch_access_key_last_used
  authenticate_row-SameButUses ctx none b h = SameButUses-refl b.store
  authenticate_row-SameButUses ctx (some k) b h = elim (Bool-cases k.enabled) [
    | inl on ↦
        simp (on, fail_lem b.store h)
          (with_keys b.store _ (unused-modify_at ctx.now k.id b.store.access_keys))
    | inr off ↦ simp off (SameButUses-refl b.store)
  ]

  authenticate-SameButUses :
      (ctx : Context) (secret : Text) (b : Backend)
      → b.store.fail_next ≡ none
      → SameButUses (authenticate sha256 ctx secret b).1.store b.store
  unfolding authenticate get_access_key_by_hash
  authenticate-SameButUses ctx secret b h = elim (Bool-cases (is_empty secret)) [
    | inl blank ↦ rw blank (SameButUses-refl b.store)
    | inr given ↦ rw (given, fail_lem b.store h) (authenticate_row-SameButUses ctx _ b h)
  ]

with_principal-store :
    (ctx : Context) (p : Result (Option AccessKeyPrincipal)) (b : Backend)
    → (with_principal ctx p b).1.store ≡ b.store
unfolding with_principal emit_auth_failed emit
with_principal-store ctx (ok (some p)) b = refl
with_principal-store ctx (ok none) b = refl
with_principal-store ctx (err e) b = refl

with_claims-store :
    (s : Server) (ctx : Context) (c : Verified) (b : Backend)
    → (with_claims s ctx c b).1.store ≡ b.store
unfolding with_claims emit_auth_failed emit
with_claims-store s ctx rejected b = refl
with_claims-store s ctx undecodable b = refl
with_claims-store s ctx (verified c) b = refl

authenticate_jwt-store :
    (s : Server) (ctx : Context) (raw : Text) (b : Backend)
    → (authenticate_jwt s ctx raw b).1.store ≡ b.store
unfolding authenticate_jwt with_claims session_of
authenticate_jwt-store s ctx raw b = elim (Option-cases s.verifier) [
  | inl e ↦ rw e refl
  | inr (verify, e) ↦ rw e (with_claims-store s ctx (verify raw) b)
]

pub authenticate_request-SameButUses :
    (sha256 : Text → Text) (s : Server) (ctx : Context) (r : Request) (b : Backend)
    → b.store.fail_next ≡ none
    → SameButUses (authenticate_request sha256 s ctx r b).1.store b.store
unfolding authenticate_request emit_auth_failed emit
authenticate_request-SameButUses sha256 s ctx r b h =
    elim (Bool-cases (is_empty (extract_access_key r))) [
      | inr key ↦
          let a = authenticate sha256 ctx (extract_access_key r) b in
          rw (key, with_principal-store ctx a.0 a.1)
            (authenticate-SameButUses sha256 ctx (extract_access_key r) b h)
      | inl keyless ↦ elim (Bool-cases (not (is_empty (bearer_token r)) && s.auth_on)) [
        | inl token ↦
            rw (keyless, token, authenticate_jwt-store s ctx (bearer_token r) b)
              (SameButUses-refl b.store)
        | inr anonymous ↦ rw (keyless, anonymous) (SameButUses-refl b.store)
      ]
    ]

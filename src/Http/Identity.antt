-- ===== src/Http/Identity.antt =====
-- httpapi/middleware.go: whom a request that passes speaks for.
use mathlib.Core.Bool.{◌&&◌}
use donkey_work_vault.Base.{
  ℕ, ◌≡◌, ◌⊎◌, refl, arith, inl, inr, Bool-cases, Option-cases, true, not, Text, is_empty, Option,
  none, some, ok, err, Result,
}
use donkey_work_vault.Store.WellFormed.{IsWellFormed}
use donkey_work_vault.Audit.Log.{Context, Backend, emit}
use donkey_work_vault.Service.AccessKeys.{AccessKeyPrincipal, authenticate}
use donkey_work_vault.Service.Authentication.{Speaks, authenticate-Speaks}
use donkey_work_vault.Http.Middleware.{
  Request, Session, next, Server, Claims, Verified, rejected, undecodable, verified, bearer_token,
  extract_access_key, emit_auth_failed, with_access_key_caller, session_of, with_subject,
  with_claims, authenticate_jwt, with_principal, authenticate_request,
}

module _ (sha256 : Text → Text) where
  -- The session is that of an enabled access key which the request presents.
  abbrev pub ByKey : Context → Request → Backend → Session → Type 0
  ByKey ctx r b t =
      (p : AccessKeyPrincipal) × Speaks sha256 (extract_access_key r) b.store p
      × (t ≡ with_access_key_caller ctx p)

  -- The session is that of a token which the verifier accepts, and whose subject is a user.
  abbrev pub ByToken : Server → Context → Request → Session → Type 0
  ByToken s ctx r t =
      (verify : Text → Verified) × (c : Claims) × (user : ℕ) × (s.auth_on ≡ true)
      × (s.verifier ≡ some verify)
      × (verify (bearer_token r) ≡ verified c)
      × (s.parse_uuid c.sub ≡ some user)
      × (t ≡ session_of s ctx c user)

  by_key :
      (ctx : Context) (r : Request) (b c : Backend) (o : Result (Option AccessKeyPrincipal))
      (t : Session)
      → IsWellFormed b.store
      → (authenticate sha256 ctx (extract_access_key r) b).0 ≡ o
      → (with_principal ctx o c).0 ≡ ok (next t)
      → ByKey ctx r b t
  unfolding with_principal emit_auth_failed emit
  by_key ctx r b c (ok (some p)) t w e h =
      (p, (authenticate-Speaks sha256 ctx (extract_access_key r) b p w e).1, cc h)
  by_key ctx r b c (ok none) t w e h = absurd (cc h)
  by_key ctx r b c (err x) t w e h = absurd (cc h)

  by_subject :
      (s : Server) (ctx : Context) (c : Claims) (o : Option ℕ) (t : Session)
      → with_subject s ctx c o ≡ next t
      → (user : ℕ) × (o ≡ some user) × (t ≡ session_of s ctx c user)
  by_subject s ctx c none t h = absurd (cc h)
  by_subject s ctx c (some user) t h = (user, refl, cc h)

  by_claims :
      (s : Server) (ctx : Context) (o : Verified) (b : Backend) (t : Session)
      → (with_claims s ctx o b).0 ≡ ok (next t)
      → (c : Claims) × (user : ℕ) × (o ≡ verified c)
        × (s.parse_uuid c.sub ≡ some user)
        × (t ≡ session_of s ctx c user)
  unfolding with_claims emit_auth_failed emit
  by_claims s ctx rejected b t h = absurd (cc h)
  by_claims s ctx undecodable b t h = absurd (cc h)
  by_claims s ctx (verified c) b t h =
      let (user, e, same) = by_subject s ctx c (s.parse_uuid c.sub) t (cc h) in
      (c, user, refl, e, same)

  by_token :
      (s : Server) (ctx : Context) (r : Request) (b : Backend) (t : Session)
      → s.auth_on ≡ true
      → (authenticate_jwt s ctx (bearer_token r) b).0 ≡ ok (next t)
      → ByToken s ctx r t
  unfolding authenticate_jwt with_claims session_of
  by_token s ctx r b t on h = elim (Option-cases s.verifier) [
    | inl e ↦ absurd (cc (rw e at h))
    | inr (verify, e) ↦
        let (c, user, found, parsed, same) =
          by_claims s ctx (verify (bearer_token r)) b t (rw e at h) in
        (verify, c, user, on, e, found, parsed, same)
  ]

  -- On a well-formed store, the middleware lets a request through only with an access key that is
  -- stored and enabled, in the name of its owner and with its scopes, or, if tokens are accepted at
  -- all, with a token that the identity provider's verifier accepts, in the name of its subject.
  pub authenticate_request_sound :
      (s : Server) (ctx : Context) (r : Request) (b : Backend) (t : Session)
      → IsWellFormed b.store
      → (authenticate_request sha256 s ctx r b).0 ≡ ok (next t)
      → ByKey ctx r b t ⊎ ByToken s ctx r t
  unfolding authenticate_request emit_auth_failed emit
  authenticate_request_sound s ctx r b t w h = elim (Bool-cases (is_empty (extract_access_key r))) [
    | inr key ↦ inl (
        by_key ctx r b (authenticate sha256 ctx (extract_access_key r) b).1
          (authenticate sha256 ctx (extract_access_key r) b).0 t w refl (rw key at h))
    | inl none_given ↦ elim (Bool-cases (not (is_empty (bearer_token r)) && s.auth_on)) [
      | inl token ↦ inr (by_token s ctx r b t (ground (arith, token)) (rw (none_given, token) at h))
      | inr anonymous ↦ absurd (cc (rw (none_given, anonymous) at h))
    ]
  ]

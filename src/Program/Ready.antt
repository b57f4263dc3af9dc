-- ===== src/Program/Ready.antt =====
-- server/cmd/vault/main.go: what holds when the server begins to serve.
use mathlib.Core.Bool.{◌&&◌, ◌||◌}
use mathlib.Core.Path.{subst}
use donkey_work_vault.Base.{
  ◌≡◌, refl, sym, ap, ◌∙◌, arith, inl, inr, Bool, Result-cases, true, false, not, Option, Text,
  text, is_empty, ok, Error, check,
}
use donkey_work_vault.Base.Fallible.{◌>>◌}
use donkey_work_vault.Base.Integers.{ℤ}
use donkey_work_vault.Crypto.LocalKek.{LocalKekProvider, new_local_kek_provider}
use donkey_work_vault.Crypto.Rotation.{IsValid, new_local_kek_provider-IsValid}
use donkey_work_vault.Config.{Config, read, load}
use donkey_work_vault.Http.Dto.{AppConfigResponse}
use donkey_work_vault.Http.Server.{OidcConfig, is_plain, auth_on, app_config_of, new_server}
use donkey_work_vault.Program.{Started, oidc_of, built, start}

-- A database is named, the keys are usable and the active one is that of the environment; where
-- tokens are accepted and HTTPS is required, no address of the identity provider lacks it.
pub record IsReady (env : Text → Text) (s : Started) : Type 0 where
  pub database : is_empty s.config.dsn ≡ false
  pub keys : IsValid s.kek
  pub active : s.kek.active_kek ≡ env (text "VAULT_CRYPTO_ACTIVE_KEK_ID")
  pub secure :
      (s.app_config.auth_enabled
        && s.app_config.require_https_metadata
        && (is_plain s.config.oidc_authority || is_plain s.config.oidc_internal))
      ≡ false
  pub issuer : s.app_config.authority ≡ s.config.oidc_authority

passed :
    (a b : Bool) (x y : Error) (c d : Config)
    → (check a x >> (check b y >> ok c)) ≡ ok d
    → (a ≡ true) × (c ≡ d)
passed true true x y c d h = (refl, cc h)
passed true false x y c d h = absurd (cc h)
passed false b x y c d h = absurd (cc h)

load-checked :
    (env : Text → Text) (atoi : Text → Option ℤ) (parse_bool : Text → Option Bool) (c : Config)
    → load env atoi parse_bool ≡ ok c
    → (is_empty c.dsn ≡ false) × (c.active_kek_id ≡ env (text "VAULT_CRYPTO_ACTIVE_KEK_ID"))
unfolding load
load-checked env atoi parse_bool c h =
    let r = read env atoi parse_bool in
    let (named, e) = passed (not (is_empty r.dsn)) _ _ _ r c h in
    (
      ap (λ (t : Config). is_empty t.dsn) (sym e) ∙ ground (arith, named),
      ap (λ (t : Config). t.active_kek_id) (sym e),
    )

new_server-secure :
    (o : OidcConfig) (a : AppConfigResponse)
    → new_server o ≡ ok a
    → (a ≡ app_config_of o)
      × ((auth_on o && o.require_https && (is_plain o.authority || is_plain o.internal_authority))
          ≡ false)
unfolding new_server
new_server-secure o a h = (ground (arith), ground (arith))

ready :
    (env : Text → Text) (atoi : Text → Option ℤ) (parse_bool : Text → Option Bool) (c : Config)
    (kek : LocalKekProvider) (app : AppConfigResponse)
    → load env atoi parse_bool ≡ ok c
    → new_local_kek_provider c.active_kek_id c.keks ≡ ok kek
    → new_server (oidc_of c) ≡ ok app
    → IsReady env (built c kek app)
ready env atoi parse_bool c kek app e f g =
    let (database, active) = load-checked env atoi parse_bool c e in
    let (valid, same) = new_local_kek_provider-IsValid c.active_kek_id c.keks f in
    let (made, secure) = new_server-secure (oidc_of c) app g in
    record {
      database = database;
      keys = valid;
      active = same ∙ active;
      secure = rw made secure;
      issuer = ap (λ (t : AppConfigResponse). t.authority) made;
    }

module _ (env : Text → Text) (atoi : Text → Option ℤ) (parse_bool : Text → Option Bool) where
  -- If the program starts to serve, whatever its environment: its database is named; each of its
  -- keys has 32 bytes, and the active one, which is the one named by the environment, is among them;
  -- and if tokens are accepted and HTTPS is required, the address of the identity provider and the
  -- internal one are empty or begin with https.
  pub start-IsReady : (s : Started) → start env atoi parse_bool ≡ ok s → IsReady env s
  unfolding start
  start-IsReady s h = elim (Result-cases (load env atoi parse_bool)) [
    | inr (x, e) ↦ absurd (cc (rw e at h))
    | inl (c, e) ↦ elim (Result-cases (new_local_kek_provider c.active_kek_id c.keks)) [
      | inr (x, f) ↦ absurd (cc (rw (e, f) at h))
      | inl (kek, f) ↦ elim (Result-cases (new_server (oidc_of c))) [
        | inr (x, g) ↦ absurd (cc (rw (e, f, g) at h))
        | inl (app, g) ↦
            subst (IsReady env) (cc (rw (e, f, g) at h)) (ready env atoi parse_bool c kek app e f g)
      ]
    ]
  ]

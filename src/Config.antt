-- ===== src/Config.antt =====
-- server/internal/config/config.go: the configuration that the server reads from its environment. The
-- environment, strconv.Atoi and strconv.ParseBool are parameters; a missing variable is empty.
use mathlib.Core.Bool.{◌||◌}
use donkey_work_vault.Base.{
  ℕ, suc, ◌-◌, ◌*◌, ◌%◌, Bool, true, false, not, List, [], ◌∷◌, Option, none, some, Text, text,
  take, drop, is_empty, ltb, length, ◌==◌, text_eq, trim_space, check, plain, if◌then◌else◌, Result,
  ok,
}
use donkey_work_vault.Base.Fallible.{◌>>◌}
use donkey_work_vault.Base.Cut.{split}
use donkey_work_vault.Base.Integers.{ℤ, pos, negsuc}
use donkey_work_vault.Audit.ForwardedIp.{index_byte}
use donkey_work_vault.Audit.Log.{or_else}

pub record Config : Type 0 where
  pub listen_addr : Text
  pub dsn : Text
  pub run_migrations : Bool
  pub web_root : Text
  pub public_base_url : Text
  pub active_kek_id : Text
  pub keks : List (Text × Text)
  pub oidc_authority : Text
  pub oidc_internal : Text
  pub oidc_audience : Text
  pub oidc_client_id : Text
  pub oidc_scopes : Text
  pub oidc_web_client_id : Text
  pub oidc_cli_client_id : Text
  pub oidc_web_scopes : Text
  pub oidc_cli_scopes : Text
  pub oidc_require_https : Bool
  pub trusted_proxies : List Text
  pub audit_channel_cap : ℤ
  pub audit_batch_size : ℤ
  pub audit_flush_interval : ℤ
  pub audit_retention_days : ℤ
  pub audit_sweep_interval : ℤ
  pub audit_retention_batch : ℤ
  pub otlp_endpoint : Text
  pub otlp_insecure : Bool
  pub service_version : Text
  pub environment : Text

-- `out[k] = v`
abbrev pub set_key : Text → Text → List (Text × Text) → List (Text × Text)
set_key k v [] = (k, v) ∷ []
set_key k v ((j, w) ∷ out) =
    let rest = set_key k v out in if text_eq j k then (j, v) ∷ out else (j, w) ∷ rest

-- The rest of a turn of parseKeks, from the place of the `=` on.
abbrev pub add_at : Text → Option ℕ → List (Text × Text) → List (Text × Text)
add_at pair none out = out
add_at pair (some eq) out =
    if ltb 0 eq
    then set_key (trim_space (take eq pair)) (trim_space (drop (suc eq) pair)) out
    else out

abbrev pub add_pair : Text → List (Text × Text) → List (Text × Text)
add_pair pair out = if is_empty pair then out else add_at pair (index_byte pair b'=') out

unfoldable pub add_pairs : List Text → List (Text × Text) → List (Text × Text)
add_pairs [] out = out
add_pairs (pair ∷ pairs) out = add_pairs pairs (add_pair (trim_space pair) out)

unfoldable pub parse_keks : Text → List (Text × Text)
parse_keks raw = add_pairs (split b',' raw) []

abbrev pub named : List Text → List Text
named [] = []
named (p ∷ parts) =
    let rest = named parts in if is_empty (trim_space p) then rest else trim_space p ∷ rest

unfoldable pub split_list : Text → List Text
split_list raw = named (split b',' raw)

unfoldable pub first_non_empty : List Text → Text
first_non_empty [] = []
first_non_empty (v ∷ vals) = if not (is_empty v) then v else first_non_empty vals

-- An int64 from its bits, and back.
abbrev pub from_bits : ℕ → ℤ
from_bits n = if ltb n 0x8000000000000000 then pos n else negsuc (0xFFFFFFFFFFFFFFFF - n)

abbrev pub to_bits : ℤ → ℕ
to_bits (pos n) = n % 0x10000000000000000
to_bits (negsuc n) = 0xFFFFFFFFFFFFFFFF - n % 0x10000000000000000

-- `time.Duration(n) * unit`, which wraps around.
unfoldable pub duration : ℤ → ℕ → ℤ
duration n unit = from_bits (to_bits n * unit % 0x10000000000000000)

module _ (env : Text → Text) (atoi : Text → Option ℤ) (parse_bool : Text → Option Bool) where
  abbrev pub getenv : Text → Text → Text
  getenv key default = if not (is_empty (env key)) then env key else default

  abbrev pub getenv_int : Text → ℤ → ℤ
  getenv_int key default =
      if not (is_empty (env key)) then or_else (atoi (env key)) default else default

  abbrev pub getenv_bool : Text → Bool → Bool
  getenv_bool key default =
      if not (is_empty (env key)) then or_else (parse_bool (env key)) default else default

  -- The configuration before it is validated.
  abbrev pub read : Config
  read = record {
    listen_addr = getenv (text "VAULT_LISTEN_ADDR") (text ":8080");
    dsn =
        first_non_empty
          (env (text "VAULT_DSN") ∷ env (text "DATABASE_URL") ∷ env (text "VAULT_DB") ∷ []);
    run_migrations = getenv_bool (text "VAULT_RUN_MIGRATIONS") true;
    web_root = env (text "VAULT_WEBROOT");
    public_base_url =
        first_non_empty
          (env (text "VAULT_PUBLIC_BASE_URL") ∷ text "https://vault.donkeywork.dev" ∷ []);
    active_kek_id = env (text "VAULT_CRYPTO_ACTIVE_KEK_ID");
    keks = parse_keks (env (text "VAULT_CRYPTO_KEKS"));
    oidc_authority =
        first_non_empty (env (text "VAULT_OIDC_AUTHORITY") ∷ env (text "OIDC_AUTHORITY") ∷ []);
    oidc_internal = env (text "VAULT_OIDC_INTERNAL_AUTHORITY");
    oidc_audience = env (text "VAULT_OIDC_AUDIENCE");
    oidc_client_id = env (text "VAULT_OIDC_CLIENT_ID");
    oidc_scopes = getenv (text "VAULT_OIDC_SCOPES") (text "openid profile email");
    oidc_web_client_id = env (text "VAULT_OIDC_WEB_CLIENT_ID");
    oidc_cli_client_id = env (text "VAULT_OIDC_CLI_CLIENT_ID");
    oidc_web_scopes = env (text "VAULT_OIDC_WEB_SCOPES");
    oidc_cli_scopes = env (text "VAULT_OIDC_CLI_SCOPES");
    oidc_require_https = getenv_bool (text "VAULT_OIDC_REQUIRE_HTTPS") true;
    trusted_proxies = split_list (
        getenv (text "VAULT_TRUSTED_PROXIES")
          (text "10.42.0.0/16,10.43.0.0/16,127.0.0.1/32,::1/128"));
    audit_channel_cap = getenv_int (text "VAULT_AUDIT_CHANNEL_CAPACITY") (pos 8192);
    audit_batch_size = getenv_int (text "VAULT_AUDIT_BATCH_SIZE") (pos 100);
    audit_flush_interval = duration (getenv_int (text "VAULT_AUDIT_FLUSH_MS") (pos 500)) 1000000;
    audit_retention_days = getenv_int (text "VAULT_AUDIT_RETENTION_DAYS") (pos 180);
    audit_sweep_interval =
        duration (getenv_int (text "VAULT_AUDIT_SWEEP_HOURS") (pos 12)) 3600000000000;
    audit_retention_batch = getenv_int (text "VAULT_AUDIT_RETENTION_BATCH") (pos 5000);
    otlp_endpoint =
        first_non_empty
          (env (text "OTEL_EXPORTER_OTLP_ENDPOINT") ∷ env (text "VAULT_OTLP_ENDPOINT") ∷ []);
    otlp_insecure = getenv_bool (text "VAULT_OTLP_INSECURE") false;
    service_version = getenv (text "VAULT_VERSION") (text "dev");
    environment = getenv (text "VAULT_ENVIRONMENT") (text "production");
  }

  unfoldable pub load : Result Config
  load = do
    check (not (is_empty read.dsn))
        (plain (text "database DSN is required (set VAULT_DSN or DATABASE_URL)"))
    check (not (is_empty read.active_kek_id || length read.keks == 0)) (
        plain (
          text
            "crypto KEK config is required (set VAULT_CRYPTO_ACTIVE_KEK_ID and VAULT_CRYPTO_KEKS)"))
    ok read

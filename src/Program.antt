-- ===== src/Program.antt =====
-- server/cmd/vault/main.go: how the program is put together from its configuration. Telemetry, the
-- database, its migrations and the templates of manifests are left out, and so are the errors of
-- their start.
pub mod Ready
mod Tests
use donkey_work_vault.Base.{List, Bool, Option, Text, Result, ok, err}
use donkey_work_vault.Base.Fallible.{◌>>=◌}
use donkey_work_vault.Base.Integers.{ℤ}
use donkey_work_vault.Crypto.LocalKek.{LocalKekProvider, new_local_kek_provider}
use donkey_work_vault.Audit.Log.{Log, new_log}
use donkey_work_vault.Audit.Retention.{RetentionOptions, new_retention}
use donkey_work_vault.Audit.Writer.Run.{WriterOptions, new_writer}
use donkey_work_vault.Config.{Config, load}
use donkey_work_vault.Http.Dto.{AppConfigResponse}
use donkey_work_vault.Http.Server.{OidcConfig, new_server}

abbrev pub oidc_of : Config → OidcConfig
oidc_of c = record {
  authority = c.oidc_authority;
  internal_authority = c.oidc_internal;
  audience = c.oidc_audience;
  client_id = c.oidc_client_id;
  scopes = c.oidc_scopes;
  web_client_id = c.oidc_web_client_id;
  cli_client_id = c.oidc_cli_client_id;
  web_scopes = c.oidc_web_scopes;
  cli_scopes = c.oidc_cli_scopes;
  require_https = c.oidc_require_https;
}

-- What run has built when it begins to serve.
pub record Started : Type 0 where
  pub config : Config
  pub kek : LocalKekProvider
  pub audit_log : Log
  pub writer : WriterOptions
  pub retention : RetentionOptions
  pub app_config : AppConfigResponse

abbrev pub built : Config → LocalKekProvider → AppConfigResponse → Started
built c kek app_config = record {
  config = c;
  kek = kek;
  audit_log = new_log c.audit_channel_cap;
  writer =
      new_writer
        (record { batch_size = c.audit_batch_size; flush_interval = c.audit_flush_interval });
  retention = new_retention (record {
    retention_days = c.audit_retention_days;
    sweep_interval = c.audit_sweep_interval;
    batch_size = c.audit_retention_batch;
  });
  app_config = app_config;
}

unfoldable pub start : (Text → Text) → (Text → Option ℤ) → (Text → Option Bool) → Result Started
start env atoi parse_bool = do
  c ← load env atoi parse_bool
  kek ← new_local_kek_provider c.active_kek_id c.keks
  app_config ← new_server (oidc_of c)
  ok (built c kek app_config)

-- ===== src/Http/Server.antt =====
-- httpapi/server.go: what NewServer takes from the configuration of the identity provider. The
-- discovery of the provider, whose failure does not stop the server, is left out.
use mathlib.Core.Bool.{◌&&◌}
use donkey_work_vault.Base.{
  Bool, not, [], ◌∷◌, Text, text, is_empty, has_prefix, to_lower, all, plain, if◌then◌else◌, Result,
  ok, err,
}
use donkey_work_vault.Config.{first_non_empty}
use donkey_work_vault.Http.Dto.{AppConfigResponse}

pub record OidcConfig : Type 0 where
  pub authority : Text
  pub internal_authority : Text
  pub audience : Text
  pub client_id : Text
  pub scopes : Text
  pub web_client_id : Text
  pub cli_client_id : Text
  pub web_scopes : Text
  pub cli_scopes : Text
  pub require_https : Bool

abbrev pub effective_web_client_id : OidcConfig → Text
effective_web_client_id o = first_non_empty (o.web_client_id ∷ o.client_id ∷ o.audience ∷ [])

abbrev pub effective_cli_client_id : OidcConfig → Text
effective_cli_client_id o = first_non_empty (o.cli_client_id ∷ text "donkeywork-vault-cli" ∷ [])

abbrev pub effective_web_scopes : OidcConfig → Text
effective_web_scopes o =
    first_non_empty (o.web_scopes ∷ o.scopes ∷ text "openid profile email" ∷ [])

abbrev pub effective_cli_scopes : OidcConfig → Text
effective_cli_scopes o =
    first_non_empty (o.cli_scopes ∷ text "openid profile email offline_access" ∷ [])

abbrev pub auth_on : OidcConfig → Bool
auth_on o = not (is_empty o.authority)

abbrev pub app_config_of : OidcConfig → AppConfigResponse
app_config_of o = record {
  authority = o.authority;
  client_id = effective_web_client_id o;
  scopes = effective_web_scopes o;
  auth_enabled = auth_on o;
  cli_client_id = effective_cli_client_id o;
  cli_scopes = effective_cli_scopes o;
  require_https_metadata = o.require_https;
}

-- `u != "" && !strings.HasPrefix(strings.ToLower(u), "https://")`
abbrev pub is_plain : Text → Bool
is_plain u = not (is_empty u) && not (has_prefix (to_lower u) (text "https://"))

-- What NewServer has set before it looks for the identity provider.
unfoldable pub new_server : OidcConfig → Result AppConfigResponse
new_server o =
    if auth_on o
      && o.require_https
      && not (all (λ u. not (is_plain u)) (o.authority ∷ o.internal_authority ∷ []))
    then err (plain (text "OIDC authority is not https and VAULT_OIDC_REQUIRE_HTTPS is true"))
    else ok (app_config_of o)

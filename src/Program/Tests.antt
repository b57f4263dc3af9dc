-- ===== src/Program/Tests.antt =====
-- The program at a small environment.
use donkey_work_vault.Base.{
  ◌≡◌, refl, Bool, [], ◌∷◌, Option, none, Text, text, text_eq, has_prefix, to_lower, if◌then◌else◌,
  ok, trim_space,
}
use donkey_work_vault.Base.Base64.{std_decode}
use donkey_work_vault.Base.Cut.{split_from}
use donkey_work_vault.Base.Integers.{ℤ}
use donkey_work_vault.Crypto.LocalKek.{
  LocalKekProvider, kek_of, decode_keks, new_local_kek_provider,
}
use donkey_work_vault.Audit.ForwardedIp.{index_byte}
use donkey_work_vault.Config.{read, load, parse_keks, add_pairs, first_non_empty}
use donkey_work_vault.Http.Server.{new_server, app_config_of}
use donkey_work_vault.Program.{Started, oidc_of, built, start}
use donkey_work_vault.Program.Ready.{IsReady, start-IsReady}

abbrev env : Text → Text
env key =
    if text_eq key (text "VAULT_DSN")
    then text "postgres://vault"
    else if text_eq key (text "VAULT_CRYPTO_ACTIVE_KEK_ID")
    then text "v1"
    else if text_eq key (text "VAULT_CRYPTO_KEKS")
    then text " v1 = MDEyMzQ1Njc4OWFiY2RlZjAxMjM0NTY3ODlhYmNkZWY=,"
    else if text_eq key (text "OIDC_AUTHORITY")
    then text "HTTPS://id"
    else []

abbrev atoi : Text → Option ℤ
atoi s = none

abbrev parse_bool : Text → Option Bool
parse_bool s = none

abbrev kek : LocalKekProvider
kek = record {
  keks = (text "v1", text "0123456789abcdef0123456789abcdef") ∷ [];
  active_kek = text "v1";
}

abbrev started : Started
started = built (read env atoi parse_bool) kek (app_config_of (oidc_of (read env atoi parse_bool)))

starts : start env atoi parse_bool ≡ ok started
unfolding start load parse_keks add_pairs split_from index_byte trim_space text_eq first_non_empty
    new_local_kek_provider decode_keks std_decode kek_of new_server has_prefix to_lower
starts = refl

start-IsReady_example : IsReady env started
start-IsReady_example = start-IsReady env atoi parse_bool started starts

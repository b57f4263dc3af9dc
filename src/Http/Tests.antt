-- ===== src/Http/Tests.antt =====
-- The theorems about the middleware at concrete requests.
use donkey_work_vault.Base.{
  ◌≡◌, ◌⊎◌, ◌↔◌, ◌-◌, refl, arith, min, suc, true, false, inl, ◌&&◌, ◌||◌, List, [], ◌∷◌, none, err,
  plain, Text, text, text_eq, contains, is_empty, has_prefix, ok,
}
use donkey_work_vault.Base.Table.{values}
use donkey_work_vault.Store.Types.{Time}
use donkey_work_vault.Store.Mem.{fail}
use donkey_work_vault.Store.Mem.AccessKeys.{get_access_key_by_hash}
use donkey_work_vault.Audit.Log.{emit}
use donkey_work_vault.Service.AccessKeys.{authenticate, authenticate_row}
use donkey_work_vault.Http.Scopes.{vault_scopes_for}
use donkey_work_vault.Http.Limits.{IpRateLimiter}
use donkey_work_vault.Http.Budget.{allowed_of, hits_of, IsFresh, allowed_of-fresh}
use donkey_work_vault.Http.Gate.{safe, scope_gate_iff, vault_scopes_for-audit}
use donkey_work_vault.Http.Identity.{ByKey, ByToken, authenticate_request_sound}
use donkey_work_vault.Http.Middleware.{
  Request, Session, next, Server, extract_access_key, with_access_key_caller, with_principal,
  authenticate_request, scope_gate,
}
use donkey_work_vault.Manifests.Loader.{no_templates}
use donkey_work_vault.Manifests.Samples.{json as documents}
use donkey_work_vault.Service.Oauth.Samples.{plain_cipher, json, client}
use donkey_work_vault.Http.Handlers.{Deps, Call}
use donkey_work_vault.Service.Samples.{digest, ctx, backend, principal, store-IsWellFormed}

abbrev reader : Session
reader = with_access_key_caller ctx principal

scope_gate_iff_example :
    ((scope_gate [] (text "DELETE") reader backend ≡ (ok (next reader), backend)) ↔ (
      (contains reader.scopes (text "vault:readwrite")
        || (safe (text "DELETE") && contains reader.scopes (text "vault:read")))
      ≡ true))
    × ((scope_gate (text "vault:audit") (text "DELETE") reader backend
          ≡ (ok (next reader), backend))
        ↔ (contains reader.scopes (text "vault:audit") ≡ true))
scope_gate_iff_example = scope_gate_iff (text "DELETE") reader backend

web_token :
    contains
      (vault_scopes_for (text "web") (text "web" ∷ []) (text "web") (text "cli"))
      (text "vault:audit")
    ≡ true
unfolding vault_scopes_for contains text_eq
web_token = refl

vault_scopes_for-audit_example : (text "web" ≡ text "web") × (is_empty (text "web") ≡ false)
vault_scopes_for-audit_example =
    vault_scopes_for-audit (text "web") (text "web") (text "cli") (text "web" ∷ []) web_token

abbrev limiter : IpRateLimiter
limiter = record {
  windows = (text "::1", record { start = 10; count = 9 }) ∷ [];
  limit = 2;
  period = 60;
}

-- Four hits of one IP in its window, and one of another between them.
abbrev hits : List (Text × Time)
hits =
    (text "10.0.0.1", 105)
    ∷ (text "::1", 110)
    ∷ (text "10.0.0.1", 120)
    ∷ (text "10.0.0.1", 159)
    ∷ []

fresh : IsFresh (text "10.0.0.1") 100 limiter
unfolding text_eq
fresh = inl refl

allowed_of-fresh_example :
    allowed_of (text "10.0.0.1") ((text "10.0.0.1", 100) ∷ hits) limiter
    ≡ suc (min (hits_of (text "10.0.0.1") hits) (2 - 1))
allowed_of-fresh_example =
    allowed_of-fresh (text "10.0.0.1") 100 hits limiter fresh
      (omega arith, (omega arith, (omega arith, (omega arith, tt))))

abbrev server : Server
server = record {
  auth_on = false;
  verifier = none;
  parse_uuid = λ s. none;
  web_client_id = text "web";
  cli_client_id = text "cli";
}

abbrev request : Request
request = record { x_api_key = text "dwv_old"; authorization = []; method = text "GET" }

let_through : (authenticate_request digest server ctx request backend).0 ≡ ok (next reader)
unfolding authenticate_request extract_access_key has_prefix authenticate authenticate_row
    get_access_key_by_hash fail text_eq values with_principal emit
let_through = refl

authenticate_request_sound_example :
    ByKey digest ctx request backend reader ⊎ ByToken digest server ctx request reader
authenticate_request_sound_example =
    authenticate_request_sound digest server ctx request backend reader store-IsWellFormed
      let_through

abbrev deps : Deps
deps = record {
  sha256 = digest;
  cipher = plain_cipher;
  manifest_json = documents;
  oauth_json = json;
  client = client;
  loader = no_templates;
  host_of = λ url. ok url;
  fetch = λ url. err (plain (text "unreachable"));
  decode_well_known = λ body. err (plain (text "not JSON"));
  decoders = record {
    create_api_key = λ body. err (plain body);
    create_access_key = λ body. err (plain body);
    set_enabled = λ body. ok true;
    upsert_manifest = λ body. err (plain body);
    discover_oidc = λ body. ok none;
    upsert_config = λ body. err (plain body);
  };
  parse_uuid = λ s. none;
  show_uuid = λ id. text "id";
  atoi = λ s. none;
  parse_time = λ s. none;
  public_base_url = text "https://vault";
}

abbrev call : Call
call = record { param = λ name. []; query = λ name. []; body = []; new_ids = λ n. n }

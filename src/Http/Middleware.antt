-- ===== src/Http/Middleware.antt =====
-- httpapi/middleware.go: who a request is from. Token verification and uuid.Parse are parameters.
use mathlib.Core.Bool.{◌&&◌}
use donkey_work_vault.Base.{
  ℕ, Bool, not, List, [], ◌++◌, Option, none, some, Text, text, is_empty, has_prefix, trim_space,
  ltb, length, take, drop, if◌then◌else◌, ok, err, Result,
}
use donkey_work_vault.Base.Exec.{Exec, pure, ◌>>◌}
use donkey_work_vault.Store.Types.{Uuid}
use donkey_work_vault.Audit.Types.{
  request_info_from, equal_fold, event_auth_failed, event_auth_succeeded, outcome_success,
  outcome_failure,
}
use donkey_work_vault.Audit.Log.{Context, Backend, emit, emit_params, str_ptr, or_else}
use donkey_work_vault.Service.AccessKeys.{AccessKeyPrincipal, authenticate}
use donkey_work_vault.Http.Scopes.{
  vault_scopes_for, client_id_from_claims, has_scope, required_scope,
}

abbrev pub api_key_prefix : Text
api_key_prefix = text "dwv_"

-- What the middleware reads of a request; a missing header is empty.
pub record Request : Type 0 where
  pub x_api_key : Text
  pub authorization : Text
  pub method : Text

-- What it adds to the request's context.
pub record Session : Type 0 where
  pub context : Context
  pub scopes : List Text
  pub email : Option Text
  pub name : Option Text

-- Either the next handler is called, or the request is answered.
pub data Reply : Type 0 where
  next : Session → Reply
  answered : ℕ → Text → Reply

unfoldable pub bearer_token : Request → Text
bearer_token r =
    if ltb 7 (length r.authorization) && equal_fold (take 7 r.authorization) (text "Bearer ")
    then trim_space (drop 7 r.authorization)
    else []

unfoldable pub extract_access_key : Request → Text
extract_access_key r =
    if has_prefix r.x_api_key api_key_prefix
    then r.x_api_key
    else if has_prefix (bearer_token r) api_key_prefix
    then bearer_token r
    else []

-- The claims of a token and its audiences.
pub record Claims : Type 0 where
  pub sub : Text
  pub tenant_id : Text
  pub email : Text
  pub name : Text
  pub preferred_username : Text
  pub azp : Text
  pub client_id : Text
  pub audience : List Text

-- What comes of a token: the verifier rejects it, or accepts it but its claims do not decode, or gives
-- its claims.
pub data Verified : Type 0 where
  rejected undecodable : Verified
  verified : Claims → Verified

pub record Server : Type 0 where
  pub auth_on : Bool
  pub verifier : Option (Text → Verified)
  pub parse_uuid : Text → Option Uuid
  pub web_client_id : Text
  pub cli_client_id : Text

unfoldable pub emit_auth_failed : Context → Text → Exec Backend Unit
emit_auth_failed ctx reason =
    emit ctx (record (emit_params event_auth_failed outcome_failure [] []) { detail = reason })

-- The session of an access key.
unfoldable pub with_access_key_caller : Context → AccessKeyPrincipal → Session
with_access_key_caller ctx p = record {
  context = record ctx {
    caller = record { user_id = p.user_id; tenant_id = p.tenant_id };
    info = some (record (request_info_from ctx.info) {
      access_key_id = some p.id;
      access_key_prefix = some p.key_prefix;
      access_key_name = some p.name;
    });
  };
  scopes = p.scopes;
  email = none;
  name = none;
}

-- The session of a verified token whose subject is the user.
unfoldable pub session_of : Server → Context → Claims → Uuid → Session
session_of s ctx c user_id = record {
  context = record ctx {
    caller = record { user_id = user_id; tenant_id = or_else (s.parse_uuid c.tenant_id) 0 };
  };
  scopes =
      vault_scopes_for (client_id_from_claims c.azp c.client_id c.audience) c.audience
        s.web_client_id s.cli_client_id;
  email = str_ptr c.email;
  name = str_ptr (if is_empty c.name then c.preferred_username else c.name);
}

-- authenticateJWT from the parsing of the subject on.
abbrev pub with_subject : Server → Context → Claims → Option Uuid → Reply
with_subject s ctx c none =
    answered 401 (text "authenticated subject is missing or not a valid identifier.")
with_subject s ctx c (some user_id) = next (session_of s ctx c user_id)

-- authenticateJWT from the verified token on.
unfoldable pub with_claims : Server → Context → Verified → Exec Backend Reply
with_claims s ctx undecodable = pure (answered 401 (text "invalid token claims."))
with_claims s ctx rejected = do
  emit_auth_failed ctx (text "invalid bearer token.")
  pure (answered 401 (text "invalid bearer token."))
with_claims s ctx (verified c) = pure (with_subject s ctx c (s.parse_uuid c.sub))

unfoldable pub authenticate_jwt : Server → Context → Text → Exec Backend Reply
authenticate_jwt s ctx raw = elim s.verifier [
  | none ↦ pure (answered 503 (text "identity provider unavailable; try again shortly."))
  | some verify ↦ with_claims s ctx (verify raw)
]

-- The answer for a presented access key, from what Authenticate returned.
unfoldable pub with_principal : Context → Result (Option AccessKeyPrincipal) → Exec Backend Reply
with_principal ctx (ok (some p)) = do
  emit (with_access_key_caller ctx p).context
      (emit_params event_auth_succeeded outcome_success (text "access_key") p.name)
  pure (next (with_access_key_caller ctx p))
with_principal ctx (ok none) = do
  emit_auth_failed ctx (text "invalid or disabled API key.")
  pure (answered 401 (text "invalid or disabled API key."))
with_principal ctx (err e) = do
  emit_auth_failed ctx (text "invalid or disabled API key.")
  pure (answered 401 (text "invalid or disabled API key."))

module _ (sha256 : Text → Text) where
  unfoldable pub authenticate_request : Server → Context → Request → Exec Backend Reply
  authenticate_request s ctx r b =
      if not (is_empty (extract_access_key r))
      then (let (principal, c) = authenticate sha256 ctx (extract_access_key r) b in
          with_principal ctx principal c)
      else if not (is_empty (bearer_token r)) && s.auth_on
      then authenticate_jwt s ctx (bearer_token r) b
      else (do
        emit_auth_failed ctx (text "no credential presented.")
        pure (answered 401 (text "authentication required.")))
          b

unfoldable pub scope_gate : Text → Text → Session → Exec Backend Reply
scope_gate fixed_scope method session =
    let required = required_scope fixed_scope method in
    if not (has_scope session.scopes required)
    then (do
      emit_auth_failed session.context (text "missing scope '" ++ (required ++ text "'."))
      pure (answered 403 (text "caller missing required scope '" ++ (required ++ text "'."))))
    else pure (next session)

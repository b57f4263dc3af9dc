-- ===== src/Http/Router.antt =====
-- httpapi/router.go: the routes, each behind the rate limiter, the authentication and the scope gate.
-- The matching of paths is chi's; a route stands for the pattern that it has matched.
use donkey_work_vault.Base.{
  not, List, [], ◌++◌, Option, none, some, Text, text, if◌then◌else◌, Result, ok, err,
}
use donkey_work_vault.Store.Types.{Time}
use donkey_work_vault.Audit.Redactor.{redact_headers}
use donkey_work_vault.Audit.ForwardedIp.{NetIp, resolve}
use donkey_work_vault.Audit.Log.{Context, Backend, str_ptr, or_else}
use donkey_work_vault.Http.Limits.{IpRateLimiter, allow}
use donkey_work_vault.Http.Middleware.{
  Request, Session, Reply, next, answered, Server, authenticate_request, scope_gate,
}
use donkey_work_vault.Http.Dto.{
  Answer, json, app_config, AppConfigResponse, Handler, reply, write_error,
}
use donkey_work_vault.Http.Handlers.{Deps, Call}
use donkey_work_vault.Http.Handlers.Keys.{
  handle_list_api_keys, handle_create_api_key, handle_delete_api_key, handle_reveal_api_key,
  handle_credential_shape, handle_list_access_keys, handle_create_access_key,
  handle_set_access_key_enabled, handle_delete_access_key,
}
use donkey_work_vault.Http.Handlers.Providers.{
  handle_list_manifests, handle_list_templates, handle_upsert_manifest, handle_discover,
  handle_delete_manifest,
}
use donkey_work_vault.Http.Handlers.Oauth.{
  handle_list_configs, handle_upsert_config, handle_delete_config, handle_list_tokens,
  handle_delete_token, handle_get_token, handle_connect, handle_oauth_callback,
}
use donkey_work_vault.Http.Handlers.Trail.{handle_audit, handle_me}

-- The routes under /api/v1.
pub data Route : Type 0 where
  get_me get_api_keys post_api_keys delete_api_keys get_reveal get_credentials : Route
  get_access_keys post_access_keys patch_access_keys delete_access_keys : Route
  get_manifests get_templates post_manifests post_discover delete_manifests : Route
  get_configs post_configs delete_configs : Route
  get_tokens delete_tokens get_token get_connect get_audit : Route

abbrev pub method_of : Route → Text
method_of post_api_keys = text "POST"
method_of delete_api_keys = text "DELETE"
method_of post_access_keys = text "POST"
method_of patch_access_keys = text "PATCH"
method_of delete_access_keys = text "DELETE"
method_of post_manifests = text "POST"
method_of post_discover = text "POST"
method_of delete_manifests = text "DELETE"
method_of post_configs = text "POST"
method_of delete_configs = text "DELETE"
method_of delete_tokens = text "DELETE"
method_of _ = text "GET"

-- The scope that is given to the gate of the route's group.
abbrev pub fixed_scope : Route → Text
fixed_scope get_audit = text "vault:audit"
fixed_scope _ = []

unfoldable pub handle : Deps → Route → Session → Call → Handler
handle deps get_me s call = handle_me deps call s
handle deps get_api_keys s call = handle_list_api_keys deps s.context call
handle deps post_api_keys s call = handle_create_api_key deps s.context call
handle deps delete_api_keys s call = handle_delete_api_key deps s.context call
handle deps get_reveal s call = handle_reveal_api_key deps s.context call
handle deps get_credentials s call = handle_credential_shape deps s.context call
handle deps get_access_keys s call = handle_list_access_keys deps s.context call
handle deps post_access_keys s call = handle_create_access_key deps s.context call
handle deps patch_access_keys s call = handle_set_access_key_enabled deps s.context call
handle deps delete_access_keys s call = handle_delete_access_key deps s.context call
handle deps get_manifests s call = handle_list_manifests deps s.context call
handle deps get_templates s call = handle_list_templates deps s.context call
handle deps post_manifests s call = handle_upsert_manifest deps s.context call
handle deps post_discover s call = handle_discover deps s.context call
handle deps delete_manifests s call = handle_delete_manifest deps s.context call
handle deps get_configs s call = handle_list_configs deps s.context call
handle deps post_configs s call = handle_upsert_config deps s.context call
handle deps delete_configs s call = handle_delete_config deps s.context call
handle deps get_tokens s call = handle_list_tokens deps s.context call
handle deps delete_tokens s call = handle_delete_token deps s.context call
handle deps get_token s call = handle_get_token deps s.context call
handle deps get_connect s call = handle_connect deps s.context call
handle deps get_audit s call = handle_audit deps call s.context

-- The middleware never returns an error; one would be an internal error.
abbrev pub reply_of : Result Reply → Reply
reply_of (ok r) = r
reply_of (err e) = answered 500 (text "internal error")

-- `next.ServeHTTP`, or the answer that was given instead.
abbrev pub pass : Reply → (Session → Handler) → Handler
pass (answered n msg) go = reply (write_error n msg)
pass (next s) go = go s

module _ (deps : Deps) (server : Server) where
  abbrev pub behind_gate : Route → Text → Call → Session → Handler
  behind_gate route method call s b =
      let gate = scope_gate (fixed_scope route) method s b in
      pass (reply_of gate.0) (λ t. handle deps route t call) gate.1

  unfoldable pub serve_v1 : Context → Request → Route → Call → Handler
  serve_v1 ctx r route call b =
      let auth = authenticate_request deps.sha256 server ctx r b in
      pass (reply_of auth.0) (behind_gate route r.method call) auth.1

-- What the outer middleware reads of a request.
pub record Incoming : Type 0 where
  pub request : Request
  pub remote_addr : Text
  pub x_forwarded_for : Text
  pub x_real_ip : Text
  pub headers : List (Text × List Text)
  pub path : Text

pub data Endpoint : Type 0 where
  config_endpoint callback_endpoint : Endpoint
  v1 : Route → Endpoint

pub record App : Type 0 where
  pub limiter : IpRateLimiter
  pub backend : Backend

module _ {Addr Prefix : Type 0} (ip : NetIp Addr Prefix) (trusted : List Prefix)
    (peer_addr : Text → Addr) where
  unfoldable pub resolve_ip : Incoming → Option Text
  resolve_ip r =
      str_ptr (resolve ip trusted (peer_addr r.remote_addr) r.x_forwarded_for r.x_real_ip)

  -- The context of a request before it is authenticated.
  unfoldable pub base_context : Time → Incoming → Context
  base_context now r = record {
    caller = record { user_id = 0; tenant_id = 0 };
    info = some (record {
      source_ip = resolve_ip r;
      headers = redact_headers r.headers;
      access_key_id = none;
      access_key_prefix = none;
      access_key_name = none;
      transport = text "http";
      method = some (r.request.method ++ (text " " ++ r.path));
    });
    now = now;
  }

  module _ (deps : Deps) (server : Server) (config : AppConfigResponse) where
    abbrev pub endpoint : Context → Incoming → Endpoint → Call → Handler
    endpoint ctx r config_endpoint call = reply (json 200 (app_config config))
    endpoint ctx r callback_endpoint call = handle_oauth_callback deps ctx call
    endpoint ctx r (v1 route) call = serve_v1 deps server ctx r.request route call

    -- The rate limiter first. The cap of the body is left out.
    unfoldable pub serve : Time → Incoming → Endpoint → Call → App → Answer × App
    serve now r e call app =
        let (allowed, limiter) = allow (or_else (resolve_ip r) []) now app.limiter in
        if not allowed
        then (write_error 429 (text "rate limit exceeded."), record app { limiter = limiter })
        else (let served = endpoint (base_context now r) r e call app.backend in
            (served.0, record { limiter = limiter; backend = served.1 }))

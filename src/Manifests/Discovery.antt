-- ===== src/Manifests/Discovery.antt =====
-- manifests/discovery.go: a draft of a manifest from an OIDC discovery document. The request, the
-- decoder of the document and url.Parse are parameters.
use donkey_work_vault.Base.{
  not, false, ◌||◌, ◌==◌, ltb, leb, ℕ, List, [], ◌∷◌, ◌++◌, map, keep, Text, text, is_empty,
  has_part, to_lower, trim_space, contains, if◌then◌else◌, Result, ok, err, plain,
}
use donkey_work_vault.Base.Fallible.{◌>>=◌}
use donkey_work_vault.Base.Cut.{trim_right, fields, trim_prefix}
use donkey_work_vault.Manifests.{Manifest, ScopeDef}

unfoldable pub normalize_host : Text → Text
normalize_host host = trim_prefix (to_lower (trim_right b'.' (trim_space host))) (text "www.")

-- The last label but one, or the only one.
abbrev pub label_before_last : List Text → Text
label_before_last [] = []
label_before_last (l ∷ []) = l
label_before_last (k ∷ l ∷ []) = k
label_before_last (j ∷ k ∷ l ∷ ls) = label_before_last (k ∷ l ∷ ls)

unfoldable pub key_from_host : Text → Text
key_from_host host = label_before_last (fields (λ c. c == b'.') (normalize_host host))

pub record WellKnown : Type 0 where
  pub issuer : Text
  pub authorization_endpoint : Text
  pub token_endpoint : Text
  pub userinfo_endpoint : Text
  pub scopes_supported : List Text

unfoldable pub discovery_url : Text → Text
discovery_url raw =
    let u = trim_space raw in
    if has_part (to_lower u) (text "/.well-known/")
    then u
    else trim_right b'/' u ++ text "/.well-known/openid-configuration"

abbrev pub discovered : Text → ScopeDef
discovered s = record {
  value = s;
  description = [];
  category = text "discovered";
  sensitive = false;
}

abbrev pub login_scopes : List Text
login_scopes = text "openid" ∷ text "email" ∷ text "profile" ∷ text "offline_access" ∷ []

-- The scopes that the loop keeps.
abbrev pub supported : WellKnown → List Text
supported wk = keep (λ s. not (is_empty s)) wk.scopes_supported

-- The host of the issuer where url.Parse finds one.
abbrev pub named_host : Result Text → Text
named_host (err e) = []
named_host (ok host) = host

module _ (host_of : Text → Result Text) where
  -- The draft; an issuer without a host leaves the name and the key empty.
  unfoldable pub draft : WellKnown → Manifest
  draft wk =
      let host = named_host (host_of wk.issuer) in
      record {
        id = 0;
        parent_id = 0;
        key = if is_empty host then [] else key_from_host host;
        name = if is_empty host then [] else normalize_host host;
        icon_url = [];
        docs_url = [];
        authorization_endpoint = wk.authorization_endpoint;
        token_endpoint = wk.token_endpoint;
        userinfo_endpoint = wk.userinfo_endpoint;
        token_endpoint_auth_method = [];
        userinfo_account_path = [];
        scope_delimiter = text " ";
        default_scopes = keep (contains login_scopes) (supported wk);
        scopes = map discovered (supported wk);
        authorize_params = [];
      }

  -- `fetch` is the GET request: an error, or the status and the body.
  unfoldable pub discover :
      (Text → Result (ℕ × Text)) → (Text → Result WellKnown) → Text → Result Manifest
  discover fetch decode raw = fetch (discovery_url raw) >>= λ reply.
      if ltb reply.0 200 || leb 300 reply.0
      then err (plain (text "discovery HTTP"))
      else decode reply.1 >>= λ wk. ok (draft wk)

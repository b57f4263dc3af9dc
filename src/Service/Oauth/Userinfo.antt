-- ===== src/Service/Oauth/Userinfo.antt =====
-- service/oauthflow.go: the account that the userinfo endpoint names.
use donkey_work_vault.Base.{
  Bool, false, not, List, [], ◌∷◌, ◌++◌, take, Option, none, some, Text, text, text_eq, is_empty,
  if◌then◌else◌, Result, ok, err,
}
use donkey_work_vault.Base.Cut.{split}
use donkey_work_vault.Manifests.{Manifest}
use donkey_work_vault.Service.Oauth.{
  Any, object, str, other, Fields, no_field, field, OauthJson, Client, Reply, http_ok,
  max_token_response_bytes,
}

abbrev pub default_account : Text
default_account = text "default"

-- object[key], where a missing key gives nil
abbrev pub at_key : Text → Fields → Any
at_key k no_field = other
at_key k (field j v fs) = if text_eq j k then v else at_key k fs

-- The loop over the parts of the path.
abbrev pub at_path : List Text → Any → Option Any
at_path [] v = some v
at_path (k ∷ ks) (object fs) = at_path ks (at_key k fs)
at_path (k ∷ ks) (str s) = none
at_path (k ∷ ks) other = none

abbrev pub text_or_default : Option Any → Text
text_or_default (some (str (c ∷ s))) = c ∷ s
text_or_default _ = default_account

abbrev pub account_keys : List Text
account_keys =
    text "email"
    ∷ text "mail"
    ∷ text "userPrincipalName"
    ∷ text "preferred_username"
    ∷ text "login"
    ∷ text "sub"
    ∷ []

abbrev pub is_named : Any → Bool
is_named (str s) = not (is_empty s)
is_named _ = false

abbrev pub first_account : Fields → List Text → Text
first_account info [] = default_account
first_account info (k ∷ ks) =
    if is_named (at_key k info)
    then text_or_default (some (at_key k info))
    else first_account info ks

abbrev pub account_of : Text → Result Fields → Text
account_of path (err e) = default_account
account_of path (ok info) =
    if is_empty path
    then first_account info account_keys
    else text_or_default (at_path (split b'.' path) (object info))

module _ (json : OauthJson) (client : Client) where
  abbrev pub account_in : Manifest → Result Reply → Text
  account_in m (err e) = default_account
  account_in m (ok r) =
      if http_ok r.status
      then account_of m.userinfo_account_path
          (json.unmarshal_info (take max_token_response_bytes r.body))
      else default_account

  unfoldable pub fetch_account : Manifest → Text → Text
  fetch_account m access_token =
      if is_empty m.userinfo_endpoint
      then default_account
      else account_in m (
          client.send (record {
            method = text "GET";
            url = m.userinfo_endpoint;
            headers =
                (text "Authorization", text "Bearer " ++ access_token)
                ∷ (text "Accept", text "application/json")
                ∷ (text "User-Agent", text "donkeywork-vault")
                ∷ [];
            body = [];
          }))

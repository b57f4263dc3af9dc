-- ===== src/Service/Oauth/Exchange.antt =====
-- service/oauthflow.go: the exchange of the code at the token endpoint, which changes no state here.
use donkey_work_vault.Base.{
  ℕ, [], ◌∷◌, ◌++◌, Option, none, some, Text, text, if◌then◌else◌, Result, ok, err,
  oauth_authorization,
}
use donkey_work_vault.Base.Cut.{decimal}
use donkey_work_vault.Base.Fallible.{◌>>=◌}
use donkey_work_vault.Crypto.Cipher.{Cipher}
use donkey_work_vault.Store.Types.{OauthProviderConfig, OauthState}
use donkey_work_vault.Manifests.{Manifest}
use donkey_work_vault.Service.Oauth.{
  OauthJson, TokenResponse, Client, Form, message, post_form, http_ok, granted,
}

abbrev pub found_or : {A : Type 0} → Text → Option A → Result A
found_or msg none = err (oauth_authorization msg)
found_or msg (some a) = ok a

abbrev pub quoted : Text → Text → Text → Text
quoted before s after = before ++ (text "'" ++ (s ++ (text "'" ++ after)))

abbrev pub exchange_form : OauthState → Text → Text → Text → Form
exchange_form state_row code client_id client_secret =
    (text "grant_type", text "authorization_code")
    ∷ (text "code", code)
    ∷ (text "client_id", client_id)
    ∷ (text "client_secret", client_secret)
    ∷ (text "redirect_uri", state_row.redirect_uri)
    ∷ (text "code_verifier", state_row.code_verifier)
    ∷ []

-- What the answer grants.
unfoldable pub exchanged : OauthJson → Result (ℕ × Text) → Result TokenResponse
exchanged json (err e) = err (oauth_authorization (text "token exchange failed: " ++ message e))
exchanged json (ok (status, body)) =
    if http_ok status
    then found_or (text "token exchange returned no access_token.")
        (granted (json.unmarshal_token body))
    else err (oauth_authorization (text "token exchange failed: HTTP " ++ decimal status))

module _ (json : OauthJson) (cipher : Cipher) (client : Client) where
  unfoldable pub request_grant :
      OauthState → Manifest → OauthProviderConfig → Text → Result TokenResponse
  request_grant state_row manifest config code = do
    client_id ← cipher.decrypt_to_string config.client_id_cipher
    client_secret ← cipher.decrypt_to_string config.client_secret_cipher
    exchanged json (
        post_form client manifest.token_endpoint
          (exchange_form state_row code client_id client_secret)
          manifest.token_endpoint_auth_method)

-- ===== src/Service/Oauth.antt =====
-- What the OAuth services share: service/httpform.go, oauth/pkce.go, the scope lists and the answers of
-- a provider. The HTTP client, JSON, SHA-256 and the encoding of URLs are parameters.
pub mod Configs
pub mod Tokens
pub mod Userinfo
pub mod Exchange
pub mod Flow
pub mod Replay
pub mod Filtered
mod Stored
pub mod Connected
pub mod Refreshed
pub mod Samples
mod Tests
use mathlib.Core.Bool.{◌&&◌, ◌||◌}
use donkey_work_vault.Base.{
  ℕ, ◌+◌, ◌-◌, ◌*◌, ◌%◌, ◌^◌, Bool, true, false, not, List, [], ◌∷◌, ◌++◌, keep, take, drop, length,
  find, Option, none, some, Text, text, text_eq, is_empty, ltb, leb, if◌then◌else◌, Result, ok, err,
  Error, plain, validation, oauth_authorization, oauth_refresh, invalid_slug, panic,
}
use donkey_work_vault.Base.Base64.{raw_url_encode, std_encode}
use donkey_work_vault.Base.Exec.{Exec, pure, ◌>>=◌}
use donkey_work_vault.Base.Runes.{runes, of_runes}
use donkey_work_vault.Base.Integers.{ℤ, below_one, to_nat}
use donkey_work_vault.Store.Types.{Time}
use donkey_work_vault.Crypto.{read_full}

-- err.Error(), where the formatted arguments of a slug error are left out.
abbrev pub message : Error → Text
message (validation s) = s
message (oauth_authorization s) = s
message (oauth_refresh s) = s
message (invalid_slug s) = text "provider slug must be non-empty and match [a-zA-Z0-9_-]"
message (plain s) = s
message panic = []

pub record TokenResponse : Type 0 where
  pub access_token : Text
  pub refresh_token : Text
  pub expires_in : ℤ
  pub scope : Text

-- A JSON value decoded into `any`; numbers, lists and the others are alike to the code.
mutual
  pub data Any : Type 0 where
    object : Fields → Any
    str : Text → Any
    other : Any

  pub data Fields : Type 0 where
    no_field : Fields
    field : Text → Any → Fields → Fields

-- json.Marshal and json.Unmarshal on the types of these files.
pub record OauthJson : Type 0 where
  pub marshal_scopes : List Text → Text
  pub unmarshal_scopes : Text → Result (List Text)
  pub unmarshal_token : Text → Result TokenResponse
  pub unmarshal_info : Text → Result Fields

pub record Request : Type 0 where
  pub method : Text
  pub url : Text
  pub headers : List (Text × Text)
  pub body : Text

-- `failure` is an error while the body is read.
pub record Reply : Type 0 where
  pub status : ℕ
  pub body : Text
  pub failure : Option Error

-- The client's Do, with the error of http.NewRequestWithContext. url.Values.Encode and
-- url.QueryEscape come with it.
pub record Client : Type 0 where
  pub send : Request → Result Reply
  pub encode_form : List (Text × Text) → Text
  pub query_escape : Text → Text

-- url.Values of one value for a key
abbrev pub Form : Type 0
Form = List (Text × Text)

abbrev pub form_get : Text → Form → Text
form_get k [] = []
form_get k ((j, v) ∷ form) = if text_eq j k then v else form_get k form

abbrev pub form_del : Text → Form → Form
form_del k form = keep (λ (e : Text × Text). not (text_eq e.0 k)) form

abbrev pub form_set : Text → Text → Form → Form
form_set k v [] = (k, v) ∷ []
form_set k v ((j, w) ∷ form) =
    let rest = form_set k v form in if text_eq j k then (j, v) ∷ form else (j, w) ∷ rest

abbrev pub max_token_response_bytes : ℕ
max_token_response_bytes = 2 ^ 20

abbrev pub http_ok : ℕ → Bool
http_ok status = leb 200 status && ltb status 300

abbrev pub read_reply : Option Error → ℕ → Text → Result (ℕ × Text)
read_reply (some e) status body = err e
read_reply none status body = ok (status, take max_token_response_bytes body)

abbrev pub answer : Result Reply → Result (ℕ × Text)
answer (err e) = err e
answer (ok r) = read_reply r.failure r.status r.body

module _ (client : Client) where
  -- req.SetBasicAuth
  abbrev pub basic_auth : Text → Text → List (Text × Text)
  basic_auth id secret =
      (
        text "Authorization",
        text "Basic "
            ++ std_encode (client.query_escape id ++ (text ":" ++ client.query_escape secret)),
      )
      ∷ []

  abbrev pub send_form : Text → Form → List (Text × Text) → Result (ℕ × Text)
  send_form endpoint form authorization = answer (
      client.send (record {
        method = text "POST";
        url = endpoint;
        headers =
            authorization
            ++ (text "Content-Type", text "application/x-www-form-urlencoded")
              ∷ (text "Accept", text "application/json")
              ∷ (text "User-Agent", text "donkeywork-vault")
              ∷ [];
        body = client.encode_form form;
      }))

  unfoldable pub post_form : Text → Form → Text → Result (ℕ × Text)
  post_form endpoint form method =
      if is_empty method || text_eq method (text "client_secret_post")
      then send_form endpoint form []
      else if text_eq method (text "client_secret_basic")
      then send_form endpoint (form_del (text "client_secret") (form_del (text "client_id") form))
          (basic_auth (form_get (text "client_id") form) (form_get (text "client_secret") form))
      else err (plain (text "unsupported token endpoint auth method"))

-- randomBase64url(32), which is GenerateVerifier and RandomState
unfoldable pub random_base64url : Exec Text Text
random_base64url = do b ← read_full 32; pure (raw_url_encode b)

abbrev pub challenge : (Text → Text) → Text → Text
challenge sha256 verifier = raw_url_encode (sha256 verifier)

-- The client id shown in a list: three bytes for the ellipsis.
unfoldable pub mask : Text → Text
mask s =
    let r = runes s in
    if leb (length r) 10
    then text "***"
    else of_runes (take 6 r) ++ (0xE2 ∷ 0x80 ∷ 0xA6 ∷ []) ++ of_runes (drop (length r - 4) r)

-- An error leaves no scopes.
abbrev pub scopes_or_none : Result (List Text) → List Text
scopes_or_none (ok scopes) = scopes
scopes_or_none (err e) = []

unfoldable pub decode_scopes : OauthJson → Option Text → List Text
decode_scopes json none = []
decode_scopes json (some []) = []
decode_scopes json (some (c ∷ s)) = scopes_or_none (json.unmarshal_scopes (c ∷ s))

abbrev pub second : ℕ
second = 10 ^ 9

-- t.Add(time.Duration(n) * time.Second), where the product wraps at 64 bits.
unfoldable pub add_seconds : Time → ℕ → Time
add_seconds t n = let d = n * second % 2 ^ 64 in if ltb d (2 ^ 63) then t + d else t - (2 ^ 64 - d)

-- `if parsed.ExpiresIn > 0`
unfoldable pub expiry : Time → ℤ → Option Time
expiry now expires_in =
    if below_one expires_in then none else some (add_seconds now (to_nat expires_in))

-- json.Unmarshal of the answer, and the test for an access token.
abbrev pub granted : Result TokenResponse → Option TokenResponse
granted (err e) = none
granted (ok parsed) = if is_empty parsed.access_token then none else some parsed

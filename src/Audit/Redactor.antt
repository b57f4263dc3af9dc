-- ===== src/Audit/Redactor.antt =====
-- audit/redactor.go: which header values the trail may keep.
use mathlib.Core.Bool.{◌||◌}
use donkey_work_vault.Base.{
  Bool, true, List, [], ◌∷◌, Text, text, text_eq, is_empty, to_lower, has_part, has_suffix, any,
  if◌then◌else◌,
}

abbrev pub redacted : Text
redacted = text "***"

abbrev pub allowlist : List Text
allowlist =
    text "user-agent"
    ∷ text "content-type"
    ∷ text "accept"
    ∷ text "x-request-id"
    ∷ text "traceparent"
    ∷ text "x-forwarded-for"
    ∷ text "x-real-ip"
    ∷ text "x-forwarded-proto"
    ∷ text "host"
    ∷ []

abbrev pub deny_exact : List Text
deny_exact =
    text "authorization"
    ∷ text "x-api-key"
    ∷ text "x-internal-token"
    ∷ text "cookie"
    ∷ text "set-cookie"
    ∷ text "proxy-authorization"
    ∷ []

unfoldable pub is_denied : Text → Bool
is_denied name =
    let low = to_lower name in
    if any (text_eq low) deny_exact
    then true
    else has_part low (text "token")
      || has_part low (text "secret")
      || has_part low (text "password")
      || has_suffix low (text "-key")

unfoldable pub redact_header : Text → Text → Text
redact_header name value =
    if is_empty name
    then redacted
    else if is_denied name
    then redacted
    else if any (text_eq (to_lower name)) allowlist
    then value
    else redacted

-- `v := ""; if len(values) > 0 { v = values[0] }`
abbrev pub first_value : List Text → Text
first_value [] = []
first_value (v ∷ vs) = v

-- The loop of RedactHeaders, with the map so far.
unfoldable pub redact_from : List (Text × Text) → List (Text × List Text) → List (Text × Text)
redact_from out [] = out
redact_from out ((name, vs) ∷ rest) =
    redact_from
      (if is_empty name
        then out
        else if any (λ (e : Text × Text). text_eq e.0 (to_lower name)) out
        then out
        else (to_lower name, redact_header name (first_value vs)) ∷ out)
      rest

unfoldable pub redact_headers : List (Text × List Text) → List (Text × Text)
redact_headers hs = redact_from [] hs

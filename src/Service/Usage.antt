-- ===== src/Service/Usage.antt =====
-- service/service.go and contracts/credentialkind.go: how a stored credential is presented.
use donkey_work_vault.Base.{
  [], Option, none, some, Text, text, text_eq, is_empty, if◌then◌else◌, trim_space,
}

pub data CredentialKind : Type 0 where
  kind_opaque kind_header_api_key kind_http_basic : CredentialKind
  kind_username_password kind_ssh kind_connection_string : CredentialKind

-- The text of a kind in the API and in the store.
abbrev pub wire : CredentialKind → Text
wire kind_opaque = text "opaque"
wire kind_header_api_key = text "header_api_key"
wire kind_http_basic = text "http_basic"
wire kind_username_password = text "username_password"
wire kind_ssh = text "ssh"
wire kind_connection_string = text "connection_string"

unfoldable pub credential_kind_from_wire : Text → CredentialKind
credential_kind_from_wire s =
    if text_eq s (text "header_api_key")
    then kind_header_api_key
    else if text_eq s (text "http_basic")
    then kind_http_basic
    else if text_eq s (text "username_password")
    then kind_username_password
    else if text_eq s (text "ssh")
    then kind_ssh
    else if text_eq s (text "connection_string")
    then kind_connection_string
    else kind_opaque

unfoldable pub scheme : CredentialKind → Text
scheme kind_http_basic = text "basic"
scheme _ = text "header"

unfoldable pub header_name : Text → Text
header_name header = if is_empty header then text "Authorization" else header

abbrev pub deref : Option Text → Text
deref none = []
deref (some s) = s

abbrev pub ptr_if_not_empty : Text → Option Text
ptr_if_not_empty s = if is_empty (trim_space s) then none else some s

-- ===== src/Http/Scopes.antt =====
-- httpapi/scopemap.go, and the scope gate of httpapi/middleware.go.
use mathlib.Core.Bool.{◌&&◌, ◌||◌}
use donkey_work_vault.Base.{
  Bool, true, false, not, List, [], ◌∷◌, ◌++◌, Text, text, text_eq, is_empty, contains, has_suffix,
  take, length, ◌-◌, if◌then◌else◌,
}

abbrev pub web_vault_scopes : List Text
web_vault_scopes = text "vault:read" ∷ text "vault:readwrite" ∷ text "vault:audit" ∷ []

abbrev pub cli_vault_scopes : List Text
cli_vault_scopes = text "vault:read" ∷ text "vault:readwrite" ∷ []

-- contains of scopemap.go, which finds no empty text
abbrev pub contains_some : List Text → Text → Bool
contains_some s v = if is_empty v then false else contains s v

unfoldable pub vault_scopes_for : Text → List Text → Text → Text → List Text
vault_scopes_for client_id audiences web_client_id cli_client_id =
    if text_eq client_id cli_client_id
      && not (is_empty cli_client_id)
      && contains_some audiences web_client_id
    then cli_vault_scopes
    else if text_eq client_id web_client_id && not (is_empty web_client_id)
    then web_vault_scopes
    else []

-- The sole audience, if there is one.
abbrev pub sole : List Text → Text
sole [] = []
sole (a ∷ []) = a
sole (a ∷ b ∷ rest) = []

unfoldable pub client_id_from_claims : Text → Text → List Text → Text
client_id_from_claims azp client_id audiences =
    if not (is_empty azp)
    then azp
    else if not (is_empty client_id)
    then client_id
    else sole audiences

-- `granted[scope]` is true for the scopes of the list.
unfoldable pub has_scope : List Text → Text → Bool
has_scope granted required =
    if contains granted required
    then true
    else if has_suffix required (text ":read")
    then contains granted (take (length required - 5) required ++ text ":readwrite")
    else false

unfoldable pub required_scope : Text → Text → Text
required_scope fixed_scope method =
    if not (is_empty fixed_scope)
    then fixed_scope
    else if text_eq method (text "GET")
        || text_eq method (text "HEAD")
        || text_eq method (text "OPTIONS")
    then text "vault:read"
    else text "vault:readwrite"

-- ===== src/Audit/Types.antt =====
-- audit/types.go: the kinds of events, their names, events and the metadata of a request.
use donkey_work_vault.Base.{
  ℕ, ◌+◌, ◌-◌, Bool, true, false, List, [], ◌∷◌, Option, none, some, Text, text, leb, length, ◌==◌,
  ◌&&◌, if◌then◌else◌,
}
use donkey_work_vault.Store.Types.{Uuid, Time}

pub data EventType : Type 0 where
  event_unknown event_token_accessed event_token_refreshed event_token_added : EventType
  event_credential_created event_auth_succeeded event_auth_failed : EventType
  event_audit_accessed event_token_removed : EventType

-- The value that is stored.
abbrev pub event_int : EventType → ℕ
event_int event_unknown = 0
event_int event_token_accessed = 1
event_int event_token_refreshed = 2
event_int event_token_added = 3
event_int event_credential_created = 4
event_int event_auth_succeeded = 5
event_int event_auth_failed = 6
event_int event_audit_accessed = 7
event_int event_token_removed = 8

abbrev pub event_name : EventType → Text
event_name event_token_accessed = text "TokenAccessed"
event_name event_token_refreshed = text "TokenRefreshed"
event_name event_token_added = text "TokenAdded"
event_name event_credential_created = text "CredentialCreated"
event_name event_auth_succeeded = text "AuthSucceeded"
event_name event_auth_failed = text "AuthFailed"
event_name event_audit_accessed = text "AuditAccessed"
event_name event_token_removed = text "TokenRemoved"
event_name event_unknown = text "Unknown"

-- One byte, with a capital letter made small.
abbrev pub fold_byte : ℕ → ℕ
fold_byte c = if leb 65 c && leb c 90 then c + (97 - 65) else c

-- The loop of equalFold, on two strings of one length.
abbrev pub fold_bytes : Text → Text → Bool
fold_bytes [] t = true
fold_bytes (a ∷ s) [] = true
fold_bytes (a ∷ s) (b ∷ t) = fold_byte a == fold_byte b && fold_bytes s t

unfoldable pub equal_fold : Text → Text → Bool
equal_fold a b = length a == length b && fold_bytes a b

-- The loop of ParseEventType runs through the values in order.
abbrev pub event_types : List EventType
event_types =
    event_unknown ∷ event_token_accessed ∷ event_token_refreshed ∷ event_token_added
    ∷ event_credential_created ∷ event_auth_succeeded ∷ event_auth_failed ∷ event_audit_accessed
    ∷ event_token_removed ∷ []

abbrev pub parse_from : List EventType → Text → EventType × Bool
parse_from [] s = (event_unknown, false)
parse_from (t ∷ ts) s = if equal_fold (event_name t) s then (t, true) else parse_from ts s

unfoldable pub parse_event_type : Text → EventType × Bool
parse_event_type s = parse_from event_types s

pub data Outcome : Type 0 where
  outcome_success outcome_failure : Outcome

abbrev pub outcome_int : Outcome → ℕ
outcome_int outcome_success = 0
outcome_int outcome_failure = 1

abbrev pub outcome_name : Outcome → Text
outcome_name outcome_failure = text "Failure"
outcome_name outcome_success = text "Success"

unfoldable pub parse_outcome : Text → Outcome × Bool
parse_outcome s =
    if equal_fold s (text "Success")
    then (outcome_success, true)
    else if equal_fold s (text "Failure")
    then (outcome_failure, true)
    else (outcome_success, false)

pub record Event : Type 0 where
  pub kind : EventType
  pub outcome : Outcome
  pub user_id : Uuid
  pub tenant_id : Uuid
  pub access_key_id : Option Uuid
  pub access_key_prefix : Option Text
  pub access_key_name : Option Text
  pub source_ip : Option Text
  pub headers : List (Text × Text)
  pub target_kind : Option Text
  pub target_provider : Option Text
  pub target_account : Option Text
  pub target_name : Option Text
  pub transport : Text
  pub method : Option Text
  pub detail : Option Text
  pub created_at : Time

pub record RequestInfo : Type 0 where
  pub source_ip : Option Text
  pub headers : List (Text × Text)
  pub access_key_id : Option Uuid
  pub access_key_prefix : Option Text
  pub access_key_name : Option Text
  pub transport : Text
  pub method : Option Text

abbrev pub default_request_info : RequestInfo
default_request_info = record {
  source_ip = none;
  headers = [];
  access_key_id = none;
  access_key_prefix = none;
  access_key_name = none;
  transport = text "unknown";
  method = none;
}

-- What RequestInfoFrom reads, from the metadata that the context carries, if any.
unfoldable pub request_info_from : Option RequestInfo → RequestInfo
request_info_from none = default_request_info
request_info_from (some info) = info

-- ===== src/Audit/Names.antt =====
-- audit/types.go: the names of events and outcomes.
use mathlib.Core.Logic.{◌↔◌}
use donkey_work_vault.Base.{
  ◌≡◌, refl, ◌∙◌, sym, arith, inl, inr, Bool-cases, true, List, [], ◌∷◌, Text, length, ◌==◌, ◌&&◌,
  lower, to_lower,
}
use donkey_work_vault.Audit.Types.{
  EventType, event_unknown, event_token_accessed, event_token_refreshed, event_token_added,
  event_credential_created, event_auth_succeeded, event_auth_failed, event_audit_accessed,
  event_token_removed, event_name, event_types, fold_bytes, equal_fold, parse_from,
  parse_event_type,
}

fold_bytes_iff :
    (a b : Text) → ((length a == length b && fold_bytes a b) ≡ true) ↔ (to_lower a ≡ to_lower b)
unfolding to_lower lower
fold_bytes_iff [] [] = ground arith
fold_bytes_iff [] (b ∷ t) = ground arith
fold_bytes_iff (a ∷ s) [] = ground arith
fold_bytes_iff (a ∷ s) (b ∷ t) = ground (arith, fold_bytes_iff s t)

-- equalFold holds for the texts that are equal but for capital ASCII letters.
pub equal_fold_iff : (a b : Text) → (equal_fold a b ≡ true) ↔ (to_lower a ≡ to_lower b)
unfolding equal_fold
equal_fold_iff a b = fold_bytes_iff a b

-- What ParseEventType finds is an event of that name.
parse_from_sound :
    (ts : List EventType) (s : Text) (t : EventType)
    → parse_from ts s ≡ (t, true)
    → equal_fold (event_name t) s ≡ true
parse_from_sound [] s t h = ground arith
parse_from_sound (u ∷ ts) s t h = elim (Bool-cases (equal_fold (event_name u) s)) [
  | inl same ↦ ground (arith, h, same)
  | inr other ↦ parse_from_sound ts s t (rw other at h)
]

event_name-parse : (t : EventType) → parse_event_type (event_name t) ≡ (t, true)
unfolding parse_event_type equal_fold
event_name-parse event_unknown = refl
event_name-parse event_token_accessed = refl
event_name-parse event_token_refreshed = refl
event_name-parse event_token_added = refl
event_name-parse event_credential_created = refl
event_name-parse event_auth_succeeded = refl
event_name-parse event_auth_failed = refl
event_name-parse event_audit_accessed = refl
event_name-parse event_token_removed = refl

equal_fold-right : (n s t : Text) → to_lower s ≡ to_lower t → equal_fold n s ≡ equal_fold n t
equal_fold-right n s t e = ground (arith, equal_fold_iff n s, equal_fold_iff n t, e)

parse_from-right :
    (ts : List EventType) (s t : Text) → to_lower s ≡ to_lower t → parse_from ts s ≡ parse_from ts t
parse_from-right [] s t e = refl
parse_from-right (u ∷ ts) s t e =
    rw (equal_fold-right (event_name u) s t e, parse_from-right ts s t e) refl

-- ParseEventType accepts a text as the event `t` exactly if it is the name that String gives `t`,
-- but for capital letters.
pub parse_event_type_iff :
    (s : Text) (t : EventType)
    → (parse_event_type s ≡ (t, true)) ↔ (to_lower s ≡ to_lower (event_name t))
unfolding parse_event_type
parse_event_type_iff s t = (
  λ h. sym ((equal_fold_iff (event_name t) s).0 (parse_from_sound event_types s t h)),
  λ e. parse_from-right event_types s (event_name t) e ∙ event_name-parse t,
)

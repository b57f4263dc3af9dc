-- ===== src/Service/Normalized.antt =====
-- service/accesskey.go: normalizeScopes keeps each scope that is not blank once.
use mathlib.Core.Bool.{◌&&◌, ◌||◌}
use donkey_work_vault.Base.{
  ◌≡◌, refl, arith, inl, inr, Bool-cases, false, not, List, [], ◌∷◌, ◌++◌, Text, text_eq_iff,
  contains, is_empty, trim_space,
}
use donkey_work_vault.Service.AccessKeys.{normalize_from, normalize_scopes}

-- No text stands twice.
abbrev pub Unique : List Text → Type 0
Unique [] = Unit
Unique (s ∷ ss) = (contains ss s ≡ false) × Unique ss

contains-append :
    (ss ts : List Text) (s : Text) → contains (ss ++ ts) s ≡ (contains ss s || contains ts s)
unfolding contains
contains-append [] ts s = refl
contains-append (x ∷ ss) ts s = ground (arith, contains-append ss ts s)

Unique-append_one :
    (ss : List Text) (s : Text) → Unique ss → contains ss s ≡ false → Unique (ss ++ s ∷ [])
unfolding contains
Unique-append_one [] s u h = (refl, tt)
Unique-append_one (x ∷ ss) s u h =
    ground (
      arith,
      Unique-append_one ss s,
      contains-append ss (s ∷ []) x,
      text_eq_iff x s,
      text_eq_iff s x,
    )

-- Which scopes the loop returns.
contains-normalize_from :
    (out scopes : List Text) (s : Text)
    → contains (normalize_from out scopes) s
      ≡ (contains out s || (contains scopes s && not (is_empty (trim_space s))))
unfolding contains
contains-normalize_from out [] s = ground arith
contains-normalize_from out (x ∷ xs) s =
    elim (Bool-cases (is_empty (trim_space x) || contains out x)) [
      | inl skipped ↦
          rw skipped (ground (arith, skipped, contains-normalize_from out xs s, text_eq_iff x s))
      | inr added ↦ rw added (
          ground (
            arith,
            added,
            contains-normalize_from (out ++ x ∷ []) xs s,
            contains-append out (x ∷ []) s,
            text_eq_iff x s,
          ))
    ]

Unique-normalize_from : (out scopes : List Text) → Unique out → Unique (normalize_from out scopes)
Unique-normalize_from out [] u = u
Unique-normalize_from out (x ∷ xs) u =
    elim (Bool-cases (is_empty (trim_space x) || contains out x)) [
      | inl skipped ↦ rw skipped (Unique-normalize_from out xs u)
      | inr added ↦
          rw added
            (Unique-normalize_from (out ++ x ∷ []) xs (Unique-append_one out x u (ground arith)))
    ]

-- normalizeScopes returns exactly the scopes that it was given and that are not blank, each once.
pub normalize_scopes-exact :
    (scopes : List Text)
    → Unique (normalize_scopes scopes)
      × ((s : Text)
          → contains (normalize_scopes scopes) s
            ≡ (contains scopes s && not (is_empty (trim_space s))))
unfolding normalize_scopes contains
normalize_scopes-exact scopes = (Unique-normalize_from [] scopes tt, λ s. nothing_before s)
  where
    nothing_before :
        (s : Text)
        → contains (normalize_from [] scopes) s
          ≡ (contains scopes s && not (is_empty (trim_space s)))
    nothing_before s = contains-normalize_from [] scopes s

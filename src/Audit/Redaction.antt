-- ===== src/Audit/Redaction.antt =====
-- audit/redactor.go: what the trail keeps of a request's headers.
use donkey_work_vault.Base.{
  ℕ, ◌≡◌, ◌⊎◌, refl, ◌∙◌, arith, if◌then◌else◌, inl, inr, Bool, Bool-cases, true, false, List, [],
  ◌∷◌, Text, text_eq, text_eq_iff, is_empty, lower, to_lower, any, All, Within,
}
use donkey_work_vault.Audit.Redactor.{
  redacted, allowlist, is_denied, redact_header, redact_from, redact_headers, first_value,
}

-- A header keeps its first value exactly if its name is on the allow list and no deny rule matches
-- it; any other is hidden.
abbrev pub Redacts : Text → List Text → Text → Type 0
Redacts low vs kept =
    ((any (text_eq low) allowlist ≡ true) × (is_denied low ≡ false) × (kept ≡ first_value vs))
    ⊎ (((any (text_eq low) allowlist ≡ false) ⊎ (is_denied low ≡ true)) × (kept ≡ redacted))

-- The entry is that of one of the request's headers with its name, in lower case.
abbrev pub IsFrom : List (Text × List Text) → Text × Text → Type 0
IsFrom hs e =
    (name : Text) × (vs : List Text) × Within (name, vs) hs
    × (is_empty name ≡ false)
    × (e.0 ≡ to_lower name)
    × Redacts e.0 vs e.1

-- A header without a name has no entry, any other has one.
abbrev pub IsKept : List (Text × Text) → Text × List Text → Type 0
IsKept out h =
    (is_empty h.0 ≡ true) ⊎ (any (λ (e : Text × Text). text_eq e.0 (to_lower h.0)) out ≡ true)

lower-lower : (c : ℕ) → lower (lower c) ≡ lower c
unfolding lower
lower-lower c = ground arith

to_lower-to_lower : (s : Text) → to_lower (to_lower s) ≡ to_lower s
unfolding to_lower
to_lower-to_lower [] = refl
to_lower-to_lower (c ∷ s) = λ i. lower-lower c i ∷ to_lower-to_lower s i

is_denied-to_lower : (name : Text) → is_denied (to_lower name) ≡ is_denied name
unfolding is_denied
is_denied-to_lower name = rw (to_lower-to_lower name) refl

redact_header-Redacts :
    (name : Text) (vs : List Text)
    → is_empty name ≡ false
    → Redacts (to_lower name) vs (redact_header name (first_value vs))
unfolding redact_header
redact_header-Redacts name vs n = elim (Bool-cases (is_denied name)) [
  | inl d ↦ rw (n, d) (inr (inr (is_denied-to_lower name ∙ d), refl))
  | inr a ↦ elim (Bool-cases (any (text_eq (to_lower name)) allowlist)) [
    | inl kept ↦ rw (n, a, kept) (inl (refl, is_denied-to_lower name ∙ a, refl))
    | inr other ↦ rw (n, a, other) (inr (inl refl, refl))
  ]
]

-- The map with the next header, as the loop leaves it.
abbrev step : List (Text × Text) → Text → List Text → List (Text × Text)
step out name vs =
    if is_empty name
    then out
    else if any (λ (e : Text × Text). text_eq e.0 (to_lower name)) out
    then out
    else (to_lower name, redact_header name (first_value vs)) ∷ out

step-IsFrom :
    (hs : List (Text × List Text)) (out : List (Text × Text)) (name : Text) (vs : List Text)
    → Within (name, vs) hs
    → All (IsFrom hs) out
    → All (IsFrom hs) (step out name vs)
step-IsFrom hs out name vs within h = elim (Bool-cases (is_empty name)) [
  | inl nameless ↦ rw nameless h
  | inr named ↦ elim (Bool-cases (any (λ (e : Text × Text). text_eq e.0 (to_lower name)) out)) [
    | inl seen ↦ rw (named, seen) h
    | inr new ↦
        rw (named, new) ((name, vs, within, named, refl, redact_header-Redacts name vs named), h)
  ]
]

redact_from-IsFrom :
    (all hs : List (Text × List Text)) (out : List (Text × Text))
    → All (λ h. Within h all) hs
    → All (IsFrom all) out
    → All (IsFrom all) (redact_from out hs)
unfolding redact_from
redact_from-IsFrom all [] out w h = h
redact_from-IsFrom all ((name, vs) ∷ rest) out w h =
    redact_from-IsFrom all rest (step out name vs) w.1 (step-IsFrom all out name vs w.0 h)

-- No name has two entries.
abbrev pub Once : List (Text × Text) → Type 0
Once [] = Unit
Once (e ∷ out) = (any (λ (f : Text × Text). text_eq f.0 e.0) out ≡ false) × Once out

step-Once :
    (out : List (Text × Text)) (name : Text) (vs : List Text) → Once out → Once (step out name vs)
step-Once out name vs h = elim (Bool-cases (is_empty name)) [
  | inl nameless ↦ rw nameless h
  | inr named ↦ elim (Bool-cases (any (λ (e : Text × Text). text_eq e.0 (to_lower name)) out)) [
    | inl seen ↦ rw (named, seen) h
    | inr new ↦ rw (named, new) (new, h)
  ]
]

redact_from-Once :
    (hs : List (Text × List Text)) (out : List (Text × Text)) → Once out → Once (redact_from out hs)
unfolding redact_from
redact_from-Once [] out h = h
redact_from-Once ((name, vs) ∷ rest) out h =
    redact_from-Once rest (step out name vs) (step-Once out name vs h)

step-any :
    (p : Text × Text → Bool) (out : List (Text × Text)) (name : Text) (vs : List Text)
    → any p out ≡ true
    → any p (step out name vs) ≡ true
step-any p out name vs h = ground (arith, h)

redact_from-any :
    (p : Text × Text → Bool) (hs : List (Text × List Text)) (out : List (Text × Text))
    → any p out ≡ true
    → any p (redact_from out hs) ≡ true
unfolding redact_from
redact_from-any p [] out h = h
redact_from-any p ((name, vs) ∷ rest) out h =
    redact_from-any p rest (step out name vs) (step-any p out name vs h)

step-IsKept :
    (out : List (Text × Text)) (name : Text) (vs : List Text) → IsKept (step out name vs) (name, vs)
step-IsKept out name vs = elim (Bool-cases (is_empty name)) [
  | inl nameless ↦ inl nameless
  | inr named ↦ elim (Bool-cases (any (λ (e : Text × Text). text_eq e.0 (to_lower name)) out)) [
    | inl seen ↦ inr (rw (named, seen) seen)
    | inr new ↦ inr (rw (named, new) (ground (arith, text_eq_iff (to_lower name) (to_lower name))))
  ]
]

redact_from-IsKept :
    (hs : List (Text × List Text)) (out : List (Text × Text)) → All (IsKept (redact_from out hs)) hs
unfolding redact_from
redact_from-IsKept [] out = tt
redact_from-IsKept ((name, vs) ∷ rest) out = (
  elim (step-IsKept out name vs) [
    | inl nameless ↦ inl nameless
    | inr kept ↦ inr (redact_from-any _ rest (step out name vs) kept)
  ],
  redact_from-IsKept rest (step out name vs),
)

widened :
    {A : Type 0} (x : A) (xs ys : List A)
    → All (λ y. Within y xs) ys
    → All (λ y. Within y (x ∷ xs)) ys
widened x xs [] h = tt
widened x xs (y ∷ ys) h = (inr h.0, widened x xs ys h.1)

All-Within : {A : Type 0} (xs : List A) → All (λ x. Within x xs) xs
All-Within [] = tt
All-Within (x ∷ xs) = (inl refl, widened x xs xs (All-Within xs))

-- RedactHeaders returns one entry for each name of a header, in lower case, and no other. Each comes
-- from one of the headers with that name: with the first value of that header, if the name is on the
-- allow list and is not denied, and else with a hidden one.
pub redact_headers-IsFrom :
    (hs : List (Text × List Text))
    → All (IsFrom hs) (redact_headers hs)
      × Once (redact_headers hs)
      × All (IsKept (redact_headers hs)) hs
unfolding redact_headers
redact_headers-IsFrom hs = (
  redact_from-IsFrom hs hs [] (All-Within hs) tt,
  redact_from-Once hs [] tt,
  redact_from-IsKept hs [],
)

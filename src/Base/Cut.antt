-- ===== src/Base/Cut.antt =====
-- Cutting Go strings into parts, and printing numbers.
use Prim.Native.Nat.{ℕ, zero, suc, ◌+◌, ◌/◌, ◌%◌}
use mathlib.Core.Bool.{Bool}
use mathlib.Core.List.{List, [], ◌∷◌, ◌++◌, reverse}
use donkey_work_vault.Base.Tests.{ltb, ◌==◌, if◌then◌else◌}
use donkey_work_vault.Base.Lists.{length, drop}
use donkey_work_vault.Base.Strings.{Text, is_empty, has_prefix}

-- strings.TrimRight with one byte in the set.
unfoldable pub drop_left : ℕ → Text → Text
drop_left c [] = []
drop_left c (a ∷ s) = if a == c then drop_left c s else a ∷ s

unfoldable pub trim_right : ℕ → Text → Text
trim_right c s = reverse (drop_left c (reverse s))

-- strings.FieldsFunc on a test of ASCII characters: the parts between separators, empty ones left
-- out. `part` is what has been read of the current one.
unfoldable pub fields_from : (ℕ → Bool) → Text → Text → List Text
fields_from is_sep part [] = if is_empty part then [] else part ∷ []
fields_from is_sep part (c ∷ s) =
    let rest = fields_from is_sep [] s in
    let longer = fields_from is_sep (part ++ c ∷ []) s in
    if is_sep c then (if is_empty part then rest else part ∷ rest) else longer

abbrev pub fields : (ℕ → Bool) → Text → List Text
fields is_sep s = fields_from is_sep [] s

-- strings.TrimPrefix
abbrev pub trim_prefix : Text → Text → Text
trim_prefix s p = if has_prefix s p then drop (length p) s else s

-- The parts between a separator, empty ones too: strings.Split with one byte.
unfoldable pub split_from : ℕ → Text → Text → List Text
split_from sep part [] = part ∷ []
split_from sep part (c ∷ s) =
    let rest = split_from sep [] s in
    let longer = split_from sep (part ++ c ∷ []) s in if c == sep then part ∷ rest else longer

abbrev pub split : ℕ → Text → List Text
split sep s = split_from sep [] s

-- The digits of a number, the last ones as far as the fuel goes; a number has at most as many digits
-- as itself and one more.
digits : ℕ → ℕ → Text
digits zero n = []
digits (suc fuel) n =
    let front = digits fuel (n / 10) in
    if ltb n 10 then (n + b'0') ∷ [] else front ++ (n % 10 + b'0') ∷ []

-- `%d` of a number that is not negative
unfoldable pub decimal : ℕ → Text
unfolding digits
decimal n = digits (suc n) n

-- ===== src/Base/Strings.antt =====
-- Go strings as sequences of bytes, with what the source uses of package strings.
use Prim.Native.Nat.{ℕ, zero, suc, ◌+◌}
use Prim.Native.Char.{code}
use Prim.Native.String.{String}
use mathlib.Core.Path.{◌≡◌, refl}
use mathlib.Core.Logic.{◌↔◌}
use mathlib.Core.Bool.{Bool, true, false, ◌&&◌, ◌||◌}
use mathlib.Core.List.{List, [], ◌∷◌, ◌++◌, map, reverse}
use native.Mathlib.Omega.{arith}
use donkey_work_vault.Base.Tests.{ltb, leb, ◌==◌, if◌then◌else◌}
use donkey_work_vault.Base.Lists.{length, drop}

abbrev pub Text : Type 0
Text = List ℕ

-- The bytes of an ASCII literal.
abbrev pub text : String → Text
text String.[] = []
text (String.◌∷◌ c s) = code c ∷ text s

unfoldable pub text_eq : Text → Text → Bool
text_eq [] [] = true
text_eq [] (b ∷ t) = false
text_eq (a ∷ s) [] = false
text_eq (a ∷ s) (b ∷ t) = (a == b) && text_eq s t

pub text_eq_iff : (s t : Text) → (text_eq s t ≡ true) ↔ (s ≡ t)
unfolding text_eq
text_eq_iff [] [] = ground arith
text_eq_iff [] (b ∷ t) = ground arith
text_eq_iff (a ∷ s) [] = ground arith
text_eq_iff (a ∷ s) (b ∷ t) = ground (arith, text_eq_iff s t)

pub text_eq_refl : (s : Text) → text_eq s s ≡ true
text_eq_refl s = (text_eq_iff s s).1 refl

abbrev pub is_empty : Text → Bool
is_empty [] = true
is_empty (c ∷ s) = false

-- slices.Contains, and the test `set[x]` on a set given by its members
unfoldable pub contains : List Text → Text → Bool
contains [] x = false
contains (y ∷ ys) x = text_eq y x || contains ys x

-- `s < t` on Go strings
unfoldable pub text_lt : Text → Text → Bool
text_lt s [] = false
text_lt [] (b ∷ t) = true
text_lt (a ∷ s) (b ∷ t) = ltb a b || ((a == b) && text_lt s t)

-- strings.HasPrefix
unfoldable pub has_prefix : Text → Text → Bool
has_prefix s [] = true
has_prefix [] (p ∷ ps) = false
has_prefix (c ∷ s) (p ∷ ps) = (c == p) && has_prefix s ps

-- strings.HasSuffix
unfoldable pub has_suffix : Text → Text → Bool
has_suffix s p = has_prefix (reverse s) (reverse p)

-- strings.Contains
unfoldable pub has_part : Text → Text → Bool
has_part [] p = has_prefix [] p
has_part (c ∷ s) p = has_prefix (c ∷ s) p || has_part s p

-- strings.ToLower on ASCII bytes
unfoldable pub lower : ℕ → ℕ
lower c = if leb b'A' c && leb c b'Z' then c + 32 else c

unfoldable pub to_lower : Text → Text
unfolding lower
to_lower s = map lower s

-- The number of bytes of the white space that the bytes begin with (unicode.IsSpace in UTF-8), or 0.
space_width : ℕ → ℕ → ℕ → ℕ
space_width a b c =
    if (leb 9 a && leb a 13) || (a == 32)
    then 1
    else if (a == 0xC2) && ((b == 0x85) || (b == 0xA0))
    then 2
    else if (a == 0xE1) && (b == 0x9A) && (c == 0x80)
    then 3
    else if (a == 0xE2)
        && (b == 0x80)
        && ((leb 0x80 c && leb c 0x8A) || (c == 0xA8) || (c == 0xA9) || (c == 0xAF))
    then 3
    else if (a == 0xE2) && (b == 0x81) && (c == 0x9F)
    then 3
    else if (a == 0xE3) && (b == 0x80) && (c == 0x80)
    then 3
    else 0

leading_space : Text → ℕ
leading_space [] = 0
leading_space (a ∷ []) = space_width a 0 0
leading_space (a ∷ b ∷ []) = space_width a b 0
leading_space (a ∷ b ∷ c ∷ s) = space_width a b c

-- the same of the bytes in reverse, for the right end
trailing_space : Text → ℕ
trailing_space [] = 0
trailing_space (a ∷ []) = if space_width a 0 0 == 1 then 1 else 0
trailing_space (b ∷ a ∷ []) =
    if space_width b 0 0 == 1 then 1 else if space_width a b 0 == 2 then 2 else 0
trailing_space (c ∷ b ∷ a ∷ s) =
    if space_width c 0 0 == 1
    then 1
    else if space_width b c 0 == 2
    then 2
    else if space_width a b c == 3
    then 3
    else 0

-- Drops white space while it finds some; the fuel is the length.
trim_by : (Text → ℕ) → ℕ → Text → Text
trim_by width zero s = s
trim_by width (suc n) s =
    let rest = trim_by width n (drop (width s) s) in if width s == 0 then s else rest

-- The parts between white space; `part` is what has been read of the current one, and the fuel is the
-- length.
parts_from : ℕ → Text → Text → List Text
parts_from zero part s = if is_empty part then [] else part ∷ []
parts_from (suc n) part [] = if is_empty part then [] else part ∷ []
parts_from (suc n) part (c ∷ s) =
    let width = leading_space (c ∷ s) in
    let rest = parts_from n [] (drop width (c ∷ s)) in
    let longer = parts_from n (part ++ c ∷ []) s in
    if width == 0 then longer else if is_empty part then rest else part ∷ rest

-- strings.Fields
unfoldable pub space_fields : Text → List Text
unfolding parts_from leading_space space_width
space_fields s = parts_from (suc (length s)) [] s

-- strings.TrimSpace
unfoldable pub trim_space : Text → Text
unfolding trim_by leading_space trailing_space space_width
trim_space s =
    let left = trim_by leading_space (length s) s in
    reverse (trim_by trailing_space (length left) (reverse left))

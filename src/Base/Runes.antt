-- ===== src/Base/Runes.antt =====
-- Go's `[]rune(s)`: a string cut into characters, each given by its bytes in UTF-8.
use Prim.Native.Nat.{ℕ, zero, suc, ◌-◌}
use mathlib.Core.Bool.{Bool, ◌&&◌, ◌||◌}
use mathlib.Core.List.{List, [], ◌∷◌, ◌++◌}
use donkey_work_vault.Base.Tests.{leb, ltb, ◌==◌, if◌then◌else◌}
use donkey_work_vault.Base.Lists.{length, take, drop}
use donkey_work_vault.Base.Strings.{Text}

is_between : ℕ → ℕ → ℕ → Bool
is_between lo hi c = leb lo c && leb c hi

-- The number of bytes of the character that the bytes begin with, or 0 where they begin with none.
rune_width : ℕ → ℕ → ℕ → ℕ → ℕ
unfolding is_between
rune_width a b c d =
    if ltb a 0x80
    then 1
    else if is_between 0xC2 0xDF a && is_between 0x80 0xBF b
    then 2
    else if ((a == 0xE0) && is_between 0xA0 0xBF b && is_between 0x80 0xBF c)
        || ((a == 0xED) && is_between 0x80 0x9F b && is_between 0x80 0xBF c)
        || ((is_between 0xE1 0xEC a || is_between 0xEE 0xEF a)
            && is_between 0x80 0xBF b
            && is_between 0x80 0xBF c)
    then 3
    else if (((a == 0xF0) && is_between 0x90 0xBF b)
          || ((a == 0xF4) && is_between 0x80 0x8F b)
          || (is_between 0xF1 0xF3 a && is_between 0x80 0xBF b))
        && is_between 0x80 0xBF c
        && is_between 0x80 0xBF d
    then 4
    else 0

-- Past the end there are bytes 0, which continue no character.
width_at : Text → ℕ
unfolding rune_width
width_at [] = 0
width_at (a ∷ []) = rune_width a 0 0 0
width_at (a ∷ b ∷ []) = rune_width a b 0 0
width_at (a ∷ b ∷ c ∷ []) = rune_width a b c 0
width_at (a ∷ b ∷ c ∷ d ∷ s) = rune_width a b c d

-- A byte that begins no character is read as U+FFFD. The fuel is the number of bytes.
runes_by : ℕ → Text → List Text
runes_by zero s = []
runes_by (suc n) [] = []
runes_by (suc n) (a ∷ s) =
    let w = width_at (a ∷ s) in
    let rest = runes_by n (drop (w - 1) s) in
    if w == 0 then (0xEF ∷ 0xBF ∷ 0xBD ∷ []) ∷ rest else take w (a ∷ s) ∷ rest

unfoldable pub runes : Text → List Text
unfolding runes_by width_at
runes s = runes_by (length s) s

-- string(r)
abbrev pub of_runes : List Text → Text
of_runes [] = []
of_runes (r ∷ rs) = r ++ of_runes rs

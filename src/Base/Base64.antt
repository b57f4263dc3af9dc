-- ===== src/Base/Base64.antt =====
-- encoding/base64: StdEncoding.DecodeString (padded, line breaks skipped), StdEncoding.EncodeToString
-- and RawURLEncoding.EncodeToString (no padding).
use Prim.Native.Nat.{ℕ, ◌+◌, ◌-◌, ◌*◌, ◌/◌, ◌%◌}
use mathlib.Core.Bool.{not, ◌&&◌, ◌||◌}
use mathlib.Core.List.{[], ◌∷◌, ◌++◌}
use mathlib.Core.Option.{Option, none, some}
use donkey_work_vault.Base.Tests.{ltb, leb, ◌==◌, if◌then◌else◌}
use donkey_work_vault.Base.Lists.{keep}
use donkey_work_vault.Base.Strings.{Text}

infixl 5 ◌>>=◌
abbrev ◌>>=◌ {ℓ κ} : {A : Type ℓ} {B : Type κ} → Option A → (A → Option B) → Option B
none >>= f = none
some a >>= f = f a

-- The digit of a letter of the standard alphabet.
std_digit : ℕ → Option ℕ
std_digit c =
    if leb b'A' c && leb c b'Z'
    then some (c - 65)
    else if leb b'a' c && leb c b'z'
    then some (c - 71)
    else if leb b'0' c && leb c b'9'
    then some (c + 4)
    else if c == b'+'
    then some 62
    else if c == b'/'
    then some 63
    else none

-- The last four letters, with their padding.
last_group : ℕ → ℕ → ℕ → Option Text
last_group a b c =
    if c == b'=' then (do x ← std_digit a; y ← std_digit b; some ((x * 4 + y / 16) ∷ [])) else (do
      x ← std_digit a
      y ← std_digit b
      z ← std_digit c
      some ((x * 4 + y / 16) ∷ (y % 16 * 16 + z / 4) ∷ []))

whole_group : ℕ → ℕ → ℕ → ℕ → Option Text
whole_group a b c d = do
  x ← std_digit a
  y ← std_digit b
  z ← std_digit c
  w ← std_digit d
  some ((x * 4 + y / 16) ∷ (y % 16 * 16 + z / 4) ∷ (z % 4 * 64 + w) ∷ [])

decode_groups : Text → Option Text
decode_groups [] = some []
decode_groups (a ∷ b ∷ c ∷ d ∷ []) = if d == b'=' then last_group a b c else whole_group a b c d
decode_groups (a ∷ b ∷ c ∷ d ∷ s) =
    let rest = decode_groups s in do x ← whole_group a b c d; y ← rest; some (x ++ y)
decode_groups _ = none

unfoldable pub std_decode : Text → Option Text
unfolding decode_groups last_group whole_group std_digit
std_decode s = decode_groups (keep (λ c. not ((c == 13) || (c == 10))) s)

-- The letter of a digit of the URL alphabet.
url_letter : ℕ → ℕ
url_letter n =
    if ltb n 26
    then n + 65
    else if ltb n 52
    then n + 71
    else if ltb n 62
    then n - 4
    else if n == 62
    then b'-'
    else b'_'

unfoldable pub raw_url_encode : Text → Text
unfolding url_letter
raw_url_encode [] = []
raw_url_encode (a ∷ []) = url_letter (a / 4) ∷ url_letter (a % 4 * 16) ∷ []
raw_url_encode (a ∷ b ∷ []) =
    url_letter (a / 4) ∷ url_letter (a % 4 * 16 + b / 16) ∷ url_letter (b % 16 * 4) ∷ []
raw_url_encode (a ∷ b ∷ c ∷ s) =
    url_letter (a / 4)
    ∷ url_letter (a % 4 * 16 + b / 16)
    ∷ url_letter (b % 16 * 4 + c / 64)
    ∷ url_letter (c % 64)
    ∷ raw_url_encode s

-- The letter of a digit of the standard alphabet.
std_letter : ℕ → ℕ
unfolding url_letter
std_letter n = if n == 62 then b'+' else if n == 63 then b'/' else url_letter n

unfoldable pub std_encode : Text → Text
unfolding std_letter
std_encode [] = []
std_encode (a ∷ []) = std_letter (a / 4) ∷ std_letter (a % 4 * 16) ∷ b'=' ∷ b'=' ∷ []
std_encode (a ∷ b ∷ []) =
    std_letter (a / 4) ∷ std_letter (a % 4 * 16 + b / 16) ∷ std_letter (b % 16 * 4) ∷ b'=' ∷ []
std_encode (a ∷ b ∷ c ∷ s) =
    std_letter (a / 4)
    ∷ std_letter (a % 4 * 16 + b / 16)
    ∷ std_letter (b % 16 * 4 + c / 64)
    ∷ std_letter (c % 64)
    ∷ std_encode s

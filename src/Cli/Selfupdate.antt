-- ===== src/Cli/Selfupdate.antt =====
-- cli/internal/selfupdate/selfupdate.go: which version is newer, and the download of a release with its
-- checksum. The HTTP client, strconv.Atoi and SHA-256 are parameters.
pub mod Verified
mod Tests
use mathlib.Core.Bool.{◌||◌, ◌&&◌}
use donkey_work_vault.Base.{
  ℕ, ◌+◌, ◌-◌, ◌*◌, ◌/◌, ◌%◌, Bool, true, false, not, List, [], ◌∷◌, ◌++◌, Option, none, some, Text,
  text, text_eq, is_empty, has_suffix, to_lower, space_fields, length, take, leb, ltb, ◌==◌,
  if◌then◌else◌, Result, ok, err, plain, check,
}
use donkey_work_vault.Base.Fallible.{◌>>=◌, ◌>>◌}
use donkey_work_vault.Base.Cut.{split, trim_prefix}
use donkey_work_vault.Base.Integers.{ℤ, pos, negsuc}

pub record Release : Type 0 where
  pub tag_name : Text
  pub assets : List (Text × Text)

abbrev pub asset_name : Text → Text → Text
asset_name goos goarch = text "dwvault-" ++ (goos ++ (text "-" ++ goarch))

-- The results of Compare: -1, 0 and 1.
pub data Order : Type 0 where
  older same newer : Order

abbrev pub numbers : Option ℤ → Option ℤ → Option ℤ → Option (ℕ × ℕ × ℕ)
numbers (some (pos a)) (some (pos b)) (some (pos c)) = some (a, b, c)
numbers _ _ _ = none

abbrev pub parts_of : (Text → Option ℤ) → List Text → Option (ℕ × ℕ × ℕ)
parts_of atoi (a ∷ b ∷ c ∷ []) = numbers (atoi a) (atoi b) (atoi c)
parts_of atoi _ = none

unfoldable pub parse : (Text → Option ℤ) → Text → Option (ℕ × ℕ × ℕ)
parse atoi v = parts_of atoi (split b'.' (trim_prefix v (text "v")))

abbrev pub by_parts : ℕ × ℕ × ℕ → ℕ × ℕ × ℕ → Order
by_parts (a, b, c) (x, y, z) =
    if not (a == x)
    then (if ltb a x then older else newer)
    else if not (b == y)
    then (if ltb b y then older else newer)
    else if not (c == z)
    then (if ltb c z then older else newer)
    else same

abbrev pub by_parsed : Option (ℕ × ℕ × ℕ) → Option (ℕ × ℕ × ℕ) → Order
by_parsed none none = same
by_parsed none (some b) = older
by_parsed (some a) none = newer
by_parsed (some a) (some b) = by_parts a b

unfoldable pub compare : (Text → Option ℤ) → Text → Text → Order
compare atoi a b = by_parsed (parse atoi a) (parse atoi b)

unfoldable pub asset_url : List (Text × Text) → Text → Text
asset_url [] name = []
asset_url ((n, url) ∷ assets) name = if text_eq n name then url else asset_url assets name

abbrev pub nibble : ℕ → ℕ
nibble n = if ltb n 10 then n + b'0' else n - 10 + b'a'

-- hex.EncodeToString
unfoldable pub hex : Text → Text
hex [] = []
hex (b ∷ s) = nibble (b / 16) ∷ nibble (b % 16) ∷ hex s

-- The lines of bufio.Scanner: the last one is left out if it is empty, and a `\r` at an end is dropped.
abbrev pub without_cr : Text → Text
without_cr l = if has_suffix l (text "\r") then take (length l - 1) l else l

abbrev pub last_dropped : List Text → List Text
last_dropped [] = []
last_dropped ([] ∷ []) = []
last_dropped (l ∷ ls) = l ∷ last_dropped ls

unfoldable pub scan_lines : Text → List Text
scan_lines s = last_dropped (split b'\n' s)

-- The branches of the loop of sumFor at a line with these fields.
abbrev pub at_fields : Text → List Text → Result Text → Result Text
at_fields name (sum ∷ file ∷ []) rest =
    if text_eq (trim_prefix file (text "*")) name
    then (if not (length (to_lower sum) == 64)
        then err (plain (text "malformed checksum"))
        else ok (to_lower sum))
    else rest
at_fields name _ rest = rest

-- The loop; a line that does not fit into the scanner's buffer ends it.
unfoldable pub sum_in : List Text → Text → Result Text
sum_in [] name = err (plain (text "not listed in SHA256SUMS"))
sum_in (l ∷ ls) name =
    let rest = sum_in ls name in
    if leb 65536 (length l)
    then err (plain (text "bufio.Scanner: token too long"))
    else at_fields name (space_fields (without_cr l)) rest

unfoldable pub sum_for : Text → Text → Result Text
sum_for manifest name = sum_in (scan_lines manifest) name

abbrev pub max_download : ℕ
max_download = 268435456

module _ (get : Text → Result (ℕ × Text)) (sha256 : Text → Text) where
  unfoldable pub fetch : Text → Result Text
  fetch url = do
    (status, body) ← get url
    if status == 200 then ok (take max_download body) else err (plain (text "status"))

  -- Download from the binary on, with the sum that is wanted.
  abbrev pub verified : Text → Text → Result Text
  verified want bin = do
    check (text_eq (hex (sha256 bin)) want) (plain (text "checksum mismatch"))
    ok bin

  -- Download from the manifest on.
  abbrev pub with_sums : Text → Text → Text → Result Text
  with_sums name bin_url sums = do want ← sum_for sums name; bin ← fetch bin_url; verified want bin

  unfoldable pub download : Text → Release → Result Text
  download name rel =
      let bin_url = asset_url rel.assets name in
      let sums_url = asset_url rel.assets (text "SHA256SUMS") in
      do
        check (not (is_empty bin_url)) (plain (text "release has no asset"))
        check (not (is_empty sums_url)) (plain (text "release has no manifest"))
        sums ← fetch sums_url
        with_sums name bin_url sums

-- ===== src/Cli/Selfupdate/Verified.antt =====
-- cli/internal/selfupdate/selfupdate.go: what was downloaded has the checksum that the release lists.
use mathlib.Core.Path.{subst}
use donkey_work_vault.Base.{
  ℕ, ◌≡◌, refl, sym, arith, ◌⊎◌, inl, inr, Bool, Bool-cases, true, false, not, List, [], ◌∷◌, Text,
  text, text_eq, text_eq_iff, is_empty, length, to_lower, space_fields, leb, ◌==◌, Within, Result,
  ok, err, Error, plain, check,
}
use donkey_work_vault.Base.Fallible.{◌>>=◌, ◌>>◌}
use donkey_work_vault.Base.Cut.{trim_prefix}
use donkey_work_vault.Cli.Selfupdate.{
  Release, asset_url, hex, without_cr, scan_lines, at_fields, sum_in, sum_for, fetch, verified,
  with_sums, download,
}

-- The line has two fields: the sum of 64 characters, but for capital letters, and the name, which a
-- star may precede.
pub record Lists (name sum line : Text) : Type 0 where
  pub raw : Text
  pub file : Text
  pub two : space_fields (without_cr line) ≡ raw ∷ file ∷ []
  pub named : trim_prefix file (text "*") ≡ name
  pub lower : to_lower raw ≡ sum
  pub sized : length sum ≡ 64

-- One of the lines does.
abbrev pub Listed : Text → Text → List Text → Type 0
Listed name sum lines = (line : Text) × Within line lines × Lists name sum line

at_fields-cases :
    (name : Text) (fs : List Text) (rest : Result Text) (sum : Text)
    → at_fields name fs rest ≡ ok sum
    → ((raw : Text) × (file : Text) × (fs ≡ raw ∷ file ∷ [])
        × (trim_prefix file (text "*") ≡ name)
        × (to_lower raw ≡ sum)
        × (length sum ≡ 64))
      ⊎ (rest ≡ ok sum)
at_fields-cases name [] rest sum h = inr h
at_fields-cases name (raw ∷ []) rest sum h = inr h
at_fields-cases name (raw ∷ file ∷ []) rest sum h =
    elim (Bool-cases (text_eq (trim_prefix file (text "*")) name)) [
      | inr other ↦ inr (rw other at h)
      | inl is_named ↦ elim (Bool-cases (length (to_lower raw) == 64)) [
        | inr malformed ↦ absurd (cc (rw (is_named, malformed) at h))
        | inl sized ↦
            let e : to_lower raw ≡ sum = cc (rw (is_named, sized) at h) in
            inl (
              raw,
              file,
              refl,
              (text_eq_iff _ name).0 is_named,
              e,
              subst (λ t. length t ≡ 64) e (ground (arith, sized)),
            )
      ]
    ]
at_fields-cases name (raw ∷ file ∷ third ∷ more) rest sum h = inr h

sum_in-Listed :
    (lines : List Text) (name sum : Text) → sum_in lines name ≡ ok sum → Listed name sum lines
unfolding sum_in
sum_in-Listed [] name sum h = absurd (cc h)
sum_in-Listed (l ∷ ls) name sum h = elim (Bool-cases (leb 65536 (length l))) [
  | inl long ↦ absurd (cc (rw long at h))
  | inr fits ↦
      elim (at_fields-cases name (space_fields (without_cr l)) (sum_in ls name) sum
        (rw fits at h)) [
          | inl (raw, file, two, named, lower, sized) ↦ (
            l,
            inl refl,
            record {
              raw = raw;
              file = file;
              two = two;
              named = named;
              lower = lower;
              sized = sized;
            },
          )
          | inr later ↦
              let (line, within, lists) = sum_in-Listed ls name sum later in
              (line, inr within, lists)
        ]
]

checked :
    (test : Bool) (x : Error) (r : Result Text) (b : Text)
    → (check test x >> r) ≡ ok b
    → (test ≡ true) × (r ≡ ok b)
checked true x r b h = (refl, h)
checked false x r b h = absurd (cc h)

bound :
    (r : Result Text) (f : Text → Result Text) (b : Text)
    → (r >>= f) ≡ ok b
    → (a : Text) × (r ≡ ok a) × (f a ≡ ok b)
bound (ok a) f b h = (a, refl, h)
bound (err e) f b h = absurd (cc h)

module _ (get : Text → Result (ℕ × Text)) (sha256 : Text → Text) where
  -- What Download returns is what the address of the asset gave, and the manifest that the release's
  -- SHA256SUMS gave has a line with the asset's name and the hexadecimal digits of its SHA-256, which
  -- are 64.
  pub download-Listed :
      (name : Text) (rel : Release) (bin : Text)
      → download get sha256 name rel ≡ ok bin
      → (sums : Text) × (fetch get sha256 (asset_url rel.assets (text "SHA256SUMS")) ≡ ok sums)
        × (fetch get sha256 (asset_url rel.assets name) ≡ ok bin)
        × Listed name (hex (sha256 bin)) (scan_lines sums)
  unfolding download sum_for
  download-Listed name rel bin h =
      let bin_url = asset_url rel.assets name in
      let sums_url = asset_url rel.assets (text "SHA256SUMS") in
      let rest = fetch get sha256 sums_url >>= with_sums get sha256 name bin_url in
      let (has_bin, h1) =
        checked (not (is_empty bin_url)) (plain (text "release has no asset"))
          (check (not (is_empty sums_url)) (plain (text "release has no manifest")) >> rest) bin
          h in
      let (has_sums, h2) =
        checked (not (is_empty sums_url)) (plain (text "release has no manifest")) rest bin h1 in
      let (sums, got_sums, h3) =
        bound (fetch get sha256 sums_url) (with_sums get sha256 name bin_url) bin h2 in
      let (want, is_wanted, h4) =
        bound (sum_for sums name) (λ want. fetch get sha256 bin_url >>= verified get sha256 want)
          bin h3 in
      let (body, got_bin, h5) =
        bound (fetch get sha256 bin_url) (verified get sha256 want) bin h4 in
      let (same_sum, h6) =
        checked (text_eq (hex (sha256 body)) want) (plain (text "checksum mismatch")) (ok body) bin
          h5 in
      let e : body ≡ bin = cc h6 in
      let sum : hex (sha256 bin) ≡ want =
        subst (λ t. hex (sha256 t) ≡ want) e ((text_eq_iff (hex (sha256 body)) want).0 same_sum) in
      (
        sums,
        got_sums,
        subst (λ t. fetch get sha256 (asset_url rel.assets name) ≡ ok t) e got_bin,
        sum_in-Listed (scan_lines sums) name (hex (sha256 bin))
            (subst (λ t. sum_in (scan_lines sums) name ≡ ok t) (sym sum) is_wanted),
      )

-- ===== src/Cli/Selfupdate/Tests.antt =====
-- An update from a release with a manifest.
use donkey_work_vault.Base.{
  ℕ, ◌≡◌, refl, [], ◌∷◌, ◌++◌, Text, text, text_eq, has_suffix, has_prefix, to_lower, space_fields,
  Result, ok, if◌then◌else◌,
}
use donkey_work_vault.Base.Cut.{split_from}
use donkey_work_vault.Cli.Selfupdate.{
  Release, asset_url, hex, scan_lines, sum_in, sum_for, fetch, download,
}
use donkey_work_vault.Cli.Selfupdate.Verified.{Listed, download-Listed}

abbrev release : Release
release = record {
  tag_name = text "v1.2.3";
  assets = (text "dwvault-linux-amd64", text "u1") ∷ (text "SHA256SUMS", text "u2") ∷ [];
}

-- A stand-in with 32 bytes for every text.
abbrev digest : Text → Text
digest s = text "0123456789abcdef0123456789abcdef"

abbrev manifest : Text
manifest = hex (digest []) ++ text "  *dwvault-linux-amd64\n"

abbrev get : Text → Result (ℕ × Text)
get url = if text_eq url (text "u1") then ok (200, text "ELF") else ok (200, manifest)

downloaded : download get digest (text "dwvault-linux-amd64") release ≡ ok (text "ELF")
unfolding download fetch sum_for sum_in scan_lines hex asset_url split_from space_fields text_eq
    has_suffix has_prefix to_lower
downloaded = refl

download-Listed_example :
    (sums : Text) × (fetch get digest (asset_url release.assets (text "SHA256SUMS")) ≡ ok sums)
    × (fetch get digest (asset_url release.assets (text "dwvault-linux-amd64")) ≡ ok (text "ELF"))
    × Listed (text "dwvault-linux-amd64") (hex (digest (text "ELF"))) (scan_lines sums)
download-Listed_example =
    download-Listed get digest (text "dwvault-linux-amd64") release (text "ELF") downloaded

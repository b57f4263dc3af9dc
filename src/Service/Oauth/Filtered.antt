-- ===== src/Service/Oauth/Filtered.antt =====
-- service/oauthflow.go: the scopes that are asked for are those that the provider declares.
use mathlib.Core.Bool.{◌&&◌}
use donkey_work_vault.Base.{
  ◌≡◌, ◌≢◌, ◌+◌, refl, arith, Bool, not, List, [], ◌∷◌, keep, length, Text, text_eq_iff, contains,
}
use donkey_work_vault.Manifests.{Manifest}
use donkey_work_vault.Service.Oauth.Flow.{catalog, filter_by, filter_scopes_to_catalog}

contains-keep :
    (p : Text → Bool) (xs : List Text) (s : Text) → contains (keep p xs) s ≡ (contains xs s && p s)
unfolding contains
contains-keep p [] s = refl
contains-keep p (x ∷ xs) s = ground (arith, contains-keep p xs s, text_eq_iff x s)

length-keep :
    (p : Text → Bool) (xs : List Text)
    → length (keep p xs) + length (keep (λ x. not (p x)) xs) ≡ length xs
length-keep p [] = refl
length-keep p (x ∷ xs) = ground (arith, length-keep p xs)

abbrev pub IsFiltered : List Text → List Text → List Text × List Text → Type 0
IsFiltered allowed requested (kept, dropped) =
    (allowed ≡ [] → (kept ≡ requested) × (dropped ≡ []))
    × (allowed ≢ []
        → ((s : Text) → contains kept s ≡ (contains requested s && contains allowed s))
          × ((s : Text) → contains dropped s ≡ (contains requested s && not (contains allowed s)))
          × (length kept + length dropped ≡ length requested))

filter_by-IsFiltered :
    (allowed requested : List Text) → IsFiltered allowed requested (filter_by allowed requested)
filter_by-IsFiltered [] requested = ((λ _. (refl, refl)), (λ n. absurd (n refl)))
filter_by-IsFiltered (a ∷ rest) requested = (
  (λ n. cc),
  (λ _. (
    contains-keep (contains (a ∷ rest)) requested,
    contains-keep (λ sc. not (contains (a ∷ rest) sc)) requested,
    length-keep (contains (a ∷ rest)) requested,
  )),
)

-- Where the provider declares no scope, all that was requested is kept and nothing dropped. Where it
-- declares some, a scope is kept exactly if it was requested and is declared, it is dropped exactly
-- if it was requested and is not declared, and no request is lost or doubled.
pub filter_scopes_to_catalog-IsFiltered :
    (m : Manifest) (requested : List Text)
    → IsFiltered (catalog m) requested (filter_scopes_to_catalog m requested)
unfolding filter_scopes_to_catalog
filter_scopes_to_catalog-IsFiltered m requested = filter_by-IsFiltered (catalog m) requested

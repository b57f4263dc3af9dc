-- ===== src/Store/Lookup.antt =====
-- memstore.go: FindOAuthToken picks the newest of the user's tokens with a provider.
use donkey_work_vault.Base.{
  ℕ, ◌≡◌, ◌⊎◌, ◌≤◌, refl, arith, inl, inr, Bool, Bool-cases, true, false, List, [], ◌∷◌, Option,
  none, some, Text, All, Within, ok, ltb, ◌&&◌,
}
use donkey_work_vault.Base.Table.{values}
use donkey_work_vault.Store.Types.{OauthToken}
use donkey_work_vault.Store.Mem.{Mem, fail}
use donkey_work_vault.Store.Mem.Tokens.{is_candidate, newest_from, find_oauth_token}

-- A wanted token that no wanted token is newer than, or nothing where none is wanted.
abbrev pub IsNewest : (OauthToken → Bool) → List OauthToken → Option OauthToken → Type 0
IsNewest wanted ts none = All (λ t. wanted t ≡ false) ts
IsNewest wanted ts (some f) =
    (wanted f ≡ true)
    × Within f ts
    × All (λ (t : OauthToken). wanted t ≡ true → t.created_at ≤ f.created_at) ts

-- What the loop finds when it already holds a token.
newest_from-some :
    (wanted : OauthToken → Bool) (f : OauthToken) (ts : List OauthToken)
    → wanted f ≡ true
    → (g : OauthToken) × (newest_from wanted (some f) ts ≡ some g)
      × (wanted g ≡ true)
      × ((f ≡ g) ⊎ Within g ts)
      × (f.created_at ≤ g.created_at)
      × All (λ (t : OauthToken). wanted t ≡ true → t.created_at ≤ g.created_at) ts
unfolding newest_from
newest_from-some wanted f [] h = (f, refl, h, inl refl, omega arith, tt)
newest_from-some wanted f (t ∷ ts) h =
    elim (Bool-cases (wanted t && ltb f.created_at t.created_at)) [
      | inl newer ↦
          let (g, e, w, from, le, rest) = newest_from-some wanted t ts (ground arith) in
          rw newer (g, e, w, inr from, ground arith, (ground arith, rest))
      | inr other ↦
          let (g, e, w, from, le, rest) = newest_from-some wanted f ts h in
          rw other (g, e, w, ground arith, le, (ground arith, rest))
    ]

newest_from-none :
    (wanted : OauthToken → Bool) (ts : List OauthToken)
    → IsNewest wanted ts (newest_from wanted none ts)
unfolding newest_from
newest_from-none wanted [] = tt
newest_from-none wanted (t ∷ ts) = elim (Bool-cases (wanted t)) [
  | inl fits ↦
      let (g, e, w, from, le, rest) = newest_from-some wanted t ts fits in
      rw (fits, e) (w, from, ((λ q. le), rest))
  | inr old ↦ rw old (skip (newest_from wanted none ts) old (newest_from-none wanted ts))
]
  where
    skip :
        (o : Option OauthToken)
        → wanted t ≡ false
        → IsNewest wanted ts o
        → IsNewest wanted (t ∷ ts) o
    skip none old h = (old, h)
    skip (some f) old h = ground arith

-- On a store that does not fail, FindOAuthToken leaves the store as it is and returns a token of the
-- user with the provider (and the account, when one is given) that no other such token is newer
-- than, or nothing when the user has no such token.
pub find_oauth_token-IsNewest :
    (u p : ℕ) (a : Text) (m : Mem)
    → m.fail_next ≡ none
    → (o : Option OauthToken) × (find_oauth_token u p a m ≡ (ok o, m))
      × IsNewest (is_candidate u p a) (values m.tokens) o
unfolding find_oauth_token fail
find_oauth_token-IsNewest u p a m h =
    (newest_from (is_candidate u p a) none (values m.tokens), rw h refl, newest_from-none _ _)

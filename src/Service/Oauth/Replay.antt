-- ===== src/Service/Oauth/Replay.antt =====
-- service/oauthflow.go: a state is good for one callback.
use donkey_work_vault.Base.{
  ℕ, ◌≡◌, ◌≤◌, refl, arith, Bool-cases, inl, inr, Bool, true, false, ltb, List, [], ◌∷◌, keep, find,
  length, Option, Option-cases, none, some, Text, text, text_eq, ok, err, Result,
  oauth_authorization,
}
use donkey_work_vault.Base.Table.{Table, get, remove, values, get-eq-none_of_Fresh}
use donkey_work_vault.Base.Exec.{Exec, Stays, continue-Stays, lift}
use donkey_work_vault.Crypto.Cipher.{Cipher}
use donkey_work_vault.Store.Types.{Uuid, OauthState, OauthProviderConfig, OauthToken}
use donkey_work_vault.Store.Mem.{Mem, fail_lem}
use donkey_work_vault.Store.Mem.Manifests.{get_manifest_by_key}
use donkey_work_vault.Store.Mem.Configs.{get_oauth_config_by_provider}
use donkey_work_vault.Store.Mem.Tokens.{insert_oauth_token, update_oauth_token, find_oauth_token}
use donkey_work_vault.Store.Mem.States.{get_oauth_state_by_state}
use donkey_work_vault.Store.Claims.{delete_oauth_state-found}
use donkey_work_vault.Store.WellFormed.{IsWellFormed}
use donkey_work_vault.Store.Tidy.{IsTidy, get_of_find}
use donkey_work_vault.Audit.Log.{Context, Backend, EmitParams, emit, on_random}
use donkey_work_vault.Manifests.{Manifest, ManifestJson}
use donkey_work_vault.Manifests.Resolver.{get_oauth}
use donkey_work_vault.Service.Oauth.{OauthJson, TokenResponse, Client, expiry}
use donkey_work_vault.Service.Oauth.Exchange.{found_or, quoted, request_grant}
use donkey_work_vault.Service.Oauth.Userinfo.{fetch_account}
use donkey_work_vault.Service.Oauth.Flow.{
  CompleteAuthResult, refresh_blob_of, insert_or_update, store_token, with_grant, redeem, claim,
  complete_core, complete, reported, granted_scopes, split_scopes,
}

abbrev pub has_state : Text → OauthState → Bool
has_state state r = text_eq r.state state

-- No row with this state, on a store that does not fail.
abbrev pub Spent : Text → Mem → Type 0
Spent state m = (m.fail_next ≡ none) × (find (has_state state) (values m.states) ≡ none)

-- Not more than one row has the state.
abbrev pub IsOnce : Text → Mem → Type 0
IsOnce state m = length (keep (has_state state) (values m.states)) ≤ 1

module _ (p : OauthState → Bool) where
  find-none_of_keep : (xs : List OauthState) → length (keep p xs) ≤ 0 → find p xs ≡ none
  find-none_of_keep [] h = refl
  find-none_of_keep (x ∷ xs) h = ground (arith, find-none_of_keep xs)

  remove_Fresh : (k : ℕ) (t : Table OauthState) → get k t ≡ none → remove k t ≡ t
  unfolding get remove
  remove_Fresh k [] h = refl
  remove_Fresh k ((j, w) ∷ t) h = ground (arith, remove_Fresh k t)

  -- The only row that passes is found, and not found after its removal.
  find-remove :
      (r : OauthState) (t : Table OauthState)
      → IsTidy (λ (s : OauthState). s.id) t
      → length (keep p (values t)) ≤ 1
      → find p (values t) ≡ some r
      → find p (values (remove r.id t)) ≡ none
  unfolding values remove
  find-remove r [] h n e = refl
  find-remove r ((j, w) ∷ t) h n e = elim (Bool-cases (p w)) [
    | inl hit ↦ ground (
      arith,
      remove_Fresh j t,
      get-eq-none_of_Fresh j t,
      find-none_of_keep (values t),
      h.distinct,
      h.keyed.0,
    )
    | inr miss ↦
        let rest : IsTidy (λ (s : OauthState). s.id) t = record {
          distinct = h.distinct.1;
          keyed = h.keyed.1;
        } in
        ground (arith, find-remove r t rest, get_of_find (λ (s : OauthState). s.id) p r t rest)
  ]

module _ (state : Text) where
  get_oauth-Stays :
      (json : ManifestJson) (key : Text) (u : Uuid) → Stays (Spent state) (get_oauth json key u)
  unfolding get_oauth get_manifest_by_key
  get_oauth-Stays json key u s (h, e) = rw (fail_lem s h) (h, e)

  config-Stays : (u p : Uuid) → Stays (Spent state) (get_oauth_config_by_provider u p)
  unfolding get_oauth_config_by_provider
  config-Stays u p s (h, e) = rw (fail_lem s h) (h, e)

  find-Stays : (u p : Uuid) (a : Text) → Stays (Spent state) (find_oauth_token u p a)
  unfolding find_oauth_token
  find-Stays u p a s (h, e) = rw (fail_lem s h) (h, e)

  insert-Stays : (i now : ℕ) (t : OauthToken) → Stays (Spent state) (insert_oauth_token i now t)
  unfolding insert_oauth_token
  insert-Stays i now t s (h, e) = rw (fail_lem s h) (h, e)

  update-Stays : (t : OauthToken) → Stays (Spent state) (update_oauth_token t)
  unfolding update_oauth_token
  update-Stays t s (h, e) = rw (fail_lem s h) (h, e)

  -- On the backend.
  abbrev Over : Backend → Type 0
  Over b = Spent state b.store

  on_random-Stays : {A : Type 0} (act : Exec Text A) → Stays Over (on_random act)
  on_random-Stays act b k = k

  lift-Stays : {A : Type 0} (r : Result A) → Stays Over (lift {S = Backend} r)
  lift-Stays r b k = k

  emit-Stays : (ctx : Context) (p : EmitParams) → Stays Over (emit ctx p)
  unfolding emit
  emit-Stays ctx p b k = k

  module _ (manifest_json : ManifestJson) (json : OauthJson) (cipher : Cipher) (client : Client)
      (ctx : Context) (new_id : Uuid) (row : OauthState) where
    refresh_blob_of-Stays :
        (t : Text) → Stays Over (refresh_blob_of manifest_json json cipher client t)
    unfolding refresh_blob_of
    refresh_blob_of-Stays [] b k = k
    refresh_blob_of-Stays (c ∷ cs) b k = k

    insert_or_update-Stays :
        (pid : Uuid) (account : Text) (parsed : TokenResponse) (expires_at : Option ℕ)
        (scopes : List Text) (a r : Text) (o : Option OauthToken)
        → Stays Over (
            insert_or_update manifest_json json cipher client ctx new_id row pid account parsed
              expires_at scopes a r o)
    unfolding insert_or_update
    insert_or_update-Stays pid account parsed expires_at scopes a r none b k =
        continue-Stays Over _ _ _ (insert-Stays new_id ctx.now _ b.store k) (λ t c q. q)
    insert_or_update-Stays pid account parsed expires_at scopes a r (some t) b k =
        update-Stays _ b.store k

    store_token-Stays :
        (pid : Uuid) (account : Text) (parsed : TokenResponse) (expires_at : Option ℕ)
        (scopes : List Text) (b : Backend)
        → Spent state b.store
        → Spent state
            (store_token manifest_json json cipher client ctx new_id row pid account parsed
              expires_at scopes b).1.store
    unfolding store_token
    store_token-Stays pid account parsed expires_at scopes b k =
        continue-Stays Over (cipher.encrypt_string parsed.access_token b.random).0 _ _ k (λ a c q.
          continue-Stays Over
            (refresh_blob_of manifest_json json cipher client parsed.refresh_token c).0 _ _
            (refresh_blob_of-Stays parsed.refresh_token c q)
            (λ r d w.
              continue-Stays Over (find_oauth_token row.owner_user_id pid account d.store).0 _ _
                (find-Stays row.owner_user_id pid account d.store w)
                (insert_or_update-Stays pid account parsed expires_at scopes a r)))

    with_grant-Stays :
        (manifest : Manifest) (config : OauthProviderConfig) (parsed : TokenResponse)
        → Stays Over
            (with_grant manifest_json json cipher client ctx new_id row manifest config parsed)
    unfolding with_grant emit
    with_grant-Stays manifest config parsed b k =
        let expires_at = expiry ctx.now parsed.expires_in in
        let scopes =
          granted_scopes manifest_json json cipher client ctx new_id row config
            (split_scopes parsed.scope) in
        let account = fetch_account json client manifest parsed.access_token in
        continue-Stays Over
          (store_token manifest_json json cipher client ctx new_id row manifest.id account parsed
            expires_at scopes b).0
          _ _ (store_token-Stays manifest.id account parsed expires_at scopes b k) (λ t c q. q)

    redeem-Stays :
        (code : Text) → Stays Over (redeem manifest_json json cipher client ctx new_id row code)
    unfolding redeem
    redeem-Stays code b k =
        continue-Stays Over (get_oauth manifest_json row.provider row.owner_user_id b.store).0 _ _
          (get_oauth-Stays manifest_json row.provider row.owner_user_id b.store k)
          (λ found c q.
            continue-Stays Over
              (found_or (quoted (text "unknown OAuth provider ") row.provider (text ".")) found) _ _
              q
              (λ manifest d w.
                continue-Stays Over
                  (get_oauth_config_by_provider row.owner_user_id manifest.id d.store).0 _ _
                  (config-Stays row.owner_user_id manifest.id d.store w)
                  (λ owned e v.
                    continue-Stays Over
                      (found_or (quoted (text "no OAuth app config for ") row.provider (text "."))
                        owned)
                      _ _ v
                      (λ config g x.
                        continue-Stays Over
                          (request_grant json cipher client row manifest config code) _ _ x
                          (with_grant-Stays manifest config)))))

module _ (manifest_json : ManifestJson) (json : OauthJson) (cipher : Cipher) (client : Client) where
  -- A callback that finds no state or one that has expired is refused, and leaves the store alone.
  abbrev pub IsRefused : Context → Uuid → Text → Text → Backend → Type 0
  IsRefused ctx new_id code state b =
      ((complete manifest_json json cipher client ctx new_id code state b).0
        ≡ err (oauth_authorization (text "invalid or expired state.")))
      × ((complete manifest_json json cipher client ctx new_id code state b).1.store ≡ b.store)

  IsRefused-of_Spent :
      (ctx : Context) (new_id : Uuid) (code state : Text) (b : Backend)
      → Spent state b.store
      → IsRefused ctx new_id code state b
  unfolding complete complete_core get_oauth_state_by_state emit
  IsRefused-of_Spent ctx new_id code state b (h, e) = rw (fail_lem b.store h, e) (refl, refl)

  IsRefused-of_expired :
      (ctx : Context) (new_id : Uuid) (code state : Text) (b : Backend) (r : OauthState)
      → b.store.fail_next ≡ none
      → find (has_state state) (values b.store.states) ≡ some r
      → ltb r.expires_at ctx.now ≡ true
      → IsRefused ctx new_id code state b
  unfolding complete complete_core claim get_oauth_state_by_state emit
  IsRefused-of_expired ctx new_id code state b r h e late =
      rw (fail_lem b.store h, e, late) (refl, refl)

  reported-store :
      (ctx : Context) (r : Result CompleteAuthResult) (b : Backend)
      → (reported manifest_json json cipher client ctx r b).1.store ≡ b.store
  unfolding emit
  reported-store ctx (ok r) b = refl
  reported-store ctx (err e) b = refl

  -- A claim in time spends the state, whatever comes of the rest.
  Spent-of_claimed :
      (ctx : Context) (new_id : Uuid) (code state : Text) (b : Backend) (r : OauthState)
      → IsTidy (λ (s : OauthState). s.id) b.store.states
      → IsOnce state b.store
      → b.store.fail_next ≡ none
      → find (has_state state) (values b.store.states) ≡ some r
      → ltb r.expires_at ctx.now ≡ false
      → Spent state (complete manifest_json json cipher client ctx new_id code state b).1.store
  unfolding complete complete_core claim get_oauth_state_by_state
  Spent-of_claimed ctx new_id code state b r tidy once h e live =
      let stored =
        (get_of_find (λ (s : OauthState). s.id) (has_state state) r b.store.states tidy e).1 in
      let after : Backend = record b {
        store = record b.store { states = remove r.id b.store.states };
      } in
      let rest =
        redeem-Stays state manifest_json json cipher client ctx new_id r code after
          (h, find-remove (has_state state) r b.store.states tidy once e) in
      rw
        (
          fail_lem b.store h,
          e,
          live,
          delete_oauth_state-found r.id r b.store h stored,
          reported-store ctx (redeem manifest_json json cipher client ctx new_id r code after).0
              (redeem manifest_json json cipher client ctx new_id r code after).1,
        )
        rest

  -- A state is good for one callback: on a well-formed store that does not fail and on which no two
  -- rows have the state, once Complete was called with it, whatever code it was given and whatever
  -- came of it, each later call with the state, with any code, is refused as an invalid or expired
  -- state and leaves the store as it is.
  pub complete_once :
      (ctx later : Context) (new_id other_id : Uuid) (code other_code state : Text) (b : Backend)
      → IsWellFormed b.store
      → IsOnce state b.store
      → b.store.fail_next ≡ none
      → ctx.now ≤ later.now
      → IsRefused later other_id other_code state
          (complete manifest_json json cipher client ctx new_id code state b).1
  complete_once ctx later new_id other_id code other_code state b w once h le =
      elim (Option-cases (find (has_state state) (values b.store.states))) [
        | inl e ↦
            let same = (IsRefused-of_Spent ctx new_id code state b (h, e)).1 in
            IsRefused-of_Spent later other_id other_code state after (rw same (h, e))
        | inr (r, e) ↦ elim (Bool-cases (ltb r.expires_at ctx.now)) [
          | inl late ↦
              let same = (IsRefused-of_expired ctx new_id code state b r h e late).1 in
              IsRefused-of_expired later other_id other_code state after r (rw same h) (rw same e)
                (ground (arith, le))
          | inr live ↦
              IsRefused-of_Spent later other_id other_code state after
                (Spent-of_claimed ctx new_id code state b r w.states once h e live)
        ]
      ]
    where
      after : Backend
      after = (complete manifest_json json cipher client ctx new_id code state b).1

-- ===== src/Store/Tests.antt =====
-- The theorems about the store at a store with the rows of two users.
use mathlib.Core.List.{Perm}
use donkey_work_vault.Base.{
  ◌↔◌, ℕ, ◌≡◌, ◌≢◌, refl, arith, min, List, [], ◌∷◌, Option, some, none, text, ok, true, find, keep,
  length, All, ◌-◌,
}
use donkey_work_vault.Base.Table.{get, values, put}
use donkey_work_vault.Store.Types.{
  OauthProviderConfig, OauthState, OauthToken, ProviderManifest, AuditEntry, AuditFilter,
}
use donkey_work_vault.Store.Mem.{Mem, new_mem, fail}
use donkey_work_vault.Store.Mem.Configs.{insert_oauth_config}
use donkey_work_vault.Store.Mem.States.{insert_oauth_state, delete_oauth_state}
use donkey_work_vault.Store.Mem.Tokens.{is_candidate, insert_oauth_token, find_oauth_token}
use donkey_work_vault.Store.Mem.Manifests.{is_keyed, insert_manifest, delete_manifest_cascade}
use donkey_work_vault.Store.Mem.Audit.{matches, insert_audit_batch, query_audit, assign_ids}
use donkey_work_vault.Store.WellFormed.{IsWellFormed}
use donkey_work_vault.Store.SameRows.{SameRows}
use donkey_work_vault.Store.Samples.{entry_at}
use donkey_work_vault.Store.Lookup.{IsNewest, find_oauth_token-IsNewest}
use donkey_work_vault.Store.Claims.{delete_oauth_state-once}
use donkey_work_vault.Store.Cascade.{Cascaded, delete_manifest_cascade-Cascaded}
use donkey_work_vault.Store.Trail.{
  IsPage, NewestFirst, Fits, query_audit_lem, read_pages, read_pages-Perm,
}
use donkey_work_vault.Store.Method.{
  Method, add_config, add_state, add_token, add_manifest, drop_manifest, add_audit, run, run_all,
}
use donkey_work_vault.Store.Method.Invariant.{run_all-IsWellFormed}
use donkey_work_vault.Store.Method.Isolation.{run-SameRows}

abbrev token_at : ℕ → ℕ → OauthToken
token_at user_id created_at = record {
  id = 0;
  user_id = user_id;
  tenant_id = 1;
  provider_id = 70;
  provider_key = text "github";
  account = text "octocat";
  access_token_cipher = [];
  refresh_token_cipher = [];
  scopes_json = none;
  expires_at = none;
  last_refreshed_at = none;
  created_at = created_at;
  updated_at = none;
}

abbrev config_for : ℕ → OauthProviderConfig
config_for user_id = record {
  id = 0;
  user_id = user_id;
  tenant_id = 1;
  provider_id = 70;
  provider_key = text "github";
  client_id_cipher = [];
  client_secret_cipher = [];
  scopes_json = none;
  redirect_uri = none;
  created_at = 0;
  updated_at = none;
}

abbrev pending : OauthState
pending = record {
  id = 0;
  state = text "nonce";
  provider = text "github";
  code_verifier = text "verifier";
  owner_user_id = 7;
  owner_tenant_id = 1;
  redirect_uri = [];
  expires_at = 600;
  created_at = 0;
}

abbrev manifest_for : ℕ → ProviderManifest
manifest_for user_id = record {
  id = 0;
  user_id = user_id;
  tenant_id = 1;
  kind = text "oauth";
  key = text "github";
  provider_id = 70;
  parent_id = 0;
  document_json = [];
  created_at = 0;
  updated_at = none;
}

-- User 7 has a provider with a config and two tokens, and user 8 has the same provider.
abbrev history : List Method
history =
    add_manifest 1 100 (manifest_for 7)
    ∷ add_manifest 2 100 (manifest_for 8)
    ∷ add_config 3 100 (config_for 7)
    ∷ add_config 4 100 (config_for 8)
    ∷ add_token 5 100 (token_at 7 50)
    ∷ add_token 6 100 (token_at 7 60)
    ∷ add_token 9 100 (token_at 8 70)
    ∷ add_state 11 100 pending
    ∷ add_audit (21 ∷ 22 ∷ 23 ∷ []) (entry_at 7 10 ∷ entry_at 8 20 ∷ entry_at 7 30 ∷ [])
    ∷ []

abbrev filter : AuditFilter
filter = record {
  user_id = 7;
  tenant_id = 1;
  limit = 1;
  offset = 1;
  event_type = none;
  outcome = none;
  filter_user_id = none;
  since = none;
  until = none;
}

run_all-IsWellFormed_example : IsWellFormed (run_all history new_mem)
run_all-IsWellFormed_example = run_all-IsWellFormed history

run-SameRows_example :
    SameRows 8
      (run_all history new_mem)
      (run (drop_manifest 7 (text "oauth") (text "github")) (run_all history new_mem))
run-SameRows_example =
    run-SameRows 8 (drop_manifest 7 (text "oauth") (text "github")) (run_all history new_mem)
      (run_all-IsWellFormed history) (omega arith)

never_fails : (run_all history new_mem).fail_next ≡ none
unfolding run_all run fail insert_manifest insert_oauth_config insert_oauth_token insert_oauth_state
    insert_audit_batch
never_fails = refl

find_oauth_token-IsNewest_example :
    (o : Option OauthToken) × (find_oauth_token 7 70 [] (run_all history new_mem)
      ≡ (ok o, run_all history new_mem))
    × IsNewest (is_candidate 7 70 []) (values (run_all history new_mem).tokens) o
find_oauth_token-IsNewest_example =
    find_oauth_token-IsNewest 7 70 [] (run_all history new_mem) never_fails

delete_manifest_cascade-Cascaded_example :
    Cascaded 7
      (text "oauth")
      (text "github")
      (run_all history new_mem)
      (find
        (is_keyed 7 (text "oauth") (text "github"))
        (values (run_all history new_mem).manifests))
      (delete_manifest_cascade 7 (text "oauth") (text "github") (run_all history new_mem))
delete_manifest_cascade-Cascaded_example =
    delete_manifest_cascade-Cascaded 7 (text "oauth") (text "github") (run_all history new_mem)
      (run_all-IsWellFormed history) never_fails

abbrev stored_state : OauthState
stored_state = record pending { id = 11; created_at = 100 }

state_stored : get 11 (run_all history new_mem).states ≡ some stored_state
unfolding run_all run fail insert_manifest insert_oauth_config insert_oauth_token insert_oauth_state
    insert_audit_batch get put
state_stored = refl

delete_oauth_state-once_example :
    (n : Mem) × (delete_oauth_state 11 (run_all history new_mem) ≡ (ok 1, n))
    × (get 11 n.states ≡ none)
    × ((j : ℕ) → j ≢ 11 → get j n.states ≡ get j (run_all history new_mem).states)
    × (delete_oauth_state 11 n ≡ (ok 0, n))
delete_oauth_state-once_example =
    delete_oauth_state-once 11 stored_state (run_all history new_mem) never_fails state_stored

query_audit_lem_example :
    (rows : List AuditEntry) × (query_audit filter (run_all history new_mem) ≡ (
      ok (rows, length (keep (matches filter) (run_all history new_mem).audit)),
      run_all history new_mem,
    ))
    × IsPage (matches filter) filter.limit filter.offset (run_all history new_mem).audit rows
    × NewestFirst rows
    × All (λ e. matches filter e ≡ true) rows
    × (length rows
        ≡ min filter.limit
            (length (keep (matches filter) (run_all history new_mem).audit) - filter.offset))
    × ((e : AuditEntry) → (matches filter e ≡ true) ↔ Fits filter e)
query_audit_lem_example = query_audit_lem filter (run_all history new_mem) never_fails

two_match : length (keep (matches filter) (run_all history new_mem).audit) ≡ 2
unfolding run_all run fail insert_manifest insert_oauth_config insert_oauth_token insert_oauth_state
    insert_audit_batch assign_ids matches
two_match = refl

read_pages-Perm_example :
    Perm
      (read_pages filter 1 3 0 (run_all history new_mem))
      (keep (matches filter) (run_all history new_mem).audit)
    × NewestFirst (read_pages filter 1 3 0 (run_all history new_mem))
read_pages-Perm_example =
    read_pages-Perm filter 1 3 (run_all history new_mem) never_fails (omega (arith, two_match))

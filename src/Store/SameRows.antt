-- ===== src/Store/SameRows.antt =====
-- What one user has in the store: the rows of each table that have the user as their owner.
use donkey_work_vault.Base.{
  ℕ, ◌≡◌, refl, Option, Option-cases, none, inl, inr, List, Error, keep, ◌==◌,
}
use donkey_work_vault.Base.Table.{Table}
use donkey_work_vault.Base.Exec.{Exec, ◌>>◌}
use donkey_work_vault.Store.Types.{
  AccessKey, ApiKey, AuditEntry, OauthProviderConfig, OauthState, OauthToken, ProviderManifest,
}
use donkey_work_vault.Store.Rows.{get_owned}
use donkey_work_vault.Store.Mem.{Mem, fail}

-- The rows of the trail that are about a user.
abbrev pub trail_of : ℕ → List AuditEntry → List AuditEntry
trail_of v es = keep (λ (e : AuditEntry). e.user_id == v) es

-- The user has the same rows under the same ids before and after, and the same rows in the trail in
-- the same order. The owner of an OAuth state is the user who started the flow.
pub record SameRows (v : ℕ) (m n : Mem) : Type 0 where
  pub access_keys :
      (j : ℕ)
      → get_owned (λ (r : AccessKey). r.user_id) v j n.access_keys
        ≡ get_owned (λ (r : AccessKey). r.user_id) v j m.access_keys
  pub api_keys :
      (j : ℕ)
      → get_owned (λ (r : ApiKey). r.user_id) v j n.api_keys
        ≡ get_owned (λ (r : ApiKey). r.user_id) v j m.api_keys
  pub configs :
      (j : ℕ)
      → get_owned (λ (r : OauthProviderConfig). r.user_id) v j n.configs
        ≡ get_owned (λ (r : OauthProviderConfig). r.user_id) v j m.configs
  pub tokens :
      (j : ℕ)
      → get_owned (λ (r : OauthToken). r.user_id) v j n.tokens
        ≡ get_owned (λ (r : OauthToken). r.user_id) v j m.tokens
  pub manifests :
      (j : ℕ)
      → get_owned (λ (r : ProviderManifest). r.user_id) v j n.manifests
        ≡ get_owned (λ (r : ProviderManifest). r.user_id) v j m.manifests
  pub states :
      (j : ℕ)
      → get_owned (λ (r : OauthState). r.owner_user_id) v j n.states
        ≡ get_owned (λ (r : OauthState). r.owner_user_id) v j m.states
  pub audit : trail_of v n.audit ≡ trail_of v m.audit

module _ {v : ℕ} {m : Mem} where
  pub SameRows-refl : SameRows v m m
  SameRows-refl = record {
    access_keys = λ j. refl;
    api_keys = λ j. refl;
    configs = λ j. refl;
    tokens = λ j. refl;
    manifests = λ j. refl;
    states = λ j. refl;
    audit = refl;
  }

  pub with_access_keys :
      (t : Table AccessKey)
      → ((j : ℕ)
          → get_owned (λ (r : AccessKey). r.user_id) v j t
            ≡ get_owned (λ (r : AccessKey). r.user_id) v j m.access_keys)
      → SameRows v m (record m { access_keys = t })
  with_access_keys t k = record {
    access_keys = k;
    api_keys = λ j. refl;
    configs = λ j. refl;
    tokens = λ j. refl;
    manifests = λ j. refl;
    states = λ j. refl;
    audit = refl;
  }

  pub with_api_keys :
      (t : Table ApiKey)
      → ((j : ℕ)
          → get_owned (λ (r : ApiKey). r.user_id) v j t
            ≡ get_owned (λ (r : ApiKey). r.user_id) v j m.api_keys)
      → SameRows v m (record m { api_keys = t })
  with_api_keys t k = record {
    access_keys = λ j. refl;
    api_keys = k;
    configs = λ j. refl;
    tokens = λ j. refl;
    manifests = λ j. refl;
    states = λ j. refl;
    audit = refl;
  }

  pub with_configs :
      (t : Table OauthProviderConfig)
      → ((j : ℕ)
          → get_owned (λ (r : OauthProviderConfig). r.user_id) v j t
            ≡ get_owned (λ (r : OauthProviderConfig). r.user_id) v j m.configs)
      → SameRows v m (record m { configs = t })
  with_configs t k = record {
    access_keys = λ j. refl;
    api_keys = λ j. refl;
    configs = k;
    tokens = λ j. refl;
    manifests = λ j. refl;
    states = λ j. refl;
    audit = refl;
  }

  pub with_tokens :
      (t : Table OauthToken)
      → ((j : ℕ)
          → get_owned (λ (r : OauthToken). r.user_id) v j t
            ≡ get_owned (λ (r : OauthToken). r.user_id) v j m.tokens)
      → SameRows v m (record m { tokens = t })
  with_tokens t k = record {
    access_keys = λ j. refl;
    api_keys = λ j. refl;
    configs = λ j. refl;
    tokens = k;
    manifests = λ j. refl;
    states = λ j. refl;
    audit = refl;
  }

  pub with_manifests :
      (t : Table ProviderManifest)
      → ((j : ℕ)
          → get_owned (λ (r : ProviderManifest). r.user_id) v j t
            ≡ get_owned (λ (r : ProviderManifest). r.user_id) v j m.manifests)
      → SameRows v m (record m { manifests = t })
  with_manifests t k = record {
    access_keys = λ j. refl;
    api_keys = λ j. refl;
    configs = λ j. refl;
    tokens = λ j. refl;
    manifests = k;
    states = λ j. refl;
    audit = refl;
  }

  pub with_states :
      (t : Table OauthState)
      → ((j : ℕ)
          → get_owned (λ (r : OauthState). r.owner_user_id) v j t
            ≡ get_owned (λ (r : OauthState). r.owner_user_id) v j m.states)
      → SameRows v m (record m { states = t })
  with_states t k = record {
    access_keys = λ j. refl;
    api_keys = λ j. refl;
    configs = λ j. refl;
    tokens = λ j. refl;
    manifests = λ j. refl;
    states = k;
    audit = refl;
  }

  pub with_audit :
      (es : List AuditEntry)
      → trail_of v es ≡ trail_of v m.audit
      → SameRows v m (record m { audit = es })
  with_audit es k = record {
    access_keys = λ j. refl;
    api_keys = λ j. refl;
    configs = λ j. refl;
    tokens = λ j. refl;
    manifests = λ j. refl;
    states = λ j. refl;
    audit = k;
  }

  with_failure : (o : Option Error) → SameRows v m (record m { fail_next = o })
  with_failure o = record {
    access_keys = λ j. refl;
    api_keys = λ j. refl;
    configs = λ j. refl;
    tokens = λ j. refl;
    manifests = λ j. refl;
    states = λ j. refl;
    audit = refl;
  }

  pub guarded_rows :
      {A : Type 0} (act : Exec Mem A) → SameRows v m (act m).1 → SameRows v m ((fail >> act) m).1
  unfolding fail
  guarded_rows act k = elim (Option-cases m.fail_next) [
    | inl e ↦ simp (e, fail) k
    | inr (x, e) ↦ simp (e, fail) (with_failure none)
  ]

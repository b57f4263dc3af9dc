-- ===== src/Store/WellFormed.antt =====
-- The invariant of the store: every table is tidy.
use donkey_work_vault.Base.{Option, none, Option-cases, inl, inr, List, Error}
use donkey_work_vault.Base.Table.{Table}
use donkey_work_vault.Base.Exec.{Exec, ◌>>◌}
use donkey_work_vault.Store.Types.{
  AccessKey, ApiKey, AuditEntry, OauthProviderConfig, OauthState, OauthToken, ProviderManifest,
}
use donkey_work_vault.Store.Mem.{Mem, fail}
use donkey_work_vault.Store.Tidy.{IsTidy}

pub record IsWellFormed (m : Mem) : Type 0 where
  pub access_keys : IsTidy (λ (r : AccessKey). r.id) m.access_keys
  pub api_keys : IsTidy (λ (r : ApiKey). r.id) m.api_keys
  pub configs : IsTidy (λ (r : OauthProviderConfig). r.id) m.configs
  pub states : IsTidy (λ (r : OauthState). r.id) m.states
  pub tokens : IsTidy (λ (r : OauthToken). r.id) m.tokens
  pub manifests : IsTidy (λ (r : ProviderManifest). r.id) m.manifests

module _ {m : Mem} (h : IsWellFormed m) where
  pub with_access_keys :
      (t : Table AccessKey)
      → IsTidy (λ (r : AccessKey). r.id) t
      → IsWellFormed (record m { access_keys = t })
  with_access_keys t k = record {
    access_keys = k;
    api_keys = h.api_keys;
    configs = h.configs;
    states = h.states;
    tokens = h.tokens;
    manifests = h.manifests;
  }

  pub with_api_keys :
      (t : Table ApiKey)
      → IsTidy (λ (r : ApiKey). r.id) t
      → IsWellFormed (record m { api_keys = t })
  with_api_keys t k = record {
    access_keys = h.access_keys;
    api_keys = k;
    configs = h.configs;
    states = h.states;
    tokens = h.tokens;
    manifests = h.manifests;
  }

  pub with_configs :
      (t : Table OauthProviderConfig)
      → IsTidy (λ (r : OauthProviderConfig). r.id) t
      → IsWellFormed (record m { configs = t })
  with_configs t k = record {
    access_keys = h.access_keys;
    api_keys = h.api_keys;
    configs = k;
    states = h.states;
    tokens = h.tokens;
    manifests = h.manifests;
  }

  pub with_states :
      (t : Table OauthState)
      → IsTidy (λ (r : OauthState). r.id) t
      → IsWellFormed (record m { states = t })
  with_states t k = record {
    access_keys = h.access_keys;
    api_keys = h.api_keys;
    configs = h.configs;
    states = k;
    tokens = h.tokens;
    manifests = h.manifests;
  }

  pub with_tokens :
      (t : Table OauthToken)
      → IsTidy (λ (r : OauthToken). r.id) t
      → IsWellFormed (record m { tokens = t })
  with_tokens t k = record {
    access_keys = h.access_keys;
    api_keys = h.api_keys;
    configs = h.configs;
    states = h.states;
    tokens = k;
    manifests = h.manifests;
  }

  pub with_manifests :
      (t : Table ProviderManifest)
      → IsTidy (λ (r : ProviderManifest). r.id) t
      → IsWellFormed (record m { manifests = t })
  with_manifests t k = record {
    access_keys = h.access_keys;
    api_keys = h.api_keys;
    configs = h.configs;
    states = h.states;
    tokens = h.tokens;
    manifests = k;
  }

  pub without_tables :
      (es : List AuditEntry) (o : Option Error)
      → IsWellFormed (record m { audit = es; fail_next = o })
  without_tables es o = record {
    access_keys = h.access_keys;
    api_keys = h.api_keys;
    configs = h.configs;
    states = h.states;
    tokens = h.tokens;
    manifests = h.manifests;
  }

  -- A method that fails on demand has changed no table.
  pub guarded :
      {A : Type 0} (act : Exec Mem A) → IsWellFormed (act m).1 → IsWellFormed ((fail >> act) m).1
  unfolding fail
  guarded act k = elim (Option-cases m.fail_next) [
    | inl e ↦ rw (e, fail) k
    | inr (x, e) ↦ rw (e, fail) (without_tables m.audit none)
  ]

-- ===== src/Store/Mem.antt =====
-- memstore.go: the in-memory store. Each method takes its mutex first, so it is one step on the
-- state. `uuid.New()` and `time.Now()` are arguments of the methods that call them.
pub mod AccessKeys
pub mod ApiKeys
pub mod Configs
pub mod States
pub mod Tokens
pub mod Manifests
pub mod Audit
use donkey_work_vault.Base.{◌≡◌, refl, Option, some, none, List, [], Error, Result, ok, err}
use donkey_work_vault.Base.Table.{Table}
use donkey_work_vault.Base.Exec.{Exec}
use donkey_work_vault.Store.Types.{
  AccessKey, ApiKey, OauthProviderConfig, OauthState, OauthToken, ProviderManifest, AuditEntry,
}

pub record Mem : Type 0 where
  pub access_keys : Table AccessKey
  pub api_keys : Table ApiKey
  pub configs : Table OauthProviderConfig
  pub states : Table OauthState
  pub tokens : Table OauthToken
  pub manifests : Table ProviderManifest
  pub audit : List AuditEntry
  pub fail_next : Option Error

abbrev pub new_mem : Mem
new_mem = record {
  access_keys = [];
  api_keys = [];
  configs = [];
  states = [];
  tokens = [];
  manifests = [];
  audit = [];
  fail_next = none;
}

-- The error that a test has asked for, which is then used up.
unfoldable pub fail : Exec Mem Unit
fail m = elim m.fail_next [ none ↦ (ok tt, m) | some e ↦ (err e, record m { fail_next = none }) ]

pub fail_lem : (m : Mem) → m.fail_next ≡ none → fail m ≡ (ok tt, m)
unfolding fail
fail_lem m h = go m.fail_next h
  where
    go :
        (o : Option Error)
        → o ≡ none
        → Path {0}
            (Result (Unit {0}) × Mem)
            (elim o [ none ↦ (ok tt, m) | some e ↦ (err e, record m { fail_next = none }) ])
            (ok tt, m)
    go none e = refl
    go (some x) e = absurd (cc e)

-- ===== src/Audit/Tests.antt =====
-- The theorems about the trail at a sink, a store and headers of their own.
use donkey_work_vault.Base.{
  ◌⊎◌, any, plain, trim_space, ℕ, ◌≡◌, ◌≤◌, ◌+◌, refl, arith, true, List, [], ◌∷◌, some, none, Text,
  text, to_lower, lower, text_eq, has_part, has_prefix, has_suffix, ◌↔◌, ok, keep, length, All,
}
use donkey_work_vault.Base.Integers.{pos, negsuc, to_nat}
use donkey_work_vault.Store.Sweep.{recent}
use donkey_work_vault.Store.Mem.{Mem, new_mem}
use donkey_work_vault.Store.Mem.Audit.{matches}
use donkey_work_vault.Store.Samples.{entry_at}
use donkey_work_vault.Audit.Types.{
  Event, event_name, parse_event_type, event_auth_failed, event_audit_accessed, outcome_success,
}
use donkey_work_vault.Audit.ForwardedIp.{
  NetIp, peer_text, resolve, forwarded_addr, split_commas, hop_addr, strip_port, index_byte,
  is_trusted,
}
use donkey_work_vault.Audit.Provenance.{Named, resolve-Named}
use donkey_work_vault.Audit.Writer.{Attempts}
use donkey_work_vault.Audit.Writer.Run.{
  Choice, got, tick, cancelled, Round, starting, new_writer, run,
}
use donkey_work_vault.Audit.Writer.Delivered.{Delivers, run-Delivers}
use donkey_work_vault.Audit.Redactor.{redact_headers, redact_from, redact_header, is_denied}
use donkey_work_vault.Audit.Redaction.{IsFrom, Once, IsKept, redact_headers-IsFrom}
use donkey_work_vault.Audit.Names.{parse_event_type_iff}
use donkey_work_vault.Audit.Retention.{RetentionOptions, new_retention, cutoff_at, sweep}
use donkey_work_vault.Audit.Swept.{live, sweep-live}
use donkey_work_vault.Audit.Log.{Context, Backend, emit_params, enqueue, event_for, new_log}
use donkey_work_vault.Audit.Sink.{
  Action, send, take_one, stop, act_all, begun, IsSound, act_all-IsSound,
}
use donkey_work_vault.Audit.Query.{Query, QueryResult, max_limit, filter_for, query}
use donkey_work_vault.Audit.Scoped.{Own, Asked, Nearest, query-Own}
use donkey_work_vault.Store.Trail.{IsPage, NewestFirst}
use donkey_work_vault.Store.Types.{AuditEntry}

abbrev headers : List (Text × List Text)
headers =
    (text "User-Agent", text "curl/8" ∷ [])
    ∷ (text "X-Vault-Token", text "s3cret" ∷ [])
    ∷ (text "Authorization", text "Bearer s3cret" ∷ [])
    ∷ []

kept_headers :
    redact_headers headers
    ≡ (text "authorization", text "***")
      ∷ (text "x-vault-token", text "***")
      ∷ (text "user-agent", text "curl/8")
      ∷ []
unfolding redact_headers redact_from redact_header is_denied to_lower lower text_eq has_part
    has_prefix has_suffix
kept_headers = refl

redact_headers-IsFrom_example :
    All (IsFrom headers) (redact_headers headers)
    × Once (redact_headers headers)
    × All (IsKept (redact_headers headers)) headers
redact_headers-IsFrom_example = redact_headers-IsFrom headers

parse_event_type_iff_example :
    (parse_event_type (text "authFAILED") ≡ (event_auth_failed, true))
    ↔ (to_lower (text "authFAILED") ≡ to_lower (event_name event_auth_failed))
parse_event_type_iff_example = parse_event_type_iff (text "authFAILED") event_auth_failed

abbrev trail : Mem
trail = record new_mem {
  audit =
      entry_at 7 10 ∷ entry_at 8 86400000000020 ∷ entry_at 7 30 ∷ entry_at 7 86400000000040 ∷ [];
}

-- A retention of one day, in batches of one row.
abbrev options : RetentionOptions
options = record { retention_days = pos 1; sweep_interval = pos 0; batch_size = pos 1 }

sweep-live_example :
    (k : ℕ) × (sweep (live 5) 172800000000000 (new_retention options) trail ≡ (
      ok (some k),
      record trail {
        audit = keep (recent (cutoff_at 172800000000000 (new_retention options))) trail.audit;
      },
    ))
    × (k + length (keep (recent (cutoff_at 172800000000000 (new_retention options))) trail.audit)
        ≡ length trail.audit)
sweep-live_example = sweep-live 5 172800000000000 options trail refl (omega arith)

abbrev pub ctx : Context
ctx = record { caller = record { user_id = 7; tenant_id = 1 }; info = none; now = 172800000000000 }

abbrev backend : Backend
backend = record { store = trail; log = new_log (pos 16); random = [] }

abbrev event : Event
event = event_for ctx (emit_params event_audit_accessed outcome_success (text "audit_log") [])

-- A sink for one event: the second event is dropped, and the one after the close is lost.
abbrev actions : List Action
actions = send event ∷ send event ∷ take_one ∷ send event ∷ stop ∷ send event ∷ []

act_all-IsSound_example : IsSound (act_all actions (begun (negsuc 4)))
act_all-IsSound_example = act_all-IsSound (negsuc 4) actions

abbrev asked : Query
asked = record {
  limit = pos 1000;
  offset = negsuc 0;
  kind = none;
  outcome = none;
  user_id = none;
  since = none;
  until = none;
}

query-Own_example :
    (r : QueryResult) × (query ctx asked backend ≡ (
      ok r,
      record backend {
        log =
            enqueue
              (event_for ctx
                (emit_params event_audit_accessed outcome_success (text "audit_log") []))
              backend.log;
      },
    ))
    × IsPage (matches (filter_for ctx asked)) r.limit r.offset backend.store.audit r.items
    × Nearest asked.limit r.limit
    × (r.offset ≡ to_nat asked.offset)
    × All (Own ctx) r.items
    × NewestFirst r.items
    × (length r.items ≤ max_limit)
    × (r.total ≡ length (keep (matches (filter_for ctx asked)) backend.store.audit))
    × ((e : AuditEntry) → (matches (filter_for ctx asked) e ≡ true) ↔ Asked ctx asked e)
query-Own_example = query-Own ctx asked backend refl

-- Addresses and ranges as texts, where a range holds one address.
abbrev plain_ip : NetIp Text Text
plain_ip = record {
  parse_addr = λ s. some s;
  parse_prefix = λ s. some s;
  host_prefix = λ a. a;
  is_valid = λ a. true;
  unmap = λ a. a;
  covers = λ p a. text_eq p a;
  show = λ a. a;
}

abbrev hops : Text
hops = text "1.2.3.4:5678, 10.0.0.2"

forwarded : resolve plain_ip (text "10.0.0.1" ∷ []) (text "10.0.0.1") hops [] ≡ text "1.2.3.4"
unfolding resolve forwarded_addr split_commas hop_addr strip_port index_byte is_trusted text_eq
    trim_space has_prefix
forwarded = refl

resolve-Named_example :
    (resolve plain_ip (text "10.0.0.1" ∷ []) (text "10.0.0.1") hops []
      ≡ peer_text plain_ip (text "10.0.0.1"))
    ⊎ ((true ≡ true)
        × (any (λ n. text_eq n (text "10.0.0.1")) (text "10.0.0.1" ∷ []) ≡ true)
        × ((a : Text) × Named plain_ip hops [] a
            × (resolve plain_ip (text "10.0.0.1" ∷ []) (text "10.0.0.1") hops [] ≡ a)))
resolve-Named_example = resolve-Named plain_ip (text "10.0.0.1" ∷ []) (text "10.0.0.1") hops []

abbrev attempts : Attempts
attempts = record { ids = λ n. n ∷ []; alive = λ n. true; waited = λ n. true }

-- The next call of this store fails.
abbrev failing : Mem
failing = record trail { fail_next = some (plain (text "connection lost")) }

-- One event fills a batch, the next one waits until the context is done.
abbrev round_of : Choice → Round
round_of c = record { choice = c; running = attempts; draining = attempts }

abbrev rounds : List Round
rounds = round_of (got event) ∷ round_of tick ∷ round_of (cancelled (event ∷ [])) ∷ []

run-Delivers_example :
    Delivers failing 1 rounds
      (starting failing)
      (run (new_writer (record { batch_size = pos 1; flush_interval = pos 0 })) rounds failing)
unfolding new_writer
run-Delivers_example =
    run-Delivers (record { batch_size = pos 1; flush_interval = pos 0 }) rounds failing

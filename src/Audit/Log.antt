-- ===== src/Audit/Log.antt =====
-- audit/log.go: the bounded sink that requests write to and the writer reads from, and Emit.
use donkey_work_vault.Base.{
  ℕ, suc, ◌++◌, Bool, true, false, List, [], ◌∷◌, Option, none, some, Text, is_empty, ltb, length,
  if◌then◌else◌,
}
use donkey_work_vault.Base.Exec.{Exec, modify}
use donkey_work_vault.Base.Integers.{ℤ, pos, below_one, to_nat}
use donkey_work_vault.Store.Types.{Uuid, Time}
use donkey_work_vault.Store.Mem.{Mem}
use donkey_work_vault.Audit.Types.{EventType, Outcome, Event, RequestInfo, request_info_from}

-- The channel's buffer, oldest event first.
pub record Log : Type 0 where
  pub capacity : ℕ
  pub queue : List Event
  pub closed : Bool
  pub dropped : ℕ

unfoldable pub new_log : ℤ → Log
new_log capacity = record {
  capacity = to_nat (if below_one capacity then pos 1 else capacity);
  queue = [];
  closed = false;
  dropped = 0;
}

-- A send on the closed channel panics, and the panic is recovered from.
unfoldable pub enqueue : Event → Log → Log
enqueue e l =
    if l.closed
    then l
    else if ltb (length l.queue) l.capacity
    then record l { queue = l.queue ++ e ∷ [] }
    else record l { dropped = suc l.dropped }

-- Closing the closed channel panics too.
unfoldable pub complete : Log → Log
complete l = if l.closed then l else record l { closed = true }

-- A receive from Reader() that does not block, as the channel does it.
abbrev pub next_of : List Event → Log → Option Event × Log
next_of [] l = (none, l)
next_of (e ∷ es) l = (some e, record l { queue = es })

unfoldable pub receive : Log → Option Event × Log
receive l = next_of l.queue l

pub record Caller : Type 0 where
  pub user_id : Uuid
  pub tenant_id : Uuid

-- What the code reads of a request's context, and the clock.
pub record Context : Type 0 where
  pub caller : Caller
  pub info : Option RequestInfo
  pub now : Time

pub record EmitParams : Type 0 where
  pub kind : EventType
  pub outcome : Outcome
  pub target_kind : Text
  pub target_provider : Text
  pub target_account : Text
  pub target_name : Text
  pub detail : Text
  pub user_id : Option Uuid
  pub tenant_id : Option Uuid

-- Parameters with the fields that most calls of Emit leave empty.
abbrev pub emit_params : EventType → Outcome → Text → Text → EmitParams
emit_params kind outcome target_kind target_name = record {
  kind = kind;
  outcome = outcome;
  target_kind = target_kind;
  target_provider = [];
  target_account = [];
  target_name = target_name;
  detail = [];
  user_id = none;
  tenant_id = none;
}

abbrev pub or_else {ℓ} : {A : Type ℓ} → Option A → A → A
or_else none a = a
or_else (some b) a = b

abbrev pub str_ptr : Text → Option Text
str_ptr s = if is_empty s then none else some s

-- The event that Emit builds. Spans and metrics are not modelled.
unfoldable pub event_for : Context → EmitParams → Event
event_for ctx p =
    let info = request_info_from ctx.info in
    record {
      kind = p.kind;
      outcome = p.outcome;
      user_id = or_else p.user_id ctx.caller.user_id;
      tenant_id = or_else p.tenant_id ctx.caller.tenant_id;
      access_key_id = info.access_key_id;
      access_key_prefix = info.access_key_prefix;
      access_key_name = info.access_key_name;
      source_ip = info.source_ip;
      headers = info.headers;
      target_kind = str_ptr p.target_kind;
      target_provider = str_ptr p.target_provider;
      target_account = str_ptr p.target_account;
      target_name = str_ptr p.target_name;
      transport = info.transport;
      method = info.method;
      detail = str_ptr p.detail;
      created_at = ctx.now;
    }

-- What the services share: the store, the sink and the random source.
pub record Backend : Type 0 where
  pub store : Mem
  pub log : Log
  pub random : Text

unfoldable pub emit : Context → EmitParams → Exec Backend Unit
emit ctx p = modify (λ b. record b { log = enqueue (event_for ctx p) b.log })

-- A call of the store.
abbrev pub on_store : {A : Type 0} → Exec Mem A → Exec Backend A
on_store act b = ((act b.store).0, record b { store = (act b.store).1 })

-- A read of crypto/rand.
abbrev pub on_random : {A : Type 0} → Exec Text A → Exec Backend A
on_random act b = ((act b.random).0, record b { random = (act b.random).1 })

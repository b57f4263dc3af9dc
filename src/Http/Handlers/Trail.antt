-- ===== src/Http/Handlers/Trail.antt =====
-- httpapi/handlers.go: the handlers for the audit trail and for the caller.
use donkey_work_vault.Base.{Bool, ◌==◌, [], ◌∷◌, map, Option, none, some, Text, text, if◌then◌else◌}
use donkey_work_vault.Base.Integers.{ℤ, pos}
use donkey_work_vault.Store.Types.{Time}
use donkey_work_vault.Audit.Types.{parse_event_type, parse_outcome}
use donkey_work_vault.Audit.Log.{Context, or_else}
use donkey_work_vault.Audit.Query.{Query, QueryResult, query}
use donkey_work_vault.Http.Dto.{Answer, json, me, audit_page, Handler, reply, respond, write_error}
use donkey_work_vault.Http.Dto.Trail.{to_audit_dto}
use donkey_work_vault.Http.Middleware.{Session}
use donkey_work_vault.Http.Handlers.{Deps, Call}

-- A value with the test that goes with it.
abbrev pub if_ok : {A : Type 0} → A × Bool → Option A
if_ok (a, found) = if found then some a else none

abbrev pub page_answer : QueryResult → Answer
page_answer r = json 200 (
    audit_page (record {
      items = map to_audit_dto r.items;
      total = r.total;
      limit = r.limit;
      offset = r.offset;
    }))

module _ (deps : Deps) (call : Call) where
  abbrev pub atoi_or : Text → ℤ → ℤ
  atoi_or s default = or_else (deps.atoi s) default

  -- An absent time is allowed; one that is not a time is not.
  unfoldable pub parse_time_param : Text → Option (Option Time)
  parse_time_param [] = some none
  parse_time_param (c ∷ s) = elim (deps.parse_time (c ∷ s)) [ none ↦ none | some t ↦ some (some t) ]

  -- A type, an outcome or a user that is not known is left out of the filter.
  unfoldable pub audit_filter : Option Time → Option Time → Query
  audit_filter since until = record {
    limit = atoi_or (call.query (text "limit")) (pos 50);
    offset = atoi_or (call.query (text "offset")) (pos 0);
    kind = if_ok (parse_event_type (call.query (text "type")));
    outcome = if_ok (parse_outcome (call.query (text "outcome")));
    user_id = deps.parse_uuid (call.query (text "userId"));
    since = since;
    until = until;
  }

  module _ (ctx : Context) where
    unfoldable pub run_query : Option (Option Time) → Option (Option Time) → Handler
    run_query none until =
        reply (write_error 400 (text "invalid 'since' timestamp (RFC3339 expected)."))
    run_query (some since) none =
        reply (write_error 400 (text "invalid 'until' timestamp (RFC3339 expected)."))
    run_query (some since) (some until) = respond (query ctx (audit_filter since until)) page_answer

    unfoldable pub handle_audit : Handler
    handle_audit =
        run_query (parse_time_param (call.query (text "since")))
          (parse_time_param (call.query (text "until")))

  unfoldable pub handle_me : Session → Handler
  handle_me s =
      let caller = s.context.caller in
      reply (
        json 200 (
          me (record {
            user_id = deps.show_uuid caller.user_id;
            tenant_id = if caller.tenant_id == 0 then [] else deps.show_uuid caller.tenant_id;
            email = s.email;
            name = s.name;
          })))

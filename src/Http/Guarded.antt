-- ===== src/Http/Guarded.antt =====
-- httpapi/router.go: no handler under /api/v1 runs for a request without a credential and its scope.
use mathlib.Core.Bool.{◌&&◌, ◌||◌}
use donkey_work_vault.Base.{
  ℕ, ◌≡◌, ◌⊎◌, Bool, true, false, Text, text, ◌==◌, contains, Result, ok, err,
}
use donkey_work_vault.Audit.Log.{Context, Backend}
use donkey_work_vault.Http.Middleware.{Request, Session, Reply, next, answered, Server}
use donkey_work_vault.Http.Gate.{safe}
use donkey_work_vault.Http.Identity.{ByKey, ByToken}
use donkey_work_vault.Http.SameButUses.{SameButUses}
use donkey_work_vault.Http.Dto.{Answer, write_error}
use donkey_work_vault.Http.Handlers.{Deps, Call}
use donkey_work_vault.Http.Router.{Route, get_audit, method_of, handle}

-- The statuses with which the middleware turns a request away.
abbrev pub is_denial : ℕ → Bool
is_denial n = n == 401 || n == 403 || n == 503

-- Only those are given, and no error.
abbrev denies : Result Reply → Bool
denies (ok (next t)) = true
denies (ok (answered n msg)) = is_denial n
denies (err e) = false

-- What the scope of a route asks of a session.
abbrev pub Admits : Route → Session → Type 0
Admits get_audit t = contains t.scopes (text "vault:audit") ≡ true
Admits route t =
    (contains t.scopes (text "vault:readwrite")
      || (safe (method_of route) && contains t.scopes (text "vault:read")))
    ≡ true

module _ (deps : Deps) (server : Server) where
  -- The request is turned away, and no row but the last uses of the access keys is changed.
  abbrev pub TurnedAway : Answer × Backend → Backend → Type 0
  TurnedAway served b =
      (n : ℕ) × (msg : Text) × (is_denial n ≡ true)
      × (served.0 ≡ write_error n msg)
      × SameButUses served.1.store b.store

  -- The handler of the route answers, for a session that the credential gives and the route admits.
  abbrev pub LetIn : Context → Request → Route → Call → Answer × Backend → Backend → Type 0
  LetIn ctx r route call served b =
      (t : Session) × (c : Backend) × (ByKey deps.sha256 ctx r b t
        ⊎ ByToken deps.sha256 server ctx r t)
      × Admits route t
      × SameButUses c.store b.store
      × (served ≡ handle deps route t call c)

-- ===== src/Http/Limits.antt =====
-- httpapi/limits.go: the rate limiter. The clock is an argument of each hit.
use donkey_work_vault.Base.{
  ℕ, suc, ◌+◌, Bool, true, List, [], ◌∷◌, Option, none, some, Text, text_eq, ltb, leb, length,
  if◌then◌else◌,
}
use donkey_work_vault.Store.Types.{Time}

pub record RateWindow : Type 0 where
  pub start : Time
  pub count : ℕ

-- The map from client IP to window, as an association list.
abbrev pub Windows : Type 0
Windows = List (Text × RateWindow)

pub record IpRateLimiter : Type 0 where
  pub windows : Windows
  pub limit : ℕ
  pub period : ℕ

abbrev pub window_of : Text → Windows → Option RateWindow
window_of ip [] = none
window_of ip ((k, w) ∷ ws) = if text_eq k ip then some w else window_of ip ws

abbrev pub set_window : Text → RateWindow → Windows → Windows
set_window ip v [] = (ip, v) ∷ []
set_window ip v ((k, w) ∷ ws) =
    let rest = set_window ip v ws in if text_eq k ip then (k, v) ∷ ws else (k, w) ∷ rest

-- `now.Sub(w.start) >= l.period`
abbrev pub expired : ℕ → Time → RateWindow → Bool
expired period now w = leb (w.start + period) now

-- The sweep of the expired windows.
abbrev pub sweep : ℕ → Time → Windows → Windows
sweep period now [] = []
sweep period now ((k, w) ∷ ws) =
    let rest = sweep period now ws in if expired period now w then rest else (k, w) ∷ rest

abbrev pub swept : ℕ → Time → Windows → Windows
swept period now ws = if ltb 10000 (length ws) then sweep period now ws else ws

abbrev pub new_window : Time → RateWindow
new_window now = record { start = now; count = 1 }

-- The rest of allow, with the window that was found.
abbrev pub hit : Text → Time → Option RateWindow → IpRateLimiter → Bool × IpRateLimiter
hit ip now none l = (true, record l { windows = set_window ip (new_window now) l.windows })
hit ip now (some w) l =
    if expired l.period now w
    then (true, record l { windows = set_window ip (new_window now) l.windows })
    else (
      leb (suc w.count) l.limit,
      record l { windows = set_window ip (record w { count = suc w.count }) l.windows },
    )

unfoldable pub allow : Text → Time → IpRateLimiter → Bool × IpRateLimiter
allow ip now l =
    let cut = record l { windows = swept l.period now l.windows } in
    hit ip now (window_of ip cut.windows) cut

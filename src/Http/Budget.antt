-- ===== src/Http/Budget.antt =====
-- httpapi/limits.go: how many hits of a window are allowed.
use donkey_work_vault.Base.{
  ℕ, suc, ◌+◌, ◌-◌, ◌≡◌, ◌<◌, ◌⊎◌, refl, ap, ◌∙◌, arith, inl, inr, min, Bool-cases, true, false,
  List, [], ◌∷◌, Option, none, some, Text, text_eq, text_eq_iff, text_eq_refl, leb, All,
  if◌then◌else◌,
}
use donkey_work_vault.Store.Types.{Time}
use donkey_work_vault.Http.Limits.{
  RateWindow, Windows, IpRateLimiter, window_of, set_window, expired, sweep, swept, new_window, hit,
  allow,
}

-- A run of hits, each of an IP at a time: how many of the hits of `ip` were allowed.
unfoldable pub allowed_of : Text → List (Text × Time) → IpRateLimiter → ℕ
allowed_of ip [] l = 0
allowed_of ip ((k, now) ∷ hits) l =
    let (passed, after) = allow k now l in
    let rest = allowed_of ip hits after in
    if text_eq k ip then (if passed then suc rest else rest) else rest

-- How many hits are of `ip`.
abbrev pub hits_of : Text → List (Text × Time) → ℕ
hits_of ip [] = 0
hits_of ip ((k, now) ∷ hits) = let rest = hits_of ip hits in if text_eq k ip then suc rest else rest

window_of-set_window :
    (ip k : Text) (w : RateWindow) (ws : Windows)
    → window_of ip (set_window k w ws) ≡ (if text_eq k ip then some w else window_of ip ws)
window_of-set_window ip k w [] = refl
window_of-set_window ip k w ((j, v) ∷ ws) =
    ground
      (arith, window_of-set_window ip k w ws, text_eq_iff j ip, text_eq_iff j k, text_eq_iff k ip)

window_of-sweep :
    (ip : Text) (w : RateWindow) (period now : ℕ) (ws : Windows)
    → window_of ip ws ≡ some w
    → expired period now w ≡ false
    → window_of ip (sweep period now ws) ≡ some w
window_of-sweep ip w period now [] h e = h
window_of-sweep ip w period now ((k, v) ∷ ws) h e =
    ground (arith, window_of-sweep ip w period now ws, text_eq_iff k ip)

window_of-swept :
    (ip : Text) (w : RateWindow) (period now : ℕ) (ws : Windows)
    → window_of ip ws ≡ some w
    → expired period now w ≡ false
    → window_of ip (swept period now ws) ≡ some w
window_of-swept ip w period now ws h e = ground (arith, window_of-sweep ip w period now ws)

-- What another IP's hit leaves of a window.
other_hit :
    (ip k : Text) (now : ℕ) (o : Option RateWindow) (l : IpRateLimiter)
    → text_eq k ip ≡ false
    → (window_of ip (hit k now o l).1.windows ≡ window_of ip l.windows)
      × ((hit k now o l).1.limit ≡ l.limit)
      × ((hit k now o l).1.period ≡ l.period)
other_hit ip k now none l n =
    (rw (window_of-set_window ip k (new_window now) l.windows, n) refl, refl, refl)
other_hit ip k now (some v) l n = elim (Bool-cases (expired l.period now v)) [
  | inl past ↦ rw (past, window_of-set_window ip k (new_window now) l.windows, n) (refl, refl, refl)
  | inr live ↦
      rw (live, window_of-set_window ip k (record v { count = suc v.count }) l.windows, n)
        (refl, refl, refl)
]

allow_other :
    (ip k : Text) (now : ℕ) (w : RateWindow) (l : IpRateLimiter)
    → text_eq k ip ≡ false
    → window_of ip l.windows ≡ some w
    → expired l.period now w ≡ false
    → (window_of ip (allow k now l).1.windows ≡ some w)
      × ((allow k now l).1.limit ≡ l.limit)
      × ((allow k now l).1.period ≡ l.period)
unfolding allow
allow_other ip k now w l n f e =
    let cut = record l { windows = swept l.period now l.windows } in
    let (same, limit, period) = other_hit ip k now (window_of k cut.windows) cut n in
    (same ∙ window_of-swept ip w l.period now l.windows f e, limit, period)

-- A hit in a window that lasts.
allow_same :
    (ip : Text) (now : ℕ) (w : RateWindow) (l : IpRateLimiter)
    → window_of ip l.windows ≡ some w
    → expired l.period now w ≡ false
    → ((allow ip now l).0 ≡ leb (suc w.count) l.limit)
      × (window_of ip (allow ip now l).1.windows ≡ some (record w { count = suc w.count }))
      × ((allow ip now l).1.limit ≡ l.limit)
      × ((allow ip now l).1.period ≡ l.period)
unfolding allow
allow_same ip now w l f e =
    rw (window_of-swept ip w l.period now l.windows f e, e)
      (
        refl,
        rw
            (
              window_of-set_window ip ip (record w { count = suc w.count })
                  (swept l.period now l.windows),
              text_eq_refl ip,
            )
            refl,
        refl,
        refl,
      )

-- While a window lasts, as many hits of its IP are allowed as are left of the limit.
allowed_of-window :
    (ip : Text) (hits : List (Text × Time)) (w : RateWindow) (l : IpRateLimiter)
    → window_of ip l.windows ≡ some w
    → All (λ (h : Text × Time). h.1 < w.start + l.period) hits
    → allowed_of ip hits l ≡ min (hits_of ip hits) (l.limit - w.count)
unfolding allowed_of
allowed_of-window ip [] w l f h = omega arith
allowed_of-window ip ((k, now) ∷ hits) w l f h = elim (Bool-cases (text_eq k ip)) [
  | inl same ↦
      let same_ip = (text_eq_iff k ip).0 same in
      let (passed, found, limit, period) = allow_same ip now w l f (ground (arith, h.0)) in
      let rest =
        allowed_of-window ip hits (record w { count = suc w.count }) (allow ip now l).1 found
          (rw period h.1) in
      rw same_ip (rw (text_eq_refl ip) (ground (arith, rest, passed, limit)))
  | inr other ↦
      let (found, limit, period) = allow_other ip k now w l other f (ground (arith, h.0)) in
      let rest = allowed_of-window ip hits w (allow k now l).1 found (rw period h.1) in
      rw other (rest ∙ rw limit refl)
]

-- No window of the IP is open at the time.
abbrev pub IsFresh : Text → Time → IpRateLimiter → Type 0
IsFresh ip now l =
    (window_of ip (swept l.period now l.windows) ≡ none)
    ⊎ ((w : RateWindow) × (window_of ip (swept l.period now l.windows) ≡ some w)
        × (expired l.period now w ≡ true))

allow_fresh :
    (ip : Text) (now : ℕ) (l : IpRateLimiter)
    → IsFresh ip now l
    → ((allow ip now l).0 ≡ true)
      × (window_of ip (allow ip now l).1.windows ≡ some (new_window now))
      × ((allow ip now l).1.limit ≡ l.limit)
      × ((allow ip now l).1.period ≡ l.period)
unfolding allow
allow_fresh ip now l (inl absent) =
    rw
      (
        absent,
        window_of-set_window ip ip (new_window now) (swept l.period now l.windows),
        text_eq_refl ip,
      )
      (refl, refl, refl, refl)
allow_fresh ip now l (inr (w, found, past)) =
    rw
      (
        found,
        past,
        window_of-set_window ip ip (new_window now) (swept l.period now l.windows),
        text_eq_refl ip,
      )
      (refl, refl, refl, refl)

-- A hit of an IP that has no open window is allowed and opens one. Of the hits of this IP before the
-- period is over, this one included, the limit's number is allowed, or all of them if they are fewer
-- (and this one even if the limit is 0), whatever other IPs send in between and whether or not the
-- map is swept.
pub allowed_of-fresh :
    (ip : Text) (now : Time) (hits : List (Text × Time)) (l : IpRateLimiter)
    → IsFresh ip now l
    → All (λ (h : Text × Time). h.1 < now + l.period) hits
    → allowed_of ip ((ip, now) ∷ hits) l ≡ suc (min (hits_of ip hits) (l.limit - 1))
unfolding allowed_of
allowed_of-fresh ip now hits l fresh h =
    let (passed, found, limit, period) = allow_fresh ip now l fresh in
    let rest = allowed_of-window ip hits (new_window now) (allow ip now l).1 found (rw period h) in
    rw (text_eq_refl ip, passed) (ap (λ n. suc n) (rest ∙ rw limit refl))

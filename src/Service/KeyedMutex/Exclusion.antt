-- ===== src/Service/KeyedMutex/Exclusion.antt =====
-- service/keyedmutex.go: one holder for a key, no entry for an idle key, and the lock for each key that
-- the mutex is meant to be.
use donkey_work_vault.Base.{
  ℕ, ◌+◌, ◌≡◌, ◌≢◌, ◌↔◌, ◌≤◌, refl, arith, Option-cases, Bool, true, false, List, [], ◌∷◌, ◌++◌,
  none, some, inl, inr, ltb, ◌==◌,
}
use donkey_work_vault.Base.Table.{get}
use donkey_work_vault.Service.KeyedMutex.{
  KeyedMutex, Thread, waiting, holding, releasing, System, Step, enters, acquires, releases, leaves,
  Reach,
}
use donkey_work_vault.Service.KeyedMutex.Counted.{
  tally, tally-append, is_keyed_at, holds_at, one_if, Inv, Reach-Inv, same_key,
}

abbrev pub holds_key : ℕ → Thread → Bool
holds_key key (waiting k i) = false
holds_key key (holding k i) = k == key
holds_key key (releasing k i) = false

abbrev pub uses_key : ℕ → Thread → Bool
uses_key key (waiting k i) = k == key
uses_key key (holding k i) = k == key
uses_key key (releasing k i) = k == key

-- All that use the key are at one address.
holds_key-le :
    (key o : ℕ) (ts : List Thread)
    → ((p : ℕ) → p ≢ o → tally (is_keyed_at key p) ts ≡ 0)
    → tally (holds_key key) ts ≤ tally (holds_at o) ts
holds_key-le key o [] n = omega arith
holds_key-le key o (waiting k i ∷ ts) n =
    ground (arith, holds_key-le key o ts (λ p d. ground (arith, n p d)))
holds_key-le key o (holding k i ∷ ts) n =
    ground (arith, n i, holds_key-le key o ts (λ p d. ground (arith, n p d)))
holds_key-le key o (releasing k i ∷ ts) n =
    ground (arith, holds_key-le key o ts (λ p d. ground (arith, n p d)))

-- All that use the address have one key.
holds_at-le :
    (key o : ℕ) (ts : List Thread)
    → ((j : ℕ) → j ≢ key → tally (is_keyed_at j o) ts ≡ 0)
    → tally (holds_at o) ts ≤ tally (holds_key key) ts
holds_at-le key o [] n = omega arith
holds_at-le key o (waiting k i ∷ ts) n =
    ground (arith, holds_at-le key o ts (λ p d. ground (arith, n p d)))
holds_at-le key o (holding k i ∷ ts) n =
    ground (arith, n k, holds_at-le key o ts (λ p d. ground (arith, n p d)))
holds_at-le key o (releasing k i ∷ ts) n =
    ground (arith, holds_at-le key o ts (λ p d. ground (arith, n p d)))

one_if-le : (b : Bool) → one_if b ≤ 1
one_if-le true = omega arith
one_if-le false = omega arith

module _ {k : KeyedMutex} {ts : List Thread} (h : Inv k ts) where
  elsewhere :
      (key o : ℕ) → get key k.locks ≡ some o → (p : ℕ) → p ≢ o → tally (is_keyed_at key p) ts ≡ 0
  elsewhere key o e p d = ground (arith, h.listed key p)

  others :
      (key o : ℕ) → get key k.locks ≡ some o → (j : ℕ) → j ≢ key → tally (is_keyed_at j o) ts ≡ 0
  others key o e j d = ground (arith, h.listed j o, same_key j key o k ts h)

  one_holder : (key : ℕ) → tally (holds_key key) ts ≤ 1
  one_holder key = elim (Option-cases (get key k.locks)) [
    | inl e ↦ ground (
      arith,
      holds_key-le key k.next ts (λ p d. ground (arith, h.listed key p)),
      h.guarded k.next,
      one_if-le (k.at k.next).held,
    )
    | inr (o, e) ↦
        ground
          (arith, holds_key-le key o ts (elsewhere key o e), h.guarded o, one_if-le (k.at o).held)
  ]

-- In every state that goroutines can reach, in whatever order they go on, a key has one holder at most.
pub mutual_exclusion : {s : System} → Reach s → (key : ℕ) → tally (holds_key key) s.threads ≤ 1
mutual_exclusion r key = one_holder (Reach-Inv r) key

keyed-le_uses :
    (key o : ℕ) (ts : List Thread) → tally (is_keyed_at key o) ts ≤ tally (uses_key key) ts
keyed-le_uses key o [] = omega arith
keyed-le_uses key o (waiting k i ∷ ts) = ground (arith, keyed-le_uses key o ts)
keyed-le_uses key o (holding k i ∷ ts) = ground (arith, keyed-le_uses key o ts)
keyed-le_uses key o (releasing k i ∷ ts) = ground (arith, keyed-le_uses key o ts)

uses-eq_zero :
    (key : ℕ) (ts : List Thread)
    → ((o : ℕ) → tally (is_keyed_at key o) ts ≡ 0)
    → tally (uses_key key) ts ≡ 0
uses-eq_zero key [] n = refl
uses-eq_zero key (waiting k i ∷ ts) n =
    ground (arith, n i, uses-eq_zero key ts (λ o. ground (arith, n o)))
uses-eq_zero key (holding k i ∷ ts) n =
    ground (arith, n i, uses-eq_zero key ts (λ o. ground (arith, n o)))
uses-eq_zero key (releasing k i ∷ ts) n =
    ground (arith, n i, uses-eq_zero key ts (λ o. ground (arith, n o)))

-- In every reachable state the map has an entry for exactly the keys that some goroutine uses, from the
-- start of its lock to the end of its unlock: an idle key leaves nothing behind.
pub idle_iff :
    {s : System}
    → Reach s
    → (key : ℕ) → (get key s.mutex.locks ≡ none) ↔ (tally (uses_key key) s.threads ≡ 0)
idle_iff {s} r key = (
  (λ e. uses-eq_zero key s.threads (λ o. ground (arith, (Reach-Inv r).listed key o, e))),
  (λ z. elim (Option-cases (get key s.mutex.locks)) [
    | inl e ↦ e
    | inr (o, e) ↦ ground (arith, (Reach-Inv r).used key o e, keyed-le_uses key o s.threads)
  ]),
)

-- A lock for each key: what a step may do to the set of the locked keys.
pub data Act (f g : ℕ → Bool) : Type 0 where
  stutter : ((j : ℕ) → g j ≡ f j) → Act f g
  take : (key : ℕ) → f key ≡ false → g key ≡ true → ((j : ℕ) → j ≢ key → g j ≡ f j) → Act f g
  give : (key : ℕ) → f key ≡ true → g key ≡ false → ((j : ℕ) → j ≢ key → g j ≡ f j) → Act f g

abbrev pub locked : System → ℕ → Bool
locked s key = ltb 0 (tally (holds_key key) s.threads)

swap :
    (front back : List Thread) (t u : Thread) (key : ℕ)
    → tally (holds_key key) (front ++ u ∷ back) + one_if (holds_key key t)
      ≡ tally (holds_key key) (front ++ t ∷ back) + one_if (holds_key key u)
swap front back t u key = ground (
  arith,
  tally-append (holds_key key) front (t ∷ back),
  tally-append (holds_key key) front (u ∷ back),
)

-- The address that a waiting goroutine was given is that of its key's mutex.
listed_waiting :
    (key o : ℕ) (k : KeyedMutex) (front back : List Thread)
    → Inv k (front ++ waiting key o ∷ back)
    → get key k.locks ≡ some o
listed_waiting key o k front back h =
    h.listed key o (ground (arith, tally-append (is_keyed_at key o) front (waiting key o ∷ back)))

-- A mutex that is not locked is held by no goroutine, and one of a key without holder is not locked.
unheld_iff :
    (key o : ℕ) (k : KeyedMutex) (ts : List Thread)
    → Inv k ts
    → get key k.locks ≡ some o
    → ((k.at o).held ≡ false) ↔ (tally (holds_key key) ts ≡ 0)
unheld_iff key o k ts h e = (
  (λ free. ground (arith, free, h.guarded o, holds_key-le key o ts (elsewhere h key o e))),
  (λ z. ground (arith, z, h.guarded o, holds_at-le key o ts (others h key o e))),
)

-- Each step of the goroutines, from a reachable state, is a step of the locks for each key: it takes a
-- lock that was free, gives back one that was taken, or changes no lock.
pub Step-Act : {s t : System} → Reach s → Step s t → Act (locked s) (locked t)
Step-Act {s} r (enters key) = stutter (λ j. ground arith)
Step-Act {s} r (acquires front back key o e free) =
    take key (ground (arith, e, none_before))
      (ground (arith, swap front back (waiting key o) (holding key o) key))
      (λ j d. ground (arith, e, swap front back (waiting key o) (holding key o) j))
  where
    inv : Inv s.mutex (front ++ waiting key o ∷ back)
    inv = rw e at (Reach-Inv r)

    none_before : tally (holds_key key) (front ++ waiting key o ∷ back) ≡ 0
    none_before =
        (unheld_iff key o s.mutex (front ++ waiting key o ∷ back) inv
            (listed_waiting key o s.mutex front back inv)).0
          free
Step-Act {s} r (releases front back key o e) =
    give key (ground (arith, e, before))
      (ground (
        arith,
        before,
        one_holder (Reach-Inv r) key,
        e,
        swap front back (holding key o) (releasing key o) key,
      ))
      (λ j d. ground (arith, e, swap front back (holding key o) (releasing key o) j))
  where
    before : 1 ≤ tally (holds_key key) (front ++ holding key o ∷ back)
    before = ground (arith, tally-append (holds_key key) front (holding key o ∷ back))
Step-Act {s} r (leaves front back key o e) = stutter (λ j. ground (
  arith,
  e,
  tally-append (holds_key j) front (releasing key o ∷ back),
  tally-append (holds_key j) front back,
))

-- In every reachable state in which a goroutine waits for a key that no goroutine holds, the goroutine
-- can go on at once, and then holds the key.
pub waiting_goes_on :
    {s : System}
    → Reach s
    → (front back : List Thread) (key o : ℕ) → s.threads ≡ front ++ waiting key o ∷ back
    → tally (holds_key key) s.threads ≡ 0
    → (t : System) × Step s t × (t.threads ≡ front ++ holding key o ∷ back)
waiting_goes_on {s} r front back key o e z = (_, acquires front back key o e free, refl)
  where
    inv : Inv s.mutex (front ++ waiting key o ∷ back)
    inv = rw e at (Reach-Inv r)

    free : (s.mutex.at o).held ≡ false
    free =
        (unheld_iff key o s.mutex (front ++ waiting key o ∷ back) inv
            (listed_waiting key o s.mutex front back inv)).1
          (rw e at z)

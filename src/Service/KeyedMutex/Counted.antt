-- ===== src/Service/KeyedMutex/Counted.antt =====
-- service/keyedmutex.go: the invariant of the goroutines and the map.
use mathlib.Core.Bool.{◌&&◌}
use donkey_work_vault.Base.{
  ℕ, ◌+◌, ◌-◌, ◌≡◌, ◌≢◌, ◌≤◌, ◌<◌, refl, arith, Bool-cases, Option-cases, inl, inr, Bool, true,
  false, List, [], ◌∷◌, ◌++◌, some, ◌==◌, if◌then◌else◌,
}
use donkey_work_vault.Base.Table.{get, get-put, get-remove}
use donkey_work_vault.Service.KeyedMutex.{
  KeyedMutex, enter, set_held, leave, Thread, waiting, holding, releasing, System, Step, enters,
  acquires, releases, leaves, Reach, initially, later, new_keyed_mutex,
}

-- How many of the goroutines pass a test.
abbrev pub tally : (Thread → Bool) → List Thread → ℕ
tally p [] = 0
tally p (t ∷ ts) = (if p t then 1 else 0) + tally p ts

pub tally-append :
    (p : Thread → Bool) (ts us : List Thread) → tally p (ts ++ us) ≡ tally p ts + tally p us
tally-append p [] us = omega arith
tally-append p (t ∷ ts) us = omega (arith, tally-append p ts us)

-- The goroutine uses this address, with this key, and holds it.
abbrev pub is_at : ℕ → Thread → Bool
is_at o (waiting k i) = i == o
is_at o (holding k i) = i == o
is_at o (releasing k i) = i == o

abbrev pub is_keyed_at : ℕ → ℕ → Thread → Bool
is_keyed_at key o (waiting k i) = (k == key) && (i == o)
is_keyed_at key o (holding k i) = (k == key) && (i == o)
is_keyed_at key o (releasing k i) = (k == key) && (i == o)

abbrev pub holds_at : ℕ → Thread → Bool
holds_at o (waiting k i) = false
holds_at o (holding k i) = i == o
holds_at o (releasing k i) = false

abbrev pub one_if : Bool → ℕ
one_if true = 1
one_if false = 0

pub record Inv (k : KeyedMutex) (ts : List Thread) : Type 0 where
  pub counted : (o : ℕ) → (k.at o).refs ≡ tally (is_at o) ts
  pub guarded : (o : ℕ) → tally (holds_at o) ts ≡ one_if (k.at o).held
  pub listed : (key o : ℕ) → 1 ≤ tally (is_keyed_at key o) ts → get key k.locks ≡ some o
  pub used : (key o : ℕ) → get key k.locks ≡ some o → 1 ≤ tally (is_keyed_at key o) ts
  pub alone :
      (key o : ℕ) → get key k.locks ≡ some o → tally (is_keyed_at key o) ts ≡ tally (is_at o) ts
  pub below : (key o : ℕ) → get key k.locks ≡ some o → o < k.next
  pub free : (o : ℕ) → k.next ≤ o → (tally (is_at o) ts ≡ 0) × ((k.at o).held ≡ false)

Inv-start : Inv new_keyed_mutex []
unfolding get
Inv-start = record {
  counted = λ o. refl;
  guarded = λ o. refl;
  listed = λ key o h. absurd (omega arith);
  used = λ key o h. cc;
  alone = λ key o h. cc;
  below = λ key o h. cc;
  free = λ o h. (refl, refl);
}

-- The goroutines before and after, at each test.
module _ (front back : List Thread) (t u : Thread) where
  changed :
      (p : Thread → Bool)
      → tally p (front ++ u ∷ back) + one_if (p t) ≡ tally p (front ++ t ∷ back) + one_if (p u)
  changed p = ground (arith, tally-append p front (t ∷ back), tally-append p front (u ∷ back))

removed :
    (front back : List Thread) (t : Thread) (p : Thread → Bool)
    → tally p (front ++ back) + one_if (p t) ≡ tally p (front ++ t ∷ back)
removed front back t p = ground (arith, tally-append p front (t ∷ back), tally-append p front back)

keyed-le : (key o : ℕ) (ts : List Thread) → tally (is_keyed_at key o) ts ≤ tally (is_at o) ts
keyed-le key o [] = omega arith
keyed-le key o (waiting k i ∷ ts) = ground (arith, keyed-le key o ts)
keyed-le key o (holding k i ∷ ts) = ground (arith, keyed-le key o ts)
keyed-le key o (releasing k i ∷ ts) = ground (arith, keyed-le key o ts)

holds-le : (o : ℕ) (ts : List Thread) → tally (holds_at o) ts ≤ tally (is_at o) ts
holds-le o [] = omega arith
holds-le o (waiting k i ∷ ts) = ground (arith, holds-le o ts)
holds-le o (holding k i ∷ ts) = ground (arith, holds-le o ts)
holds-le o (releasing k i ∷ ts) = ground (arith, holds-le o ts)

keyed-add-le :
    (j key o : ℕ) (ts : List Thread)
    → j ≢ key
    → tally (is_keyed_at j o) ts + tally (is_keyed_at key o) ts ≤ tally (is_at o) ts
keyed-add-le j key o [] n = omega arith
keyed-add-le j key o (waiting k i ∷ ts) n = ground (arith, keyed-add-le j key o ts n)
keyed-add-le j key o (holding k i ∷ ts) n = ground (arith, keyed-add-le j key o ts n)
keyed-add-le j key o (releasing k i ∷ ts) n = ground (arith, keyed-add-le j key o ts n)

-- No two keys share a mutex.
pub same_key :
    (j key o : ℕ) (k : KeyedMutex) (ts : List Thread)
    → Inv k ts
    → get j k.locks ≡ some o
    → get key k.locks ≡ some o
    → (j == key) ≡ true
same_key j key o k ts h e f =
    ground (arith, h.alone j o e, h.alone key o f, h.used j o e, keyed-add-le j key o ts)

enters-Inv :
    (key : ℕ) (k : KeyedMutex) (ts : List Thread)
    → Inv k ts
    → Inv (enter key k).1 (waiting key (enter key k).0 ∷ ts)
unfolding enter
enters-Inv key k ts h = elim (Option-cases (get key k.locks)) [
  | inl new ↦ rw new (record {
    counted = λ o. ground (arith, h.counted o, h.free o);
    guarded = λ o. ground (arith, h.guarded o, h.free o, holds-le o ts);
    listed = λ j o q. ground (arith, h.listed j o, get-put key j k.next k.locks);
    used = λ j o q. ground (arith, h.used j o, get-put key j k.next k.locks);
    alone = λ j o q.
        ground (
          arith,
          h.alone j o,
          h.below j o,
          h.free o,
          keyed-le j o ts,
          get-put key j k.next k.locks,
        );
    below = λ j o q. ground (arith, h.below j o, get-put key j k.next k.locks);
    free = λ o q. ground (arith, h.free o);
  })
  | inr (i, old) ↦ rw old (record {
    counted = λ o. ground (arith, h.counted o);
    guarded = λ o. ground (arith, h.guarded o);
    listed = λ j o q. ground (arith, h.listed j o, old);
    used = λ j o q. ground (arith, h.used j o);
    alone = λ j o q. ground (arith, h.alone j o, old, same_key j key o k ts h q);
    below = λ j o q. h.below j o q;
    free = λ o q. ground (arith, h.free o, h.below key i old);
  })
]

set_held-Inv :
    (b : Bool) (o : ℕ) (k : KeyedMutex) (front back : List Thread) (t u : Thread)
    → ((p : ℕ) → is_at p u ≡ is_at p t)
    → ((j p : ℕ) → is_keyed_at j p u ≡ is_keyed_at j p t)
    → ((p : ℕ)
        → (o ≡ p → one_if (holds_at p u) + one_if (k.at o).held ≡ one_if (holds_at p t) + one_if b)
          × (o ≢ p → holds_at p u ≡ holds_at p t))
    → is_at o t ≡ true
    → Inv k (front ++ t ∷ back)
    → Inv (set_held o b k) (front ++ u ∷ back)
unfolding set_held
set_held-Inv b o k front back t u at keyed holds here h = record {
  counted = λ p. ground (arith, h.counted p, at p, changed front back t u (is_at p));
  guarded = λ p. ground (arith, h.guarded p, holds p, changed front back t u (holds_at p));
  listed =
      λ j p q. ground (arith, h.listed j p, keyed j p, changed front back t u (is_keyed_at j p));
  used = λ j p q. ground (arith, h.used j p, keyed j p, changed front back t u (is_keyed_at j p));
  alone = λ j p q. ground (
    arith,
    h.alone j p,
    keyed j p,
    at p,
    changed front back t u (is_keyed_at j p),
    changed front back t u (is_at p),
  );
  below = λ j p q. h.below j p q;
  free = λ p q. ground (
    arith,
    h.free p,
    at p,
    here,
    changed front back t u (is_at p),
    tally-append (is_at p) front (t ∷ back),
  );
}

-- A goroutine that holds a mutex keeps it locked.
pub held_of_holding :
    (key o : ℕ) (k : KeyedMutex) (front back : List Thread)
    → Inv k (front ++ holding key o ∷ back)
    → (k.at o).held ≡ true
held_of_holding key o k front back h =
    ground (arith, h.guarded o, tally-append (holds_at o) front (holding key o ∷ back))

leaves-Inv :
    (key o : ℕ) (k : KeyedMutex) (front back : List Thread)
    → Inv k (front ++ releasing key o ∷ back)
    → Inv (leave key o k) (front ++ back)
unfolding leave
leaves-Inv key o k front back h = elim (Bool-cases (((k.at o).refs - 1) == 0)) [
  | inl last ↦ rw last (record {
    counted = λ p. ground (arith, h.counted p, less (is_at p));
    guarded = λ p. ground (arith, h.guarded p, less (holds_at p));
    listed = λ j p q. ground (
      arith,
      h.listed j p,
      mine,
      last,
      h.counted o,
      less (is_keyed_at j p),
      less (is_at o),
      keyed-le j o (front ++ back),
      get-remove key j k.locks,
    );
    used =
        λ j p q. ground (arith, h.used j p, mine, less (is_keyed_at j p), get-remove key j k.locks);
    alone = λ j p q. ground (
      arith,
      h.alone j p,
      less (is_keyed_at j p),
      less (is_at p),
      get-remove key j k.locks,
      mine,
      same_key j key o k (front ++ releasing key o ∷ back) h,
    );
    below = λ j p q. ground (arith, h.below j p, get-remove key j k.locks);
    free = λ p q. ground (arith, h.free p, h.below key o mine, less (is_at p));
  })
  | inr more ↦ rw more (record {
    counted = λ p. ground (arith, h.counted p, less (is_at p));
    guarded = λ p. ground (arith, h.guarded p, less (holds_at p));
    listed = λ j p q. ground (arith, h.listed j p, less (is_keyed_at j p));
    used = λ j p q. ground (
      arith,
      h.used j p q,
      h.alone j p q,
      mine,
      more,
      h.counted o,
      less (is_keyed_at j p),
      less (is_at p),
    );
    alone = λ j p q. ground (
      arith,
      h.alone j p q,
      less (is_keyed_at j p),
      less (is_at p),
      mine,
      same_key j key o k (front ++ releasing key o ∷ back) h,
    );
    below = λ j p q. h.below j p q;
    free = λ p q. ground (arith, h.free p, h.below key o mine, less (is_at p));
  })
]
  where
    less :
        (p : Thread → Bool)
        → tally p (front ++ back) + one_if (p (releasing key o))
          ≡ tally p (front ++ releasing key o ∷ back)
    less p = removed front back (releasing key o) p

    mine : get key k.locks ≡ some o
    mine =
        h.listed key o
          (ground (arith, tally-append (is_keyed_at key o) front (releasing key o ∷ back)))

Step-Inv : {s t : System} → Step s t → Inv s.mutex s.threads → Inv t.mutex t.threads
Step-Inv {s} (enters key) h = enters-Inv key s.mutex s.threads h
Step-Inv {s} (acquires front back key o e free) h =
    set_held-Inv true o s.mutex front back (waiting key o) (holding key o) (λ p. refl) (λ j p. refl)
      (λ p. ground (arith, free)) (ground arith) (rw e at h)
Step-Inv {s} (releases front back key o e) h =
    set_held-Inv false o s.mutex front back (holding key o) (releasing key o) (λ p. refl)
      (λ j p. refl) (λ p. ground (arith, held_of_holding key o s.mutex front back (rw e at h)))
      (ground arith) (rw e at h)
Step-Inv {s} (leaves front back key o e) h = leaves-Inv key o s.mutex front back (rw e at h)

pub Reach-Inv : {s : System} → Reach s → Inv s.mutex s.threads
Reach-Inv initially = Inv-start
Reach-Inv (later r step) = Step-Inv step (Reach-Inv r)

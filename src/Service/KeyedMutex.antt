-- ===== src/Service/KeyedMutex.antt =====
-- service/keyedmutex.go: a mutex for each key, counted and dropped when idle, and the goroutines that
-- use it. Each step is one that no other goroutine can divide: the two critical sections of the
-- map's mutex, and the lock and unlock of a key's mutex.
mod Counted
mod Tests
pub mod Exclusion
use donkey_work_vault.Base.{
  ℕ, suc, ◌-◌, ◌≡◌, Bool, true, false, List, ◌∷◌, [], ◌++◌, Option, none, some, ◌==◌, if◌then◌else◌,
}
use donkey_work_vault.Base.Table.{Table, get, put, remove}

pub record RefCountedMutex : Type 0 where
  pub held : Bool
  pub refs : ℕ

-- The map gives the address of a key's mutex; the addresses from `next` on are free.
pub record KeyedMutex : Type 0 where
  pub locks : Table ℕ
  pub at : ℕ → RefCountedMutex
  pub next : ℕ

abbrev pub store_at : ℕ → RefCountedMutex → (ℕ → RefCountedMutex) → ℕ → RefCountedMutex
store_at o m heap i = if i == o then m else heap i

abbrev pub new_keyed_mutex : KeyedMutex
new_keyed_mutex = record { locks = []; at = λ i. record { held = false; refs = 0 }; next = 0 }

-- The first critical section of lock: the address of the mutex, created where there is none.
abbrev pub enter_at : ℕ → Option ℕ → KeyedMutex → ℕ × KeyedMutex
enter_at key none k = (
  k.next,
  record {
    locks = put key k.next k.locks;
    at = store_at k.next (record { held = false; refs = 1 }) k.at;
    next = suc k.next;
  },
)
enter_at key (some o) k =
    (o, record k { at = store_at o (record (k.at o) { refs = suc (k.at o).refs }) k.at })

unfoldable pub enter : ℕ → KeyedMutex → ℕ × KeyedMutex
enter key k = enter_at key (get key k.locks) k

-- m.mu.Lock and m.mu.Unlock
unfoldable pub set_held : ℕ → Bool → KeyedMutex → KeyedMutex
set_held o held k = record k { at = store_at o (record (k.at o) { held = held }) k.at }

-- The last critical section of unlock.
unfoldable pub leave : ℕ → ℕ → KeyedMutex → KeyedMutex
leave key o k =
    let refs = (k.at o).refs - 1 in
    record k {
      at = store_at o (record (k.at o) { refs = refs }) k.at;
      locks = if refs == 0 then remove key k.locks else k.locks;
    }

-- A goroutine between the start of lock and the end of unlock, with the key and the address.
pub data Thread : Type 0 where
  waiting holding releasing : (key o : ℕ) → Thread

pub record System : Type 0 where
  pub mutex : KeyedMutex
  pub threads : List Thread

pub data Step (s : System) : System → Type 0 where
  enters :
      (key : ℕ)
      → Step s (record {
        mutex = (enter key s.mutex).1;
        threads = waiting key (enter key s.mutex).0 ∷ s.threads;
      })
  acquires :
      (front back : List Thread) (key o : ℕ)
      → s.threads ≡ front ++ waiting key o ∷ back
      → (s.mutex.at o).held ≡ false
      → Step s (record { mutex = set_held o true s.mutex; threads = front ++ holding key o ∷ back })
  releases :
      (front back : List Thread) (key o : ℕ)
      → s.threads ≡ front ++ holding key o ∷ back
      → Step s
          (record { mutex = set_held o false s.mutex; threads = front ++ releasing key o ∷ back })
  leaves :
      (front back : List Thread) (key o : ℕ)
      → s.threads ≡ front ++ releasing key o ∷ back
      → Step s (record { mutex = leave key o s.mutex; threads = front ++ back })

abbrev pub start : System
start = record { mutex = new_keyed_mutex; threads = [] }

pub data Reach : System → Type 0 where
  initially : Reach start
  later : {s t : System} → Reach s → Step s t → Reach t

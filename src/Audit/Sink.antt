-- ===== src/Audit/Sink.antt =====
-- audit/log.go: the sink keeps its bound and its order, whoever uses it and in whatever order.
use donkey_work_vault.Base.{
  ℕ, suc, ◌+◌, ◌≡◌, ◌≤◌, ◌++◌, refl, ap, ◌∙◌, sym, arith, inl, inr, Bool, Bool-cases, false, List,
  [], ◌∷◌, Option, none, some, ltb, length, length-append, if◌then◌else◌,
}
use donkey_work_vault.Base.Integers.{ℤ}
use donkey_work_vault.Audit.Types.{Event}
use donkey_work_vault.Audit.Log.{Log, new_log, enqueue, complete, receive, next_of}

-- What goroutines may do with the sink.
pub data Action : Type 0 where
  send : Event → Action
  take_one stop : Action

-- The sink with its past: the events that were sent while it was open, with their number, those
-- that it accepted and those that the writer received, in order.
pub record History : Type 0 where
  pub log : Log
  pub sent : ℕ
  pub accepted : List Event
  pub received : List Event

abbrev pub heard : Option Event → List Event
heard none = []
heard (some e) = e ∷ []

-- The event was put in the buffer.
abbrev pub accepts : Log → Bool
accepts l = if l.closed then false else ltb (length l.queue) l.capacity

unfoldable pub act : Action → History → History
act (send e) h = record {
  log = enqueue e h.log;
  sent = if h.log.closed then h.sent else suc h.sent;
  accepted = if accepts h.log then h.accepted ++ e ∷ [] else h.accepted;
  received = h.received;
}
act take_one h = record {
  log = (receive h.log).1;
  sent = h.sent;
  accepted = h.accepted;
  received = h.received ++ heard (receive h.log).0;
}
act stop h = record h { log = complete h.log }

unfoldable pub act_all : List Action → History → History
act_all [] h = h
act_all (a ∷ rest) h = act_all rest (act a h)

abbrev pub begun : ℤ → History
begun capacity = record { log = new_log capacity; sent = 0; accepted = []; received = [] }

-- The buffer is within its capacity; what was received and what waits are what was accepted, in
-- order; and each event that was sent was accepted or counted as dropped.
pub record IsSound (h : History) : Type 0 where
  pub bounded : length h.log.queue ≤ h.log.capacity
  pub in_order : h.received ++ h.log.queue ≡ h.accepted
  pub counted : length h.accepted + h.log.dropped ≡ h.sent

append-nil : {A : Type 0} (xs : List A) → xs ++ [] ≡ xs
append-nil [] = refl
append-nil (x ∷ xs) = ap (λ t. x ∷ t) (append-nil xs)

append_assoc : {A : Type 0} (xs ys zs : List A) → (xs ++ ys) ++ zs ≡ xs ++ (ys ++ zs)
append_assoc [] ys zs = refl
append_assoc (x ∷ xs) ys zs = ap (λ t. x ∷ t) (append_assoc xs ys zs)

act-IsSound : (a : Action) (h : History) → IsSound h → IsSound (act a h)
unfolding act enqueue receive complete
act-IsSound (send e) h s = elim (Bool-cases h.log.closed) [
  | inl closed ↦ simp closed s
  | inr opened ↦ elim (Bool-cases (ltb (length h.log.queue) h.log.capacity)) [
    | inl room ↦
        simp (opened, room)
          (record {
            bounded = ground (arith, length-append h.log.queue (e ∷ []));
            in_order =
                sym (append_assoc h.received h.log.queue (e ∷ []))
                ∙ ap (λ t. t ++ e ∷ []) s.in_order;
            counted = omega (arith, s.counted, length-append h.accepted (e ∷ []));
          })
    | inr full ↦
        simp (opened, full)
          (record {
            bounded = s.bounded;
            in_order = s.in_order;
            counted = omega (arith, s.counted);
          })
  ]
]
act-IsSound take_one h s = go h.log.queue refl
  where
    go :
        (q : List Event)
        → h.log.queue ≡ q
        → IsSound (record h {
          log = (next_of q h.log).1;
          received = h.received ++ heard (next_of q h.log).0;
        })
    go [] e = record {
      bounded = s.bounded;
      in_order = ap (λ t. t ++ h.log.queue) (append-nil h.received) ∙ s.in_order;
      counted = s.counted;
    }
    go (x ∷ q) e = record {
      bounded = ground (arith, e, s.bounded);
      in_order =
          append_assoc h.received (x ∷ []) q ∙ ap (λ t. h.received ++ t) (sym e) ∙ s.in_order;
      counted = s.counted;
    }
act-IsSound stop h s = elim (Bool-cases h.log.closed) [
  | inl closed ↦ simp closed s
  | inr opened ↦
      simp opened (record { bounded = s.bounded; in_order = s.in_order; counted = s.counted })
]

act_all-IsSound_from : (rest : List Action) (h : History) → IsSound h → IsSound (act_all rest h)
unfolding act_all
act_all-IsSound_from [] h s = s
act_all-IsSound_from (a ∷ rest) h s = act_all-IsSound_from rest (act a h) (act-IsSound a h s)

-- Whatever requests send, the writer receives, or shutdown closes, from a new sink on: the buffer
-- never holds more than its capacity; the events received and those waiting
-- are the accepted ones in the order in which they were sent; and every event that was sent before
-- the close was accepted or counted as dropped.
pub act_all-IsSound :
    (capacity : ℤ) (actions : List Action) → IsSound (act_all actions (begun capacity))
unfolding new_log
act_all-IsSound capacity actions =
    act_all-IsSound_from actions (begun capacity)
      (record { bounded = omega arith; in_order = refl; counted = refl })

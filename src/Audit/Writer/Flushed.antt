-- ===== src/Audit/Writer/Flushed.antt =====
-- audit/writer.go: what a flush and a turn of the loop do with the events.
use mathlib.Core.List.{append_assoc, append-nil, map-append}
use donkey_work_vault.Base.{
  ℕ, ◌≡◌, ◌<◌, ◌∙◌, ◌⊎◌, ◌&&◌, refl, sym, ap, arith, inl, inr, Bool, Bool-cases, true, false, List,
  [], ◌∷◌, ◌++◌, map, none, leb, length, all, if◌then◌else◌,
}
use donkey_work_vault.Store.Types.{AuditEntry}
use donkey_work_vault.Store.Mem.{Mem}
use donkey_work_vault.Store.Mem.Audit.{assign_ids}
use donkey_work_vault.Audit.Types.{Event}
use donkey_work_vault.Audit.Writer.{Fate, stored, Attempts, to_entry}
use donkey_work_vault.Audit.Writer.Run.{
  Choice, got, shut, tick, cancelled, Round, Writing, flush_batch, turn_with,
}
use donkey_work_vault.Audit.Persisted.{is_stored, persist-cases}

-- A row without the id that the store has drawn for it.
abbrev pub clear : AuditEntry → AuditEntry
clear e = record e { id = 0 }

clear-assign_ids :
    (es : List AuditEntry) (ids : List ℕ) → map clear (assign_ids ids es) ≡ map clear es
unfolding assign_ids
clear-assign_ids [] ids = refl
clear-assign_ids (e ∷ es) [] = ap (λ t. clear e ∷ t) (clear-assign_ids es [])
clear-assign_ids (e ∷ es) (i ∷ ids) = ap (λ t. clear e ∷ t) (clear-assign_ids es _)

clear-to_entry : (es : List Event) → map clear (map to_entry es) ≡ map to_entry es
clear-to_entry [] = refl
clear-to_entry (e ∷ es) = ap (λ t. to_entry e ∷ t) (clear-to_entry es)

-- The events of the batches.
abbrev pub events_of : List (Fate × List Event) → List Event
events_of [] = []
events_of ((f, es) ∷ batches) = es ++ events_of batches

-- Those of the batches that were stored.
abbrev pub stored_of : List (Fate × List Event) → List Event
stored_of [] = []
stored_of ((f, es) ∷ batches) =
    let rest = stored_of batches in if is_stored f then es ++ rest else rest

abbrev pub all_stored : List (Fate × List Event) → Bool
all_stored batches = all (λ (b : Fate × List Event). is_stored b.0) batches

events_of-append :
    (xs : List (Fate × List Event)) (f : Fate) (es : List Event)
    → events_of (xs ++ (f, es) ∷ []) ≡ events_of xs ++ es
events_of-append [] f es = append-nil es
events_of-append ((g, ds) ∷ xs) f es =
    ap (λ t. ds ++ t) (events_of-append xs f es) ∙ sym (append_assoc ds (events_of xs) es)

stored_of-append :
    (xs : List (Fate × List Event)) (f : Fate) (es : List Event)
    → stored_of (xs ++ (f, es) ∷ []) ≡ stored_of xs ++ (if is_stored f then es else [])
stored_of-append [] f es = elim (Bool-cases (is_stored f)) [
  | inl kept ↦ rw kept (append-nil es)
  | inr lost ↦ rw lost refl
]
stored_of-append ((g, ds) ∷ xs) f es = elim (Bool-cases (is_stored g)) [
  | inl kept ↦
      rw kept
        (ap (λ t. ds ++ t) (stored_of-append xs f es) ∙ sym (append_assoc ds (stored_of xs) _))
  | inr lost ↦ rw lost (stored_of-append xs f es)
]

all_stored-append :
    (xs : List (Fate × List Event)) (f : Fate) (es : List Event)
    → is_stored f ≡ true
    → all_stored (xs ++ (f, es) ∷ []) ≡ all_stored xs
all_stored-append [] f es h = ground (arith, h)
all_stored-append ((g, ds) ∷ xs) f es h = ap (λ t. is_stored g && t) (all_stored-append xs f es h)

-- The store without its trail and the failure that a test has asked for.
abbrev pub others : Mem → Mem
others m = record m { audit = []; fail_next = none }

-- The trail has got the events of the stored batches, in order, and nothing else has changed.
pub record Records (m : Mem) (s : Writing) : Type 0 where
  pub trail : map clear s.store.audit ≡ map clear m.audit ++ map to_entry (stored_of s.flushed)
  pub same : others s.store ≡ others m

-- If the first attempt fails, the context lives and the wait runs to its end.
abbrev pub is_patient : Attempts → Bool
is_patient w = w.alive 3 && w.waited 3

-- What a flush of the batch does.
pub record Flushes (w : Attempts) (m : Mem) (es : List Event) (s t : Writing) : Type 0 where
  pub records : Records m t
  pub in_order : events_of t.flushed ++ t.batch ≡ events_of s.flushed ++ es
  pub complete : (is_patient w ≡ false) ⊎ (all_stored t.flushed ≡ all_stored s.flushed)

stored-trail :
    (ids : List ℕ) (m : Mem) (es : List Event) (s : Writing)
    → Records m s
    → map clear (s.store.audit ++ assign_ids ids (map to_entry es))
      ≡ map clear m.audit ++ map to_entry (stored_of (s.flushed ++ (stored, es) ∷ []))
stored-trail ids m es s h =
    map-append clear s.store.audit (assign_ids ids (map to_entry es))
    ∙ ap (λ t. map clear s.store.audit ++ t)
        (clear-assign_ids (map to_entry es) ids ∙ clear-to_entry es)
    ∙ ap (λ t. t ++ map to_entry es) h.trail
    ∙ append_assoc (map clear m.audit) (map to_entry (stored_of s.flushed)) (map to_entry es)
    ∙ ap (λ t. map clear m.audit ++ t) (sym (map-append to_entry (stored_of s.flushed) es))
    ∙ ap (λ t. map clear m.audit ++ map to_entry t) (sym (stored_of-append s.flushed stored es))

stored_of-lost :
    (xs : List (Fate × List Event)) (f : Fate) (es : List Event)
    → is_stored f ≡ false
    → stored_of (xs ++ (f, es) ∷ []) ≡ stored_of xs
stored_of-lost xs f es lost = stored_of-append xs f es ∙ rw (lost, append-nil (stored_of xs)) refl

flush_batch-Flushes :
    (w : Attempts) (m : Mem) (returned : Bool) (es : List Event) (s : Writing)
    → Records m s
    → Flushes w m es s (flush_batch w returned es s)
unfolding flush_batch
flush_batch-Flushes w m returned [] s h = record {
  records = record { trail = h.trail; same = h.same };
  in_order = refl;
  complete = inr refl;
}
flush_batch-Flushes w m returned (e ∷ es) s h = elim (persist-cases w (e ∷ es) s.store) [
  | inl (ids, p) ↦ rw p (record {
    records = record { trail = stored-trail ids m (e ∷ es) s h; same = h.same };
    in_order = append-nil _ ∙ events_of-append s.flushed stored (e ∷ es);
    complete = inr (all_stored-append s.flushed stored (e ∷ es) refl);
  })
  | inr (f, lost, p, impatient) ↦ rw p (record {
    records = record {
      trail =
          h.trail
          ∙ ap (λ t. map clear m.audit ++ map to_entry t)
              (sym (stored_of-lost s.flushed f (e ∷ es) lost));
      same = h.same;
    };
    in_order = append-nil _ ∙ events_of-append s.flushed f (e ∷ es);
    complete = inl impatient;
  })
]

-- The events that a choice receives, and whether Run returns at it.
abbrev pub heard : Choice → List Event
heard (got e) = e ∷ []
heard (cancelled es) = es
heard c = []

abbrev pub ends : Choice → Bool
ends shut = true
ends (cancelled es) = true
ends c = false

-- The attempts of a round: under the fresh context if Run returns, else under its own.
abbrev pub attempts_of : Round → Choice → Attempts
attempts_of r c = if ends c then r.draining else r.running

pub turn_with-Flushes :
    (size : ℕ) (r : Round) (c : Choice) (m : Mem) (s : Writing)
    → Records m s
    → Flushes (attempts_of r c) m (s.batch ++ heard c) s (turn_with size r c s)
unfolding turn_with
turn_with-Flushes size r (got e) m s h = elim (Bool-cases (leb size (length (s.batch ++ e ∷ [])))) [
  | inl full ↦ rw full (flush_batch-Flushes r.running m false (s.batch ++ e ∷ []) s h)
  | inr more ↦ rw more (record {
    records = record { trail = h.trail; same = h.same };
    in_order = refl;
    complete = inr refl;
  })
]
turn_with-Flushes size r shut m s h =
    rw (append-nil s.batch) (flush_batch-Flushes r.draining m true s.batch s h)
turn_with-Flushes size r tick m s h =
    rw (append-nil s.batch) (flush_batch-Flushes r.running m false s.batch s h)
turn_with-Flushes size r (cancelled rest) m s h =
    flush_batch-Flushes r.draining m true (s.batch ++ rest) s h

flush_batch-batch :
    (w : Attempts) (returned : Bool) (es : List Event) (s : Writing)
    → (flush_batch w returned es s).batch ≡ []
unfolding flush_batch
flush_batch-batch w returned [] s = refl
flush_batch-batch w returned (e ∷ es) s = refl

flush_batch-returned :
    (w : Attempts) (returned : Bool) (es : List Event) (s : Writing)
    → (flush_batch w returned es s).returned ≡ returned
unfolding flush_batch
flush_batch-returned w returned [] s = refl
flush_batch-returned w returned (e ∷ es) s = refl

-- A batch that waits is not full, and none waits after the return.
abbrev pub Short : ℕ → Writing → Type 0
Short size s = length s.batch < (if s.returned then 1 else size)

flush_batch-Short :
    (size : ℕ) (w : Attempts) (returned : Bool) (es : List Event) (s : Writing)
    → 0 < size
    → Short size (flush_batch w returned es s)
flush_batch-Short size w returned es s h = rw (flush_batch-batch w returned es s) (ground arith)

pub turn_with-returned :
    (size : ℕ) (r : Round) (c : Choice) (s : Writing) → (turn_with size r c s).returned ≡ ends c
unfolding turn_with
turn_with-returned size r (got e) s = elim (Bool-cases (leb size (length (s.batch ++ e ∷ [])))) [
  | inl full ↦ rw full (flush_batch-returned r.running false (s.batch ++ e ∷ []) s)
  | inr more ↦ rw more refl
]
turn_with-returned size r shut s = flush_batch-returned r.draining true s.batch s
turn_with-returned size r tick s = flush_batch-returned r.running false s.batch s
turn_with-returned size r (cancelled rest) s =
    flush_batch-returned r.draining true (s.batch ++ rest) s

pub turn_with-Short :
    (size : ℕ) (r : Round) (c : Choice) (s : Writing) → 0 < size → Short size (turn_with size r c s)
unfolding turn_with
turn_with-Short size r (got e) s h = elim (Bool-cases (leb size (length (s.batch ++ e ∷ [])))) [
  | inl full ↦ rw full (flush_batch-Short size r.running false (s.batch ++ e ∷ []) s h)
  | inr more ↦ rw more (ground (arith, more))
]
turn_with-Short size r shut s h = flush_batch-Short size r.draining true s.batch s h
turn_with-Short size r tick s h = flush_batch-Short size r.running false s.batch s h
turn_with-Short size r (cancelled rest) s h =
    flush_batch-Short size r.draining true (s.batch ++ rest) s h

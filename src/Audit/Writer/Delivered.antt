-- ===== src/Audit/Writer/Delivered.antt =====
-- audit/writer.go: what becomes of the events that the loop receives.
use mathlib.Core.List.{append_assoc, append-nil}
use donkey_work_vault.Base.{
  ℕ, ◌≡◌, ◌<◌, ◌∙◌, ◌⊎◌, ◌&&◌, refl, sym, ap, arith, inl, inr, Bool, Bool-cases, true, false, List,
  [], ◌∷◌, ◌++◌, length, any, all, if◌then◌else◌,
}
use donkey_work_vault.Base.Integers.{to_nat}
use donkey_work_vault.Store.Mem.{Mem}
use donkey_work_vault.Audit.Types.{Event}
use donkey_work_vault.Audit.Swept.{or_default-pos}
use donkey_work_vault.Audit.Writer.Run.{
  WriterOptions, Round, Writing, turn, run_rounds, starting, run, new_writer,
}
use donkey_work_vault.Audit.Writer.Flushed.{
  events_of, all_stored, Records, Flushes, is_patient, heard, ends, attempts_of, Short,
  turn_with-Flushes, turn_with-returned, turn_with-Short,
}

-- The rounds until Run returns.
abbrev pub until_end : List Round → List Round
until_end [] = []
until_end (r ∷ rounds) = let later = until_end rounds in r ∷ (if ends r.choice then [] else later)

-- What they receive.
abbrev pub heard_in : List Round → List Event
heard_in [] = []
heard_in (r ∷ rounds) = heard r.choice ++ heard_in rounds

-- In each of them the attempts are patient.
abbrev pub all_patient : List Round → Bool
all_patient rounds = all (λ r. is_patient (attempts_of r r.choice)) rounds

-- What the rounds make of the state `s`.
pub record Delivers (m : Mem) (size : ℕ) (rounds : List Round) (s t : Writing) : Type 0 where
  pub records : Records m t
  pub in_order :
      events_of t.flushed ++ t.batch
      ≡ (events_of s.flushed ++ s.batch) ++ heard_in (until_end rounds)
  pub complete :
      (all_patient (until_end rounds) ≡ false) ⊎ (all_stored t.flushed ≡ all_stored s.flushed)
  pub short : Short size t
  pub ended : t.returned ≡ any (λ r. ends r.choice) rounds

both :
    (a b x y z : Bool)
    → (a ≡ false) ⊎ (y ≡ z)
    → (b ≡ false) ⊎ (x ≡ y)
    → ((a && b) ≡ false) ⊎ (x ≡ z)
both false b x y z h k = inl refl
both true b x y z (inl e) k = absurd (cc e)
both true b x y z (inr e) (inl q) = inl q
both true b x y z (inr e) (inr q) = inr (q ∙ e)

module _ (m : Mem) (size : ℕ) (r : Round) (later : List Round) (s t : Writing)
    (f : Flushes (attempts_of r r.choice) m (s.batch ++ heard r.choice) s t) where
  at_end :
      Short size t
      → t.returned ≡ ends r.choice
      → ends r.choice ≡ true
      → Delivers m size (r ∷ later) s t
  at_end short returned over = record {
    records = f.records;
    in_order =
        rw (over, append-nil (heard r.choice))
          (f.in_order ∙ sym (append_assoc (events_of s.flushed) s.batch (heard r.choice)));
    complete =
        both (is_patient (attempts_of r r.choice))
          (all_patient (if ends r.choice then [] else until_end later)) (all_stored t.flushed)
          (all_stored t.flushed) (all_stored s.flushed) f.complete (inr refl);
    short = short;
    ended = rw over (cc (returned, over));
  }

  going_on :
      (u : Writing)
      → Delivers m size later t u
      → ends r.choice ≡ false
      → Delivers m size (r ∷ later) s u
  going_on u d going = record {
    records = d.records;
    in_order = rw going (
        d.in_order
        ∙ ap (λ es. es ++ heard_in (until_end later))
            (f.in_order ∙ sym (append_assoc (events_of s.flushed) s.batch (heard r.choice)))
        ∙ append_assoc (events_of s.flushed ++ s.batch) (heard r.choice)
            (heard_in (until_end later)));
    complete =
        both (is_patient (attempts_of r r.choice))
          (all_patient (if ends r.choice then [] else until_end later)) (all_stored u.flushed)
          (all_stored t.flushed) (all_stored s.flushed) f.complete (rw going d.complete);
    short = d.short;
    ended = rw going d.ended;
  }

waiting-Short : (size : ℕ) (s : Writing) → Short size s → s.returned ≡ false → length s.batch < size
waiting-Short size s short e = ground (arith, short, e)

run_rounds-Delivers :
    (m : Mem) (size : ℕ) (rounds : List Round) (s : Writing)
    → 0 < size
    → Records m s
    → Short size s
    → s.returned ≡ false
    → Delivers m size rounds s (run_rounds size rounds s)
unfolding run_rounds
run_rounds-Delivers m size [] s pos h short going = record {
  records = h;
  in_order = sym (append-nil (events_of s.flushed ++ s.batch));
  complete = inr refl;
  short = short;
  ended = going;
}
run_rounds-Delivers m size (r ∷ rounds) s pos h short going =
    let t = turn size r s in
    let f = turn_with-Flushes size r r.choice m s h in
    let e = turn_with-returned size r r.choice s in
    let brief = turn_with-Short size r r.choice s pos in
    elim (Bool-cases (ends r.choice)) [
      | inl over ↦ simp (e, over) (at_end m size r rounds s t f brief e over)
      | inr goes ↦
          simp (e, goes)
            (going_on m size r rounds s t f (run_rounds size rounds t)
              (run_rounds-Delivers m size rounds t pos f.records brief (e ∙ goes)) goes)
    ]

batch_size-pos : (o : WriterOptions) → 0 < to_nat (new_writer o).batch_size
unfolding new_writer
batch_size-pos o = or_default-pos o.batch_size 100 (omega arith)

-- With the options that NewWriter makes of any options, whatever the rounds of its loop choose: the
-- batches given to persist and the one that still waits hold the events received until the return,
-- each once and in order. The rows that the trail has got, without their ids, are the events of the
-- batches that persist stored, in the same order, and nothing else in the store changes but a
-- failure that is used up. Every batch is stored, unless in a round until the return the context of
-- its flush, which is a fresh one where Run returns, is done or its wait is cut short after a failed
-- attempt. A batch that waits is shorter than the batch size, none waits after the return, and Run
-- returns at the first round that finds the channel closed or the context done.
pub run-Delivers :
    (o : WriterOptions) (rounds : List Round) (m : Mem)
    → Delivers m
        (to_nat (new_writer o).batch_size)
        rounds
        (starting m)
        (run (new_writer o) rounds m)
unfolding run
run-Delivers o rounds m =
    run_rounds-Delivers m (to_nat (new_writer o).batch_size) rounds (starting m) (batch_size-pos o)
      (record { trail = sym (append-nil _); same = refl }) (batch_size-pos o) refl

-- ===== src/Audit/Writer/Run.antt =====
-- audit/writer.go: the loop that forms the batches. Each round is given what its select chooses, with
-- what the attempts to store a batch meet.
use donkey_work_vault.Base.{ℕ, Bool, true, false, List, [], ◌∷◌, ◌++◌, leb, length, if◌then◌else◌}
use donkey_work_vault.Base.Integers.{ℤ, pos, below_one, to_nat}
use donkey_work_vault.Store.Mem.{Mem}
use donkey_work_vault.Audit.Types.{Event}
use donkey_work_vault.Audit.Writer.{Fate, Attempts, persist}

pub record WriterOptions : Type 0 where
  pub batch_size : ℤ
  pub flush_interval : ℤ

-- NewWriter, in nanoseconds for the interval.
unfoldable pub new_writer : WriterOptions → WriterOptions
new_writer o = record {
  batch_size = if below_one o.batch_size then pos 100 else o.batch_size;
  flush_interval = if below_one o.flush_interval then pos 500000000 else o.flush_interval;
}

-- An event is received, the channel is closed and empty, the ticker fires, or the context is done;
-- then the events are those that are received before the channel has none left or is closed.
pub data Choice : Type 0 where
  got : Event → Choice
  shut tick : Choice
  cancelled : List Event → Choice

-- A round: what its select chooses, and what the attempts to store a batch meet, under the context
-- that Run was given and under the fresh one of drainFlush.
pub record Round : Type 0 where
  pub choice : Choice
  pub running : Attempts
  pub draining : Attempts

-- Where Run stands: whether it has returned, the batch that it forms, the store, and the batches that
-- were given to persist, with what became of each.
pub record Writing : Type 0 where
  pub returned : Bool
  pub batch : List Event
  pub store : Mem
  pub flushed : List (Fate × List Event)

unfoldable pub flush_batch : Attempts → Bool → List Event → Writing → Writing
flush_batch w returned [] s = record s { returned = returned; batch = [] }
flush_batch w returned (e ∷ batch) s =
    let (fate, store) = persist w (e ∷ batch) s.store in
    record {
      returned = returned;
      batch = [];
      store = store;
      flushed = s.flushed ++ (fate, e ∷ batch) ∷ [];
    }

-- `flush(ctx)` with the batch so far
abbrev pub flush : Round → List Event → Writing → Writing
flush r batch s = flush_batch r.running false batch s

-- `drainFlush()` and the return
abbrev pub drain_flush : Round → List Event → Writing → Writing
drain_flush r batch s = flush_batch r.draining true batch s

-- What a turn of the loop does with what its select chooses.
unfoldable pub turn_with : ℕ → Round → Choice → Writing → Writing
turn_with size r (got e) s =
    let longer = s.batch ++ e ∷ [] in
    if leb size (length longer)
    then flush r longer s
    else record s { returned = false; batch = longer }
turn_with size r shut s = drain_flush r s.batch s
turn_with size r tick s = flush r s.batch s
turn_with size r (cancelled rest) s = drain_flush r (s.batch ++ rest) s

abbrev pub turn : ℕ → Round → Writing → Writing
turn size r s = turn_with size r r.choice s

-- The loop, until it returns or the rounds are over.
unfoldable pub run_rounds : ℕ → List Round → Writing → Writing
run_rounds size [] s = s
run_rounds size (r ∷ rounds) s =
    let t = turn size r s in let later = run_rounds size rounds t in if t.returned then t else later

abbrev pub starting : Mem → Writing
starting m = record { returned = false; batch = []; store = m; flushed = [] }

unfoldable pub run : WriterOptions → List Round → Mem → Writing
run o rounds m = run_rounds (to_nat o.batch_size) rounds (starting m)

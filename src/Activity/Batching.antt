-- ===== src/Activity/Batching.antt =====
-- The queue and the background loop of src/connectors/consumers/activity_writer.py: `enqueue`,
-- `_writer_loop` and `close`. The output of a step are the batches that it hands to `_write_batch`.
use work_behavior_analytics.Prelude.{
  ℕ, leb, Bool, true, false, Option, none, some, List, [], ◌∷◌, ◌++◌, take, length, if◌then◌else◌,
}

abbrev pub batch_size : ℕ
batch_size = 100

-- `running` is false once the loop's task has ended.
pub record Writer (S : Type 0) : Type 0 where
  pub queue : List S
  pub batch : List S
  pub running : Bool

-- What happens to the writer. A cancellation reaches the loop while it waits, or while it writes a
-- batch after so many of its signals.
pub data Event (S : Type 0) : Type 0 where
  enqueue : S → Event S
  receive : Event S
  receive_cancelled : ℕ → Event S
  timeout : Event S
  timeout_cancelled : ℕ → Event S
  cancel : Event S

module _ {S : Type 0} where
  abbrev pub new_writer : Writer S
  new_writer = record { queue = []; batch = []; running = true }

  -- `if batch: await self._write_batch(batch)`
  abbrev pub write_if : List S → List (List S)
  write_if [] = []
  write_if (s ∷ batch) = (s ∷ batch) ∷ []

  -- The write of a full batch. Cancelled, the signals before the cancellation are written, and it is caught below: the batch is written once more.
  abbrev pub write_full : Writer S → List S → Option ℕ → Writer S × List (List S)
  write_full w batch none = (record w { batch = [] }, batch ∷ [])
  write_full w batch (some n) =
      (record w { batch = []; running = false }, take n batch ∷ batch ∷ [])

  -- A signal comes from the queue; an empty queue keeps the loop waiting.
  abbrev pub receive_from : Writer S → List S → Option ℕ → Writer S × List (List S)
  receive_from w [] cancelled = (w, [])
  receive_from w (s ∷ queue) cancelled =
      let batch = w.batch ++ s ∷ [] in
      if leb batch_size (length batch)
      then write_full (record w { queue = queue }) batch cancelled
      else (record w { queue = queue; batch = batch }, [])

  -- The write on a timeout, which comes with an empty queue and a batch. Cancelled, the exception leaves
  -- the loop: it was raised in an `except` block, so the block for cancellations does not catch it.
  abbrev pub flush_idle : Writer S → List S → List S → Option ℕ → Writer S × List (List S)
  flush_idle w (q ∷ queue) batch cancelled = (w, [])
  flush_idle w [] [] cancelled = (w, [])
  flush_idle w [] (s ∷ batch) none = (record w { batch = [] }, (s ∷ batch) ∷ [])
  flush_idle w [] (s ∷ batch) (some n) =
      (record w { batch = []; running = false }, take n (s ∷ batch) ∷ [])

  abbrev pub while_running : Writer S → Event S → Writer S × List (List S)
  while_running w (enqueue s) = (record w { queue = w.queue ++ s ∷ [] }, [])
  while_running w receive = receive_from w w.queue none
  while_running w (receive_cancelled n) = receive_from w w.queue (some n)
  while_running w timeout = flush_idle w w.queue w.batch none
  while_running w (timeout_cancelled n) = flush_idle w w.queue w.batch (some n)
  while_running w cancel = (record w { batch = []; running = false }, write_if w.batch)

  -- Once the task has ended only `enqueue` has an effect.
  abbrev pub when_stopped : Writer S → Event S → Writer S × List (List S)
  when_stopped w (enqueue s) = (record w { queue = w.queue ++ s ∷ [] }, [])
  when_stopped w receive = (w, [])
  when_stopped w (receive_cancelled n) = (w, [])
  when_stopped w timeout = (w, [])
  when_stopped w (timeout_cancelled n) = (w, [])
  when_stopped w cancel = (w, [])

  unfoldable pub step : Writer S → Event S → Writer S × List (List S)
  step w e = if w.running then while_running w e else when_stopped w e

  -- The batches written over a run.
  unfoldable pub run : Writer S → List (Event S) → Writer S × List (List S)
  unfolding step
  run w [] = (w, [])
  run w (e ∷ events) =
      let (w', written) = step w e in let (end, later) = run w' events in (end, written ++ later)

  -- `close`: the task is cancelled and awaited, then the queue is drained into a last batch.
  unfoldable pub close : Writer S → Writer S × List (List S)
  unfolding step
  close w =
      let (stopped, written) = step w cancel in
      (record stopped { queue = [] }, written ++ write_if stopped.queue)

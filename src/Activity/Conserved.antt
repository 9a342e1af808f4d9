-- ===== src/Activity/Conserved.antt =====
-- No signal is lost between `enqueue` and the writes of src/connectors/consumers/activity_writer.py.
use work_behavior_analytics.Prelude.{
  leb, Bool, true, false, ◌≡◌, inl, inr, refl, sym, none, List, [], ◌∷◌, ◌++◌, length, arith,
  if◌then◌else◌, All, Bool-cases,
}
use mathlib.Core.List.{append-nil, append_assoc}
use work_behavior_analytics.Activity.Bounded.{run-KeepsTidy}
use work_behavior_analytics.Activity.Batching.{
  batch_size, Writer, Event, enqueue, receive, receive_cancelled, timeout, timeout_cancelled,
  cancel, new_writer, write_if, receive_from, flush_idle, while_running, when_stopped, step, run,
  close,
}

module _ {S : Type 0} where
  abbrev pub concat : List (List S) → List S
  concat [] = []
  concat (xs ∷ rest) = xs ++ concat rest

  abbrev pub enqueued : List (Event S) → List S
  enqueued [] = []
  enqueued (enqueue s ∷ events) = s ∷ enqueued events
  enqueued (receive ∷ events) = enqueued events
  enqueued (receive_cancelled n ∷ events) = enqueued events
  enqueued (timeout ∷ events) = enqueued events
  enqueued (timeout_cancelled n ∷ events) = enqueued events
  enqueued (cancel ∷ events) = enqueued events

  -- No write is cancelled before it is done.
  abbrev pub IsWhole : Event S → Type 0
  IsWhole (receive_cancelled n) = ⊥
  IsWhole (timeout_cancelled n) = ⊥
  IsWhole (enqueue s) = Unit
  IsWhole receive = Unit
  IsWhole timeout = Unit
  IsWhole cancel = Unit

  -- What was written, and what still waits: in the order of its arrival.
  abbrev pub waiting : Writer S → List S
  waiting w = w.batch ++ w.queue

  abbrev pub arrived : Event S → List S
  arrived e = enqueued (e ∷ [])

  -- A step writes and keeps waiting, in order, what was waiting and what arrived.
  record Conserves (w : Writer S) (more : List S) (r : Writer S × List (List S)) : Type 0 where
    conserved : concat r.1 ++ waiting r.0 ≡ waiting w ++ more

  receive_from-Conserves :
      (w : Writer S) (queue : List S) → w.queue ≡ queue → Conserves w [] (receive_from w queue none)
  receive_from-Conserves w [] e = record { conserved = sym (append-nil (waiting w)) }
  receive_from-Conserves w (s ∷ queue) e =
      elim (Bool-cases (leb batch_size (length (w.batch ++ s ∷ [])))) [
        | inl full ↦ rw full (record { conserved = rw e (simp (append_assoc, append-nil)) })
        | inr room ↦ rw room (record { conserved = rw e (simp (append_assoc, append-nil)) })
      ]

  flush_idle-Conserves :
      (w : Writer S) (queue batch : List S)
      → w.queue ≡ queue
      → w.batch ≡ batch
      → Conserves w [] (flush_idle w queue batch none)
  flush_idle-Conserves w (q ∷ queue) batch e f = record { conserved = sym (append-nil (waiting w)) }
  flush_idle-Conserves w [] [] e f = record { conserved = sym (append-nil (waiting w)) }
  flush_idle-Conserves w [] (s ∷ batch) e f = record {
    conserved = rw (e, f) (simp (append_assoc, append-nil));
  }

  concat-write_if : (xs : List S) → concat (write_if xs) ≡ xs
  concat-write_if [] = refl
  concat-write_if (x ∷ xs) = append-nil (x ∷ xs)

  while_running-Conserves :
      (w : Writer S) (e : Event S) → IsWhole e → Conserves w (arrived e) (while_running w e)
  while_running-Conserves w (enqueue s) whole = record {
    conserved = sym (append_assoc w.batch w.queue (s ∷ []));
  }
  while_running-Conserves w receive whole = receive_from-Conserves w w.queue refl
  while_running-Conserves w (receive_cancelled n) whole = absurd whole
  while_running-Conserves w timeout whole = flush_idle-Conserves w w.queue w.batch refl refl
  while_running-Conserves w (timeout_cancelled n) whole = absurd whole
  while_running-Conserves w cancel whole = record {
    conserved = rw concat-write_if (simp (append_assoc, append-nil));
  }

  when_stopped-Conserves :
      (w : Writer S) (e : Event S) → IsWhole e → Conserves w (arrived e) (when_stopped w e)
  when_stopped-Conserves w (enqueue s) whole = record {
    conserved = sym (append_assoc w.batch w.queue (s ∷ []));
  }
  when_stopped-Conserves w receive whole = record { conserved = sym (append-nil (waiting w)) }
  when_stopped-Conserves w (receive_cancelled n) whole = absurd whole
  when_stopped-Conserves w timeout whole = record { conserved = sym (append-nil (waiting w)) }
  when_stopped-Conserves w (timeout_cancelled n) whole = absurd whole
  when_stopped-Conserves w cancel whole = record { conserved = sym (append-nil (waiting w)) }

  step-Conserves : (w : Writer S) (e : Event S) → IsWhole e → Conserves w (arrived e) (step w e)
  unfolding step
  step-Conserves w e whole = by_running w.running
    where
      by_running :
          (b : Bool) → Conserves w (arrived e) (if b then while_running w e else when_stopped w e)
      by_running true = while_running-Conserves w e whole
      by_running false = when_stopped-Conserves w e whole

  concat-append : (xs ys : List (List S)) → concat (xs ++ ys) ≡ concat xs ++ concat ys
  concat-append [] ys = refl
  concat-append (x ∷ xs) ys =
      rw (concat-append xs ys) (sym (append_assoc x (concat xs) (concat ys)))

  enqueued-cons :
      (e : Event S) (events : List (Event S)) → enqueued (e ∷ events) ≡ arrived e ++ enqueued events
  enqueued-cons (enqueue s) events = refl
  enqueued-cons receive events = refl
  enqueued-cons (receive_cancelled n) events = refl
  enqueued-cons timeout events = refl
  enqueued-cons (timeout_cancelled n) events = refl
  enqueued-cons cancel events = refl

  run-Conserves :
      (w : Writer S) (events : List (Event S))
      → All IsWhole events
      → Conserves w (enqueued events) (run w events)
  unfolding run
  run-Conserves w [] whole = record { conserved = sym (append-nil (waiting w)) }
  run-Conserves w (e ∷ events) whole =
      let here = step-Conserves w e whole.0 in
      let later = run-Conserves (step w e).0 events whole.1 in
      record {
        conserved =
            rw
              (
                concat-append,
                append_assoc,
                later.conserved,
                enqueued-cons,
                ← append_assoc,
                here.conserved,
              )
              (append_assoc (waiting w) (arrived e) (enqueued events));
      }

  close-written :
      (w : Writer S) → (w.running ≡ false → w.batch ≡ []) → concat (close w).1 ≡ waiting w
  unfolding close step
  close-written w idle = elim (Bool-cases w.running) [
    | inl up ↦ rw (up, concat-append, concat-write_if, concat-write_if) refl
    | inr down ↦ rw (down, concat-write_if, idle down) refl
  ]

-- Over a run from the start, without a write that is cancelled half way, and then a close, the batches
-- that are written are together exactly what was enqueued: nothing is lost, doubled or out of order.
pub close-conserves :
    {S : Type 0} (events : List (Event S))
    → All IsWhole events
    → concat (run new_writer events).1 ++ concat (close (run new_writer events).0).1
      ≡ enqueued events
close-conserves events whole =
    rw
      (close-written (run new_writer events).0
        (run-KeepsTidy new_writer events
          (record { room = omega arith; idle = λ down. refl })).tidy.idle)
      (run-Conserves new_writer events whole).conserved

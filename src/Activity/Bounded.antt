-- ===== src/Activity/Bounded.antt =====
-- How large the batches of src/connectors/consumers/activity_writer.py grow.
use work_behavior_analytics.Prelude.{
  ℕ, ◌≤◌, ◌<◌, leb, Bool, true, false, ◌≡◌, inl, inr, refl, Option, none, some, List, [], ◌∷◌, ◌++◌,
  length, arith, if◌then◌else◌, All, Bool-cases, length-append, length-take,
}
use work_behavior_analytics.Activity.Batching.{
  batch_size, Writer, Event, enqueue, receive, receive_cancelled, timeout, timeout_cancelled,
  cancel, write_if, write_full, receive_from, flush_idle, while_running, when_stopped, step, run,
}

All-append {ℓ κ} :
    {A : Type ℓ} (P : A → Type κ) (xs ys : List A) → All P xs → All P ys → All P (xs ++ ys)
All-append P [] ys h k = k
All-append P (x ∷ xs) ys h k = (h.0, All-append P xs ys h.1 k)

module _ {S : Type 0} where
  -- The batch has room for one more signal, and is empty once the loop has ended.
  pub record IsTidy (w : Writer S) : Type 0 where
    pub room : length w.batch < batch_size
    pub idle : w.running ≡ false → w.batch ≡ []

  abbrev pub IsSmall : List S → Type 0
  IsSmall batch = length batch ≤ batch_size

  pub record KeepsTidy (r : Writer S × List (List S)) : Type 0 where
    pub tidy : IsTidy r.0
    pub small : All IsSmall r.1

  receive_from-KeepsTidy :
      (w : Writer S) (queue : List S) (cancelled : Option ℕ)
      → IsTidy w
      → w.running ≡ true
      → KeepsTidy (receive_from w queue cancelled)
  receive_from-KeepsTidy w [] cancelled h up = record { tidy = h; small = tt }
  receive_from-KeepsTidy w (s ∷ queue) cancelled h up =
      let room = h.room in
      let grown = length-append w.batch (s ∷ []) in
      elim (Bool-cases (leb batch_size (length (w.batch ++ s ∷ [])))) [
        | inl full ↦ rw full (filled cancelled (omega arith))
        | inr left ↦ rw left (record {
          tidy = record { room = ground arith; idle = λ down. cc (up, down) };
          small = tt;
        })
      ]
    where
      filled :
          (cancelled : Option ℕ)
          → IsSmall (w.batch ++ s ∷ [])
          → KeepsTidy (write_full (record w { queue = queue }) (w.batch ++ s ∷ []) cancelled)
      filled none fits = record {
        tidy = record { room = omega arith; idle = λ down. refl };
        small = (fits, tt);
      }
      filled (some n) fits = record {
        tidy = record { room = omega arith; idle = λ down. refl };
        small = ((let cut = length-take n (w.batch ++ s ∷ []) in omega arith), (fits, tt));
      }

  flush_idle-KeepsTidy :
      (w : Writer S) (queue batch : List S) (cancelled : Option ℕ)
      → IsTidy w
      → length batch ≤ batch_size
      → KeepsTidy (flush_idle w queue batch cancelled)
  flush_idle-KeepsTidy w (q ∷ queue) batch cancelled h fits = record { tidy = h; small = tt }
  flush_idle-KeepsTidy w [] [] cancelled h fits = record { tidy = h; small = tt }
  flush_idle-KeepsTidy w [] (s ∷ batch) none h fits = record {
    tidy = record { room = omega arith; idle = λ down. refl };
    small = (fits, tt);
  }
  flush_idle-KeepsTidy w [] (s ∷ batch) (some n) h fits = record {
    tidy = record { room = omega arith; idle = λ down. refl };
    small = ((let cut = length-take n (s ∷ batch) in omega arith), tt);
  }

  write_if-IsSmall : (batch : List S) → length batch ≤ batch_size → All IsSmall (write_if batch)
  write_if-IsSmall [] fits = tt
  write_if-IsSmall (s ∷ batch) fits = (fits, tt)

  while_running-KeepsTidy :
      (w : Writer S) (e : Event S) → IsTidy w → w.running ≡ true → KeepsTidy (while_running w e)
  while_running-KeepsTidy w (enqueue s) h up = record {
    tidy = record { room = h.room; idle = h.idle };
    small = tt;
  }
  while_running-KeepsTidy w receive h up = receive_from-KeepsTidy w w.queue none h up
  while_running-KeepsTidy w (receive_cancelled n) h up =
      receive_from-KeepsTidy w w.queue (some n) h up
  while_running-KeepsTidy w timeout h up =
      flush_idle-KeepsTidy w w.queue w.batch none h (let room = h.room in omega arith)
  while_running-KeepsTidy w (timeout_cancelled n) h up =
      flush_idle-KeepsTidy w w.queue w.batch (some n) h (let room = h.room in omega arith)
  while_running-KeepsTidy w cancel h up = record {
    tidy = record { room = omega arith; idle = λ down. refl };
    small = write_if-IsSmall w.batch (let room = h.room in omega arith);
  }

  when_stopped-KeepsTidy : (w : Writer S) (e : Event S) → IsTidy w → KeepsTidy (when_stopped w e)
  when_stopped-KeepsTidy w (enqueue s) h = record {
    tidy = record { room = h.room; idle = h.idle };
    small = tt;
  }
  when_stopped-KeepsTidy w receive h = record { tidy = h; small = tt }
  when_stopped-KeepsTidy w (receive_cancelled n) h = record { tidy = h; small = tt }
  when_stopped-KeepsTidy w timeout h = record { tidy = h; small = tt }
  when_stopped-KeepsTidy w (timeout_cancelled n) h = record { tidy = h; small = tt }
  when_stopped-KeepsTidy w cancel h = record { tidy = h; small = tt }

  step-KeepsTidy : (w : Writer S) (e : Event S) → IsTidy w → KeepsTidy (step w e)
  unfolding step
  step-KeepsTidy w e h = by_running w.running refl
    where
      by_running :
          (b : Bool) → w.running ≡ b → KeepsTidy (if b then while_running w e else when_stopped w e)
      by_running true up = while_running-KeepsTidy w e h up
      by_running false down = when_stopped-KeepsTidy w e h

  pub run-KeepsTidy : (w : Writer S) (events : List (Event S)) → IsTidy w → KeepsTidy (run w events)
  unfolding run
  run-KeepsTidy w [] h = record { tidy = h; small = tt }
  run-KeepsTidy w (e ∷ events) h =
      let here = step-KeepsTidy w e h in
      let later = run-KeepsTidy (step w e).0 events here.tidy in
      record {
        tidy = later.tidy;
        small = All-append IsSmall (step w e).1 (run (step w e).0 events).1 here.small later.small;
      }

-- ===== src/Retry/Deadline.antt =====
-- How `retry_with_backoff` (src/connectors/producers/github/retry_with_backoff.py) ends, and when.
use work_behavior_analytics.Prelude.{
  ℕ, zero, suc, ◌+◌, ◌-◌, ◌≤◌, ◌<◌, leb, true, false, ◌≡◌, ◌⊎◌, inl, inr, refl, Option, arith,
  Bool-cases,
}
use work_behavior_analytics.Retry.Policy.{
  Failure, is_retryable, Result, value, failure, Ending, reraised, timed_out, running, Calls,
  Settings, Run, sleep_for, next_delay, after_failure, after_call, loop, retry_until,
  retry_with_backoff, Overrides, effective, ensure_retry_settings,
}

first_or_later : (n m : ℕ) → n ≤ m → (m ≡ n) ⊎ (n + 1 ≤ m)
first_or_later n m le = omega arith

module _ {T : Type 0} (calls : Calls T) where
  -- The n-th call fails in a way that is retried.
  abbrev pub IsRetried : ℕ → Type 0
  IsRetried n = (e : Failure) × (calls.result n ≡ failure e) × (is_retryable e ≡ true)

  -- What an ending says of the n-th call, which was the last and came back at `now`.
  abbrev pub Explains : ℕ → ℕ → ℕ → ℕ → Ending T → Type 0
  Explains budget deadline n now (value v) = calls.result n ≡ value v
  Explains budget deadline n now (reraised e) =
      (calls.result n ≡ failure e) × (is_retryable e ≡ false)
  Explains budget deadline n now (timed_out b e) =
      (b ≡ budget) × (calls.result n ≡ failure e) × (is_retryable e ≡ true) × (deadline ≤ now)
  Explains budget deadline n now running = ⊥

  -- The run from the n-th call on ends with a call that explains its ending; the ones before were
  -- retried.
  pub record IsOver (budget deadline n : ℕ) (r : Run T) : Type 0 where
    pub last : ℕ
    pub attempts : r.attempts ≡ last + 1
    pub from : n ≤ last
    pub retried : (m : ℕ) → n ≤ m → m < last → IsRetried m
    pub explained : Explains budget deadline last r.now r.ending

  -- The same, and without oversleeping it is over by the deadline and the length of the last call.
  pub record Ends (budget deadline n started : ℕ) (r : Run T) : Type 0 where
    pub last : ℕ
    pub attempts : r.attempts ≡ last + 1
    pub from : n ≤ last
    pub retried : (m : ℕ) → n ≤ m → m < last → IsRetried m
    pub explained : Explains budget deadline last r.now r.ending
    pub in_time :
        started ≤ deadline
        → ((m : ℕ) → calls.oversleep m ≡ 0)
        → r.now ≤ deadline + calls.duration last

  module _ (budget cap deadline : ℕ) (cap_positive : 1 ≤ cap) where
    after_failure-Ends :
        (n delay started : ℕ) (e : Failure) (rest : Run T)
        → calls.result n ≡ failure e
        → (started + calls.duration n < deadline
            → Ends budget deadline
                (n + 1)
                (started
                  + calls.duration n
                  + sleep_for calls budget cap deadline delay (started + calls.duration n)
                  + calls.oversleep n)
                rest)
        → Ends budget deadline n started
            (after_failure calls budget cap deadline n (started + calls.duration n) e rest)
    after_failure-Ends n delay started e rest is next = elim (Bool-cases (is_retryable e)) [
      | inr fatal ↦ rw fatal (record {
        last = n;
        attempts = refl;
        from = omega arith;
        retried = λ m le lt. absurd (omega arith);
        explained = (is, fatal);
        in_time = λ early exact. omega arith;
      })
      | inl again ↦ elim (Bool-cases (leb deadline (started + calls.duration n))) [
        | inl over ↦
            rw (again, over)
              (record {
                last = n;
                attempts = refl;
                from = omega arith;
                retried = λ m le lt. absurd (omega arith);
                explained = (refl, is, again, ground arith);
                in_time = λ early exact. omega arith;
              })
        | inr left ↦
            let before : started + calls.duration n < deadline = ground arith in
            let after = next before in
            rw (again, left)
              (record {
                last = after.last;
                attempts = after.attempts;
                from = let later = after.from in omega arith;
                retried = λ m le lt. elim (first_or_later n m le) [
                  | inl first ↦ rw first (e, is, again)
                  | inr later ↦ after.retried m later lt
                ];
                explained = after.explained;
                in_time =
                    λ early exact. after.in_time (let none_over = exact n in omega arith) exact;
              })
      ]
    ]

    after_call-Ends :
        (n delay started : ℕ) (r : Result T) (rest : Run T)
        → calls.result n ≡ r
        → (started + calls.duration n < deadline
            → Ends budget deadline
                (n + 1)
                (started
                  + calls.duration n
                  + sleep_for calls budget cap deadline delay (started + calls.duration n)
                  + calls.oversleep n)
                rest)
        → Ends budget deadline n started
            (after_call calls budget cap deadline n (started + calls.duration n) r rest)
    after_call-Ends n delay started (value v) rest is next = record {
      last = n;
      attempts = refl;
      from = omega arith;
      retried = λ m le lt. absurd (omega arith);
      explained = is;
      in_time = λ early exact. omega arith;
    }
    after_call-Ends n delay started (failure e) rest is next =
        after_failure-Ends n delay started e rest is next

    loop-Ends :
        (fuel n delay started : ℕ)
        → 1 ≤ delay
        → deadline - started < fuel
        → Ends budget deadline n started (loop calls budget cap deadline fuel n delay started)
    unfolding loop
    loop-Ends zero n delay started positive enough = absurd (omega arith)
    loop-Ends (suc fuel) n delay started positive enough =
        let now = started + calls.duration n in
        let next = now + sleep_for calls budget cap deadline delay now + calls.oversleep n in
        after_call-Ends n delay started (calls.result n)
          (loop calls budget cap deadline fuel (n + 1) (next_delay calls budget cap deadline delay)
            next)
          refl
          (λ before.
            loop-Ends fuel (n + 1) (next_delay calls budget cap deadline delay) next (omega arith)
              (omega arith))

retry_until-Ends :
    {T : Type 0} (calls : Calls T) (settings : Settings) (started : ℕ)
    → 1 ≤ settings.base_delay
    → 1 ≤ settings.backoff_cap
    → Ends calls settings.retry_budget
        (started + settings.retry_budget)
        0
        started
        (retry_until calls settings started)
unfolding retry_until
retry_until-Ends calls settings started base cap =
    loop-Ends calls settings.retry_budget settings.backoff_cap (started + settings.retry_budget) cap
      (settings.retry_budget + 1) 0 settings.base_delay started base (omega arith)

module _ {T : Type 0} (calls : Calls T) (args : Overrides) (cached runtime_cache : Option Settings)
    (started : ℕ) where
  abbrev pub in_effect : Settings
  in_effect = effective (ensure_retry_settings cached runtime_cache) args

  ends :
      1 ≤ in_effect.base_delay
      → 1 ≤ in_effect.backoff_cap
      → Ends calls in_effect.retry_budget
          (started + in_effect.retry_budget)
          0
          started
          (retry_with_backoff calls args cached runtime_cache started)
  unfolding retry_with_backoff
  ends base cap = retry_until-Ends calls in_effect started base cap

  -- With a positive base delay and cap in effect the loop ends within its fuel, so it ends for every
  -- sequence of calls. Every call but the last fails in a way that is retried. The last one's value is
  -- returned, its failure is raised again when it is not retryable, or it is retryable and the budget is
  -- used up.
  pub retry_with_backoff-IsOver :
      1 ≤ in_effect.base_delay
      → 1 ≤ in_effect.backoff_cap
      → IsOver calls in_effect.retry_budget
          (started + in_effect.retry_budget)
          0
          (retry_with_backoff calls args cached runtime_cache started)
  retry_with_backoff-IsOver base cap =
      let e = ends base cap in
      record {
        last = e.last;
        attempts = e.attempts;
        from = e.from;
        retried = e.retried;
        explained = e.explained;
      }

  -- With a positive base delay and cap in effect, and when no sleep overruns, the run is over by the
  -- budget and the length of the last call: it never sleeps past its deadline.
  pub retry_with_backoff-in_time :
      1 ≤ in_effect.base_delay
      → 1 ≤ in_effect.backoff_cap
      → ((m : ℕ) → calls.oversleep m ≡ 0)
      → (retry_with_backoff calls args cached runtime_cache started).now
        ≤ started
          + in_effect.retry_budget
          + calls.duration
              ((retry_with_backoff calls args cached runtime_cache started).attempts - 1)
  retry_with_backoff-in_time base cap exact =
      let e = ends base cap in
      let last : (retry_with_backoff calls args cached runtime_cache started).attempts - 1
          ≡ e.last =
        (let n = e.attempts in omega arith) in
      rw last (e.in_time (omega arith) exact)

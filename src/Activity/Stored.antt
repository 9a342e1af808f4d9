-- ===== src/Activity/Stored.antt =====
-- Which signals of a batch (src/connectors/consumers/activity_writer.py) have their event in the tables,
-- and which actions are never written.
use work_behavior_analytics.Prelude.{
  ℕ, ◌+◌, Bool, true, false, ◌||◌, ◌≡◌, inl, inr, refl, sym, ◌∙◌, List, [], ◌∷◌, ◌++◌, arith,
  text_key, All, Bool-cases, same_refl,
}
use mathlib.Core.Path.{subst}
use work_behavior_analytics.Activity.Signal.{ActivitySignal, Relationship}
use work_behavior_analytics.Activity.Postgres.{
  event_key, Fate, no_connection, events_fail, actions_fail, works, Postgres, Environment, Written,
  key_of, has_key, has_signal, event_of, insert_event, write_actions, write_event, write_with,
  write_signal, Counts, count, write_each, write_batch,
}
use work_behavior_analytics.Activity.Once.{has_key-append, has_signal-append}

module _ (env : Environment) where
  -- The event of the signal is stored, or its signal id was taken by another event.
  abbrev pub IsPresent : ActivitySignal → Postgres → Type 0
  IsPresent s db = (has_key db.events (key_of env s) || has_signal db.events s.signal_id) ≡ true

  -- A write that appends to the events at most.
  record Appends (s : ActivitySignal) (db : Postgres) (r : Written × Postgres) : Type 0 where
    present : IsPresent s r.1
    kept : (t : ActivitySignal) → IsPresent t db → IsPresent t r.1

  write_actions-events :
      (fate : Fate) (s : ActivitySignal) (rels : List Relationship) (db : Postgres)
      → (write_actions fate s rels db).1.events ≡ db.events
  write_actions-events fate s [] db = refl
  write_actions-events actions_fail s (r ∷ rels) db = refl
  write_actions-events no_connection s (r ∷ rels) db = refl
  write_actions-events events_fail s (r ∷ rels) db = refl
  write_actions-events works s (r ∷ rels) db = refl

  appended-Appends :
      (s : ActivitySignal) (db : Postgres) (r : Written × Postgres)
      → r.1.events ≡ db.events ++ event_of env s ∷ []
      → Appends s db r
  appended-Appends s db r e = record {
    present =
        rw (e, has_key-append db.events (event_of env s) (key_of env s))
          (ground (arith, same_refl (key_of env s)));
    kept = λ t h.
        rw
          (
            e,
            has_key-append db.events (event_of env s) (key_of env t),
            has_signal-append db.events (event_of env s) t.signal_id,
          )
          (ground arith);
  }

  write_event-Appends :
      (fate : Fate) (s : ActivitySignal) (db : Postgres) → Appends s db (write_event env fate s db)
  unfolding write_event
  write_event-Appends fate s db = elim (Bool-cases (has_key db.events (key_of env s))) [
    | inl old ↦ rw old (record { present = rw old refl; kept = λ t h. h })
    | inr new ↦ elim (Bool-cases (has_signal db.events s.signal_id)) [
      | inl taken ↦ rw (new, taken) (record { present = rw (new, taken) refl; kept = λ t h. h })
      | inr free ↦
          rw (new, free)
            (appended-Appends s db (write_actions fate s s.relationships (insert_event env s db))
              (write_actions-events fate s s.relationships (insert_event env s db)))
    ]
  ]

  -- No write fails.
  abbrev pub AllWork : Type 0
  AllWork = (n : ℕ) → env.fate n ≡ works

  write_signal-Appends :
      (s : ActivitySignal) (db : Postgres)
      → AllWork
      → Appends s (record db { writes = db.writes + 1 }) (write_signal env s db)
  unfolding write_signal
  write_signal-Appends s db work =
      rw (work db.writes) (write_event-Appends works s (record db { writes = db.writes + 1 }))

  record Stores (batch : List ActivitySignal) (db : Postgres) (r : Counts × Postgres) : Type 0 where
    all_present : All (λ s. IsPresent s r.1) batch
    kept : (t : ActivitySignal) → IsPresent t db → IsPresent t r.1

  write_each-Stores :
      (batch : List ActivitySignal) (c : Counts) (db : Postgres)
      → AllWork
      → Stores batch db (write_each env batch c db)
  unfolding write_each
  write_each-Stores [] c db work = record { all_present = tt; kept = λ t h. h }
  write_each-Stores (s ∷ rest) c db work =
      let here = write_signal-Appends s db work in
      let after =
        write_each-Stores rest (count c (write_signal env s db).0) (write_signal env s db).1 work in
      record {
        all_present = (after.kept s here.present, after.all_present);
        kept = λ t h. after.kept t (here.kept t h);
      }

-- When no write fails, every signal of a batch has its event in the table afterwards, unless its signal
-- id was taken by another event.
pub write_batch-present :
    (env : Environment) (batch : List ActivitySignal) (db : Postgres)
    → AllWork env
    → All (λ s. IsPresent env s (write_batch env true batch db).1) batch
unfolding write_batch
write_batch-present env batch db work = (write_each-Stores env batch _ db work).all_present

-- A write that finds its event changes neither table.
record Idle (db : Postgres) (r : Written × Postgres) : Type 0 where
  events : r.1.events ≡ db.events
  actions : r.1.actions ≡ db.actions

write_signal-Idle :
    (env : Environment) (s : ActivitySignal) (db : Postgres)
    → has_key db.events (key_of env s) ≡ true
    → Idle db (write_signal env s db)
unfolding write_signal write_event
write_signal-Idle env s db old = by_fate (env.fate db.writes)
  where
    by_fate : (fate : Fate) → Idle db (write_with env fate s (record db { writes = db.writes + 1 }))
    by_fate no_connection = record { events = refl; actions = refl }
    by_fate events_fail = record { events = refl; actions = refl }
    by_fate actions_fail = rw old (record { events = refl; actions = refl })
    by_fate works = rw old (record { events = refl; actions = refl })

record BatchIdle (db : Postgres) (r : Counts × Postgres) : Type 0 where
  events : r.1.events ≡ db.events
  actions : r.1.actions ≡ db.actions

write_each-BatchIdle :
    (env : Environment) (batch : List ActivitySignal) (c : Counts) (db : Postgres)
    → All (λ t. has_key db.events (key_of env t) ≡ true) batch
    → BatchIdle db (write_each env batch c db)
unfolding write_each
write_each-BatchIdle env [] c db old = record { events = refl; actions = refl }
write_each-BatchIdle env (s ∷ rest) c db old =
    let here = write_signal-Idle env s db old.0 in
    let after =
      write_each-BatchIdle env rest (count c (write_signal env s db).0) (write_signal env s db).1
        (rw here.events old.1) in
    record { events = after.events ∙ here.events; actions = after.actions ∙ here.actions }

-- Signals whose events are stored may be delivered again in any number and order: neither table changes.
pub write_batch-again :
    (env : Environment) (has_pool : Bool) (batch : List ActivitySignal) (db : Postgres)
    → All (λ t. has_key db.events (key_of env t) ≡ true) batch
    → ((write_batch env has_pool batch db).1.events ≡ db.events)
      × ((write_batch env has_pool batch db).1.actions ≡ db.actions)
unfolding write_batch
write_batch-again env true batch db old =
    let idle = write_each-BatchIdle env batch _ db old in (idle.events, idle.actions)
write_batch-again env false batch db old = (refl, refl)

same_keys :
    (env : Environment) (s : ActivitySignal) (db : Postgres) (again : List ActivitySignal)
    → has_key db.events (key_of env s) ≡ true
    → All (λ t. key_of env t ≡ key_of env s) again
    → All (λ t. has_key db.events (key_of env t) ≡ true) again
same_keys env s db [] h e = tt
same_keys env s db (t ∷ rest) h e =
    (subst (λ k. has_key db.events k ≡ true) (sym e.0) h, same_keys env s db rest h e.1)

failing_write :
    (env : Environment) (s : ActivitySignal) (r : Relationship) (rels : List Relationship)
    (db : Postgres)
    → env.fate db.writes ≡ actions_fail
    → s.relationships ≡ r ∷ rels
    → has_key db.events (key_of env s) ≡ false
    → has_signal db.events s.signal_id ≡ false
    → ((write_signal env s db).1.events ≡ db.events ++ event_of env s ∷ [])
      × ((write_signal env s db).1.actions ≡ db.actions)
unfolding write_signal write_event
failing_write env s r rels db fails has_rels new free = rw (fails, new, free, has_rels) (refl, refl)

-- When the statement on the actions of a new signal fails, its event is stored without them, and no
-- later delivery of the signal ever writes its actions.
pub failed_actions_are_lost :
    (env : Environment) (s : ActivitySignal) (r : Relationship) (rels : List Relationship)
    (db : Postgres) (has_pool : Bool) (again : List ActivitySignal)
    → env.fate db.writes ≡ actions_fail
    → s.relationships ≡ r ∷ rels
    → has_key db.events (key_of env s) ≡ false
    → has_signal db.events s.signal_id ≡ false
    → All (λ t. key_of env t ≡ key_of env s) again
    → let failed : Postgres = (write_signal env s db).1 in
      (failed.events ≡ db.events ++ event_of env s ∷ [])
      × ((write_batch env has_pool again failed).1.events ≡ failed.events)
      × ((write_batch env has_pool again failed).1.actions ≡ db.actions)
failed_actions_are_lost env s r rels db has_pool again fails has_rels new free same =
    let (stored, bare) = failing_write env s r rels db fails has_rels new free in
    let found : has_key (write_signal env s db).1.events (key_of env s) ≡ true =
      rw (stored, has_key-append db.events (event_of env s) (key_of env s))
        (ground (arith, same_refl (key_of env s))) in
    let idle =
      write_batch-again env has_pool again (write_signal env s db).1
        (same_keys env s (write_signal env s db).1 again found same) in
    (stored, idle.0, idle.1 ∙ bare)

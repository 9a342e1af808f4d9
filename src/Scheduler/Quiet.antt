-- ===== src/Scheduler/Quiet.antt =====
-- How a tick of src/app/scheduler.py resets the clock of the connectors that it fires.
pub mod Recorded
pub mod Fired
use work_behavior_analytics.Prelude.{
  IsIn, All-IsIn, ℕ, ◌+◌, ◌*◌, ◌≤◌, ◌<◌, leb, Bool, true, false, not, ◌&&◌, ◌||◌, String, ◌≡◌, ◌↔◌,
  ◌⊎◌, inl, inr, refl, ap, Option, none, some, List, [], ◌∷◌, ◌++◌, arith, ◌==◌, eq_iff, ℕ_key,
  text_key, if◌then◌else◌, All, Bool-cases, Option-cases, is_some,
}
use work_behavior_analytics.Prelude.Text.{is_empty}
use work_behavior_analytics.Prelude.Dict.{lookup}
use work_behavior_analytics.Commands.Registry.{Registry, is_container, is_producer_target}
use work_behavior_analytics.Commands.Row.{CommandRow, Table}
use work_behavior_analytics.Commands.Publisher.{Broker, Delivery}
use work_behavior_analytics.Commands.Service.{
  Result, ok, get_command, Created, refuse, new_row, settle, unknown_target, duplicate_id,
  create_and_publish_command,
}
use work_behavior_analytics.Commands.Creation.{
  CreateOutcome, unknown, duplicate, published, unpublished, IsKnown, create-CreateOutcome,
  get_command-append,
}
use work_behavior_analytics.Scheduler.Due.{
  Connector, non_empty, producer_of, is_scan_of, later, last_scan_at, is_due, get_due_connectors,
}
use work_behavior_analytics.Scheduler.Lease.{SchedulerLease, try_acquire_lease}
use work_behavior_analytics.Scheduler.Tick.{
  Calls, scan_request, is_usable, fire_each, Database, tick_if_leader, tick,
}
use work_behavior_analytics.Scheduler.Selection.{
  IsOld, is_due_iff, HasIfDue, get_due_connectors-All,
}
use work_behavior_analytics.Scheduler.Quiet.Recorded.{
  IsRecorded, IsRecorded-append, IsRecorded-append_new, not-IsOld, producer_known,
}
use work_behavior_analytics.Scheduler.Quiet.Fired.{IsFresh, IsFired, fire_each-IsFired}

producer_of-known :
    (registry : Registry) (c : Connector) (producer : String)
    → producer_of registry c ≡ some producer
    → is_producer_target registry producer ≡ true
unfolding producer_of
producer_of-known registry c producer h =
    producer_known registry c.connector_type producer (from (lookup registry c.connector_type) h)
  where
    from : (o : Option (Option String)) → non_empty o ≡ some producer → o ≡ some (some producer)
    from none h = cc
    from (some none) h = cc
    from (some (some p)) h = ground arith

-- A connector that was due at `now` is not due again before its interval has passed since.
abbrev pub IsReset : Registry → Table → ℕ → Table → Connector → Type 0
IsReset registry before now after c =
    (hours : ℕ) (producer : String) (now' : ℕ)
    → c.scan_interval_hours ≡ some hours
    → producer_of registry c ≡ some producer
    → IsOld before producer hours now
    → now' < now + hours * 3600
    → is_due (last_scan_at after producer) now' hours ≡ false

module _ (registry : Registry) (calls : Calls) (now : ℕ) where
  get_due_connectors-known :
      (before : Table) (connectors : List Connector)
      → All
          (λ (kp : String × String). is_producer_target registry kp.1 ≡ true)
          (get_due_connectors registry before connectors now)
  get_due_connectors-known before connectors =
      (get_due_connectors-All registry before now
          (λ (kp : String × String). is_producer_target registry kp.1 ≡ true) connectors).1
        (each connectors)
    where
      each :
          (cs : List Connector)
          → All
              (HasIfDue registry before now
                (λ (kp : String × String). is_producer_target registry kp.1 ≡ true))
              cs
      each [] = tt
      each (c ∷ cs) = (λ hours producer e e' old. producer_of-known registry c producer e', each cs)

  All-IsReset :
      (before after : Table) (connectors : List Connector)
      → All
          (λ (kp : String × String). IsRecorded now kp.1 after)
          (get_due_connectors registry before connectors now)
      → All (IsReset registry before now after) connectors
  All-IsReset before after connectors h = each connectors (
      (get_due_connectors-All registry before now
          (λ (kp : String × String). IsRecorded now kp.1 after) connectors).0
        h)
    where
      each :
          (cs : List Connector)
          → All
              (HasIfDue registry before now (λ (kp : String × String). IsRecorded now kp.1 after))
              cs
          → All (IsReset registry before now after) cs
      each [] h = tt
      each (c ∷ cs) h = (
        λ hours producer now' e e' old soon.
            let young =
              not-IsOld now now' hours producer after (h.0 hours producer e e' old) soon in
            ground (arith, is_due_iff after producer hours now'),
        each cs h.1,
      )

leader-IsReset :
    (registry : Registry) (calls : Calls) (now : ℕ) (db : Database) (r : Bool × List SchedulerLease)
    → r.0 ≡ true
    → IsFresh calls 0 db.commands
    → ((m : ℕ) → now ≤ calls.clock m)
    → All
        (IsReset registry db.commands now (tick_if_leader registry calls now db r).0.commands)
        db.connectors
leader-IsReset registry calls now db (false, lease) leads fresh late = cc
leader-IsReset registry calls now db (true, lease) leads fresh late =
    All-IsReset registry calls now db.commands _ db.connectors
      (fire_each-IsFired registry calls now
        (get_due_connectors registry db.commands db.connectors now) 0 db.commands
        (get_due_connectors-known registry calls now db.commands db.connectors) fresh late).fired

-- After the tick of a leader, a connector that was due is not due again before its interval has passed
-- since the due check, whether or not its command reached the broker. This needs fresh ids and a clock
-- that does not run backwards during the tick.
pub tick_resets :
    (registry : Registry) (calls : Calls) (a : String) (tick_minutes claimed_at now now' : ℕ)
    (db : Database) (c : Connector) (hours : ℕ) (producer : String)
    → (try_acquire_lease db.lease a claimed_at tick_minutes).0 ≡ true
    → IsFresh calls 0 db.commands
    → ((m : ℕ) → now ≤ calls.clock m)
    → IsIn c db.connectors
    → c.scan_interval_hours ≡ some hours
    → producer_of registry c ≡ some producer
    → is_due (last_scan_at db.commands producer) now hours ≡ true
    → now' < now + hours * 3600
    → is_due
        (last_scan_at (tick registry calls a tick_minutes claimed_at now db).0.commands producer)
        now'
        hours
      ≡ false
unfolding tick
tick_resets registry calls a tick_minutes claimed_at now now' db c hours producer leads fresh late i
      e e' due soon =
    All-IsIn
      (IsReset registry db.commands now
        (tick registry calls a tick_minutes claimed_at now db).0.commands)
      db.connectors c
      (leader-IsReset registry calls now db (try_acquire_lease db.lease a claimed_at tick_minutes)
        leads fresh late)
      i hours producer now' e e' ((is_due_iff db.commands producer hours now).0 due) soon

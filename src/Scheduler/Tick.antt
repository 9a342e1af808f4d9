-- ===== src/Scheduler/Tick.antt =====
-- One tick of `scheduler_loop` (src/app/scheduler.py).
use work_behavior_analytics.Prelude.{
  ℕ, ◌+◌, Bool, true, false, String, none, List, [], ◌∷◌, ◌++◌, if◌then◌else◌,
}
use work_behavior_analytics.Commands.Registry.{Registry}
use work_behavior_analytics.Commands.Row.{CommandRow, Table, CreateRequest}
use work_behavior_analytics.Commands.Publisher.{Broker, Delivery}
use work_behavior_analytics.Commands.Service.{
  Result, ok, err, unknown_target, duplicate_id, not_found, invalid_transition,
  create_and_publish_command,
}
use work_behavior_analytics.Scheduler.Lease.{SchedulerLease, try_acquire_lease}
use work_behavior_analytics.Scheduler.Due.{Connector, get_due_connectors}

-- What the n-th creation of a tick meets: the value of uuid4(), the clock and the broker.
pub record Calls : Type 0 where
  pub id : ℕ → ℕ
  pub clock : ℕ → ℕ
  pub broker : ℕ → Broker

abbrev pub scan_request : String → CreateRequest
scan_request producer = record { command_type = "scan"; target = producer; parameters = none }

-- A failed insert leaves the session unusable: the later creations of the tick raise at once.
abbrev pub is_usable : Result CommandRow → Bool
is_usable (ok row) = true
is_usable (err (unknown_target t)) = true
is_usable (err (duplicate_id id)) = false
is_usable (err (not_found id)) = true
is_usable (err (invalid_transition a b)) = true

-- The `for` loop over the due connectors; an exception is logged.
unfoldable pub fire_each :
    Registry → Calls → ℕ → Table → List (String × String) → Table × List Delivery
fire_each registry calls n db [] = (db, [])
fire_each registry calls n db ((kind, producer) ∷ due) =
    let made =
      create_and_publish_command registry (calls.broker n) db (scan_request producer) (calls.id n)
        (calls.clock n) in
    let rest = fire_each registry calls (n + 1) made.table due in
    if is_usable made.result then (rest.0, made.sent ++ rest.1) else (made.table, made.sent)

-- The database of the app instances.
pub record Database : Type 0 where
  pub lease : List SchedulerLease
  pub connectors : List Connector
  pub commands : Table

abbrev pub tick_if_leader :
    Registry → Calls → ℕ → Database → Bool × List SchedulerLease → Database × List Delivery
tick_if_leader registry calls now db (false, lease) = (record db { lease = lease }, [])
tick_if_leader registry calls now db (true, lease) =
    let (commands, sent) =
      fire_each registry calls 0 db.commands
        (get_due_connectors registry db.commands db.connectors now) in
    (record db { lease = lease; commands = commands }, sent)

-- A tick of an instance: `claimed_at` is the clock at the lease and `now` at the due check.
unfoldable pub tick : Registry → Calls → String → ℕ → ℕ → ℕ → Database → Database × List Delivery
unfolding try_acquire_lease get_due_connectors fire_each
tick registry calls instance_id tick_minutes claimed_at now db =
    tick_if_leader registry calls now db
      (try_acquire_lease db.lease instance_id claimed_at tick_minutes)

-- ===== src/Scheduler/Examples.antt =====
-- Ticks of two app instances, and the theorems about the scheduler at these inputs.
use work_behavior_analytics.Prelude.{
  inl, IsIn, ◌+◌, true, false, ◌≡◌, ◌↔◌, refl, some, [], ◌∷◌, arith, All, length, eq_iff, text_key,
}
use work_behavior_analytics.Prelude.Dict.{lookup}
use work_behavior_analytics.Commands.Registry.{
  connector_registry, is_producer_target, known_targets,
}
use work_behavior_analytics.Commands.Publisher.{publish, publish_each}
use work_behavior_analytics.Commands.Service.{get_command, create_and_publish_command}
use work_behavior_analytics.Commands.Examples.{table, half}
use work_behavior_analytics.Scheduler.Lease.{SchedulerLease, may_claim, try_acquire_lease}
use work_behavior_analytics.Scheduler.Due.{
  is_due, Connector, producer_of, last_scan_at, get_due_connectors,
}
use work_behavior_analytics.Scheduler.Tick.{Calls, fire_each, Database, tick}
use work_behavior_analytics.Scheduler.Exclusive.{Attempt, attempts, leader_is_exclusive}
use work_behavior_analytics.Scheduler.Selection.{IsDue, get_due_connectors_iff}
use work_behavior_analytics.Scheduler.Quiet.{tick_resets}
use work_behavior_analytics.Scheduler.Quiet.Fired.{IsFresh}

abbrev expired : SchedulerLease
expired = record { held_by = some "a"; expires_at = 100 }

abbrev held : SchedulerLease
held = record { held_by = some "a"; expires_at = 100000 }

-- Disabled, and due all the same.
abbrev github : Connector
github = record { connector_type = "github"; enabled = false; scan_interval_hours = some 1 }

abbrev slack : Connector
slack = record { connector_type = "slack"; enabled = true; scan_interval_hours = some 1 }

abbrev database : Database
database = record { lease = expired ∷ []; connectors = github ∷ slack ∷ []; commands = table }

abbrev calls : Calls
calls = record { id = λ n. n + 10; clock = λ n. n + 5001; broker = λ n. half }

abbrev rival : Attempt
rival = record { instance_id = "c"; at = 5200; tick_minutes = 5 }

program : Unit {0}
unfolding lookup may_claim try_acquire_lease producer_of last_scan_at get_due_connectors
    is_producer_target known_targets get_command publish_each publish create_and_publish_command
    fire_each tick attempts
program = tt
  where
    due :
        get_due_connectors connector_registry table (github ∷ slack ∷ []) 5000
        ≡ ("github", "github-producer") ∷ []
    due = refl

    fired : length (tick connector_registry calls "b" 5 5000 5000 database).1 ≡ 1
    fired = refl

    failed_attempt : (attempts (held ∷ []) (rival ∷ [])).0 ≡ false ∷ []
    failed_attempt = refl

leader_is_exclusive_example :
    All
      (λ claimed. claimed ≡ false)
      (attempts (try_acquire_lease (expired ∷ []) "b" 5000 5).1 (rival ∷ [])).0
    × ((attempts (try_acquire_lease (expired ∷ []) "b" 5000 5).1 (rival ∷ [])).1
        ≡ (try_acquire_lease (expired ∷ []) "b" 5000 5).1)
unfolding try_acquire_lease may_claim
leader_is_exclusive_example =
    leader_is_exclusive expired "b" 5000 5 (rival ∷ []) refl
      ((λ e. ground (arith, eq_iff "c" "b"), omega arith), tt)

get_due_connectors_iff_example :
    IsIn
      ("github", "github-producer")
      (get_due_connectors connector_registry table (github ∷ slack ∷ []) 5000)
    ↔ IsDue connector_registry table (github ∷ slack ∷ []) 5000 ("github", "github-producer")
get_due_connectors_iff_example =
    get_due_connectors_iff connector_registry table (github ∷ slack ∷ []) 5000
      ("github", "github-producer")

calls-IsFresh : IsFresh calls 0 table
unfolding get_command
calls-IsFresh = record { free = λ m le. ground arith; distinct = λ m k e. omega arith }

tick_resets_example :
    is_due
      (last_scan_at
        (tick connector_registry calls "b" 5 5000 5000 database).0.commands
        "github-producer")
      8599
      1
    ≡ false
unfolding lookup try_acquire_lease may_claim producer_of last_scan_at
tick_resets_example =
    tick_resets connector_registry calls "b" 5 5000 5000 8599 database github 1 "github-producer"
      refl calls-IsFresh (λ m. omega arith) (inl refl) refl refl refl (omega arith)

-- ===== src/Daemon/Examples.antt =====
-- Runs of the daemon, and the theorems about it at these inputs.
use work_behavior_analytics.Prelude.{
  ℕ, ◌<◌, true, false, String, ◌≡◌, ◌≢◌, inl, inr, refl, Option, none, some, List, [], ◌∷◌, arith,
}
use work_behavior_analytics.Prelude.Text.{show_nat, strip, split_lines, slice_from}
use work_behavior_analytics.Prelude.Dict.{lookup, insert, erase}
use work_behavior_analytics.Prelude.Json.{Json, num, field, end, get}
use work_behavior_analytics.Commands.Row.{CommandRow, Envelope}
use work_behavior_analytics.Commands.Service.{
  get_command, update_command_status, validate_state_transition, allowed_from,
}
use work_behavior_analytics.Commands.Lifecycle.{IsTerminal}
use work_behavior_analytics.Commands.Lifecycle.History.{Later}
use work_behavior_analytics.Commands.Listing.{list_commands, newest_first}
use work_behavior_analytics.Commands.Examples.{row, table}
use work_behavior_analytics.Daemon.World.{
  delivered, lost_reply, Environment, api_request, update_status, get_command_status,
  finalize_if_active,
}
use work_behavior_analytics.Daemon.ScanResult.{new_scan_result, add_errors, summary, error_message}
use work_behavior_analytics.Daemon.State.{
  Daemon, verdict, patch, patch_running, finalize, spawn_scan, spawn_test, reap_children,
  finish_test, poll_test_children, poll_scan_children, poll_exits, reconcile_exit,
  find_pid_by_command_id,
}
use work_behavior_analytics.Daemon.Cancel.{cancel_scan, cancel_pid}
use work_behavior_analytics.Daemon.Loop.{
  Event, idle, invalid, received, child_exit, handle, run_events, dispatch, raised, run_scan,
}
use work_behavior_analytics.Daemon.System.{
  Deed, start, event, stop, scan_starts, scan_ends, late_finalize, run_system,
}
use work_behavior_analytics.Daemon.Safety.{run_system-Later, run_system-terminal}
use work_behavior_analytics.Daemon.Capacity.{IsWithin, run_events-IsWithin}
use work_behavior_analytics.Daemon.Reconcile.Delivered.{HasStatus}
use work_behavior_analytics.Daemon.Reconcile.Exits.{closed_status, poll_scan_children-closes}
use work_behavior_analytics.Daemon.Reconcile.Cancelled.{Cancelled, cancel_scan-Cancelled}

abbrev parse_number : Json → Option ℕ
parse_number (num n) = some n
parse_number _ = none

abbrev show_json : Json → String
show_json _ = "value"

abbrev good_network : Environment
good_network = record {
  transport = λ n. delivered;
  clock = λ n. n;
  max_scans = 1;
  alive = λ pid. true;
  parse_uuid = parse_number;
  show_uuid = show_nat;
}

abbrev lossy : Environment
lossy = record good_network { transport = λ n. lost_reply }

-- Child 7 runs scan 1, child 8 has exited from scan 3 with code 9.
abbrev daemon : Daemon
daemon = record {
  world = record { db = table; sent = 0 };
  children = (7, 1) ∷ [];
  exited = (8, (3, 9)) ∷ [];
  test_children = [];
  signalled = [];
}

abbrev cancel_one : Envelope
cancel_one = record {
  command_id = 3;
  command_type = "cancel";
  target = "github-producer";
  parameters = some (field "cancel_command_id" (num 1) end);
  issued_at = 5;
}

abbrev cancel_two : Envelope
cancel_two = record cancel_one { parameters = some (field "cancel_command_id" (num 2) end) }

abbrev events : List Event
events =
    received (record cancel_one { command_id = 2; command_type = "scan" }) 9
    ∷ child_exit ((7, 0) ∷ [])
    ∷ received (record cancel_one { command_id = 2; command_type = "scan" }) 9
    ∷ idle (λ pid. none)
    ∷ invalid
    ∷ []

abbrev deeds : List Deed
deeds =
    start "github-producer"
    ∷ event (idle (λ pid. none))
    ∷ scan_starts 2
    ∷ scan_ends 2 (raised "late")
    ∷ late_finalize 2 "lost" none "running"
    ∷ stop
    ∷ []

program : Unit {0}
unfolding get_command get validate_state_transition allowed_from update_command_status list_commands
    newest_first api_request update_status get_command_status finalize_if_active verdict patch
    patch_running finalize spawn_scan spawn_test reap_children finish_test poll_test_children
    poll_scan_children poll_exits reconcile_exit find_pid_by_command_id cancel_scan cancel_pid
    handle run_events dispatch run_scan run_system show_nat strip split_lines slice_from lookup
    insert erase add_errors summary error_message
program = tt

-- A log line before the verdict, and what is sent as the error.
verdict_example :
    verdict (record { returncode = 1; stdout = "INFO start\nFAILED: bad token\n"; stderr = "" })
    ≡ (false, some "bad token")
unfolding program
verdict_example = refl

message_example :
    error_message
      (record (add_errors new_scan_result (record { item = "a"; error = "boom" } ∷ [])) {
        items_processed = 12;
      })
    ≡ "1 of 12 configs failed. 1/1: boom"
unfolding program
message_example = refl

tick_example :
    (row' : CommandRow) × (get_command
        (handle good_network show_json daemon (idle (λ pid. none))).0.world.db
        3
      ≡ some row')
    × (row'.status ≡ "failed")
    × (row'.error_message ≡ some "Scan process exited unexpectedly (exit code 9)")
unfolding program
tick_example = (_, refl, refl, refl)

run_system-Later_example :
    (row' : CommandRow) × (get_command (run_system lossy show_json daemon deeds).world.db 1
      ≡ some row')
    × Later (row 1 "running" 10) row'
unfolding program
run_system-Later_example = run_system-Later lossy show_json daemon deeds 1 (row 1 "running" 10) refl

run_system-terminal_example :
    (row' : CommandRow) × (get_command (run_system lossy show_json daemon deeds).world.db 2
      ≡ some row')
    × (row'.status ≡ "completed")
unfolding program
run_system-terminal_example =
    run_system-terminal lossy show_json daemon deeds 2 (row 2 "completed" 20) refl (inl refl)

run_events-IsWithin_example : IsWithin 1 (run_events good_network show_json daemon events)
run_events-IsWithin_example = run_events-IsWithin good_network show_json daemon events (omega arith)

poll_scan_children-closes_example :
    HasStatus (poll_scan_children good_network daemon).world.db 3 (closed_status "accepted")
    × IsTerminal (closed_status "accepted")
unfolding program
poll_scan_children-closes_example =
    poll_scan_children-closes good_network daemon 3 "accepted" (λ n. refl) (inl refl)
      (record { row = row 3 "accepted" 30; found = refl; status_is = refl }) (inl (inr (inl refl)))

distinct : (a b : ℕ) → a < b → b ≢ a
distinct a b h = omega arith

cancel_scan-Cancelled_example :
    Cancelled 3 1 7 [] (cancel_scan good_network show_json daemon cancel_one)
unfolding program
cancel_scan-Cancelled_example =
    cancel_scan-Cancelled good_network show_json daemon cancel_one 1 (num 1) "running" (λ n. refl)
      (distinct 1 3 (omega arith)) refl refl
      (record { row = row 1 "running" 10; found = refl; status_is = refl })
      (record { row = row 3 "accepted" 30; found = refl; status_is = refl }) 7 refl refl (inr refl)

-- ===== src/Daemon/Loop.antt =====
-- The consume loop of `run_daemon`, its start and its end, and the scan child's `run_scan`, of
-- src/connectors/producers/daemon_common.py.
use work_behavior_analytics.Prelude.{
  ℕ, String, Option, none, some, List, [], ◌∷◌, ◌++◌ as ◌⧺◌, ◌==◌, text_key, if◌then◌else◌,
}
use work_behavior_analytics.Prelude.Dict.{Dict}
use work_behavior_analytics.Prelude.Json.{Json}
use work_behavior_analytics.Commands.Row.{CommandRow, Table, Envelope}
use work_behavior_analytics.Commands.Listing.{list_commands}
use work_behavior_analytics.Daemon.World.{
  Environment, World, api_request, update_status, running_update, final_update,
}
use work_behavior_analytics.Daemon.ScanResult.{ScanResult, summary, error_message}
use work_behavior_analytics.Daemon.State.{
  Daemon, finalize, spawn_scan, spawn_test, reap_children, Finished, poll_test_children,
  poll_scan_children,
}
use work_behavior_analytics.Daemon.Cancel.{cancel_scan}

-- What the loop answers to the queue.
pub data Answer : Type 0 where
  ack nack silent : Answer

-- What happens to the daemon: an idle tick, a message that does not validate, a valid one (with the
-- pid that a spawn would get), and the SIGCHLD handler with the children it reaps.
pub data Event : Type 0 where
  idle : (ℕ → Option Finished) → Event
  invalid : Event
  received : Envelope → ℕ → Event
  child_exit : List (ℕ × ℕ) → Event

-- The `if` chain over `command_type`; an unknown type is discarded.
unfoldable pub dispatch : Environment → (Json → String) → Daemon → Envelope → ℕ → Daemon
dispatch env show_json d envelope pid =
    if envelope.command_type == "scan"
    then spawn_scan env d envelope pid
    else if envelope.command_type == "test"
    then spawn_test env d envelope pid
    else if envelope.command_type == "cancel"
    then cancel_scan env show_json d envelope
    else d

unfoldable pub handle : Environment → (Json → String) → Daemon → Event → Daemon × Answer
handle env show_json d (idle poll) =
    (poll_scan_children env (poll_test_children env poll d), silent)
handle env show_json d invalid = (d, nack)
handle env show_json d (received envelope pid) = (dispatch env show_json d envelope pid, ack)
handle env show_json d (child_exit reaped) = (reap_children d reaped, silent)

unfoldable pub run_events : Environment → (Json → String) → Daemon → List Event → Daemon
unfolding handle
run_events env show_json d [] = d
run_events env show_json d (e ∷ rest) = run_events env show_json (handle env show_json d e).0 rest

-- The body of the loop of `_reconcile_startup_orphans`. The ids of the server's rows are well formed.
unfoldable pub fail_orphan : Environment → Daemon → CommandRow → Daemon
unfolding finalize
fail_orphan env d command =
    if command.command_type == "scan"
    then finalize env d command.command_id "Scan interrupted: producer restarted" none
    else d

unfoldable pub fail_orphans : Environment → Daemon → List CommandRow → Daemon
unfolding fail_orphan
fail_orphans env d [] = d
fail_orphans env d (command ∷ rest) = fail_orphans env (fail_orphan env d command) rest

abbrev pub orphans_of : Option (List CommandRow) → List CommandRow
orphans_of none = []
orphans_of (some commands) = commands

abbrev pub list_running : String → Table → List CommandRow × Table
list_running container db = (
  (list_commands db
      (record { status = some "running"; target = some container; command_type = none }) 100 0).0,
  db,
)

unfoldable pub reconcile_startup_orphans : Environment → Daemon → String → Daemon
unfolding fail_orphans
reconcile_startup_orphans env d container =
    let (reply, w) = api_request (list_running container) env d.world in
    fail_orphans env (record d { world = w }) (orphans_of reply)

-- One round of the `finally` block: the child's command is closed, then the child gets a SIGTERM.
unfoldable pub stop_child : Environment → String → Daemon → ℕ → ℕ → Daemon
unfolding finalize
stop_child env message d pid id =
    let closed = finalize env d id message none in
    if env.alive pid then record closed { signalled = closed.signalled ⧺ pid ∷ [] } else closed

unfoldable pub stop_children : Environment → String → Daemon → Dict ℕ ℕ → Daemon
unfolding stop_child
stop_children env message d [] = d
stop_children env message d ((pid, id) ∷ rest) =
    stop_children env message (stop_child env message d pid id) rest

unfoldable pub shut_down : Environment → Daemon → Daemon
unfolding stop_children
shut_down env d =
    let d' = stop_children env "Scan interrupted: producer shut down" d d.children in
    stop_children env "Test interrupted: producer shut down" d' d'.test_children

-- `scan_func()` returns a result, or it or the refresh of the settings raises.
pub data ScanOutcome : Type 0 where
  returned : ScanResult → ScanOutcome
  raised : String → ScanOutcome

abbrev pub report_scan : Environment → World → ℕ → ScanOutcome → World × ℕ
report_scan env w id (returned r) =
    if r.success
    then (
      update_status env w id (final_update "completed" (env.clock w.sent) none (some (summary r))),
      0,
    )
    else (
      update_status env w id
          (final_update "failed" (env.clock w.sent) (some (error_message r)) (some (summary r))),
      1,
    )
report_scan env w id (raised message) =
    (update_status env w id (final_update "failed" (env.clock w.sent) (some message) none), 1)

-- The report that comes before the scan.
abbrev pub begin_scan : Environment → World → ℕ → World
begin_scan env w id = update_status env w id (running_update (env.clock w.sent))

-- The world after the child's `run_scan`, and its exit code.
unfoldable pub run_scan : Environment → World → ℕ → ScanOutcome → World × ℕ
run_scan env w id outcome = report_scan env (begin_scan env w id) id outcome

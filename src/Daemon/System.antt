-- ===== src/Daemon/System.antt =====
-- The interleavings of a producer: its daemon starts, handles events and stops, while scan children
-- report for themselves (src/connectors/producers/daemon_common.py). Each deed is atomic: the two reports
-- of a scan are deeds of their own, and a reconciliation may write after other deeds what it read before.
use work_behavior_analytics.Prelude.{ℕ, String, Option, some, List, [], ◌∷◌}
use work_behavior_analytics.Prelude.Json.{Json, Fields}
use work_behavior_analytics.Daemon.World.{Environment, finalize_from}
use work_behavior_analytics.Daemon.State.{Daemon}
use work_behavior_analytics.Daemon.Loop.{
  Event, handle, reconcile_startup_orphans, shut_down, ScanOutcome, begin_scan, report_scan,
}

pub data Deed : Type 0 where
  start : String → Deed
  event : Event → Deed
  stop : Deed
  scan_starts : ℕ → Deed
  scan_ends : ℕ → ScanOutcome → Deed
  late_finalize : ℕ → String → Option Fields → String → Deed

-- `late_finalize` is the second half of `_finalize_if_active`, with a status that it read earlier. A new
-- daemon has no children. A stop ends the process, its children are signalled and forgotten.
unfoldable pub perform : Environment → (Json → String) → Daemon → Deed → Daemon
perform env show_json d (start container) =
    reconcile_startup_orphans env (record d { children = []; exited = []; test_children = [] })
      container
perform env show_json d (event e) = (handle env show_json d e).0
perform env show_json d stop = shut_down env d
perform env show_json d (scan_starts id) = record d { world = begin_scan env d.world id }
perform env show_json d (scan_ends id outcome) = record d {
  world = (report_scan env d.world id outcome).0;
}
perform env show_json d (late_finalize id message summary current) = record d {
  world = (finalize_from env id message summary (some current, d.world)).1;
}

unfoldable pub run_system : Environment → (Json → String) → Daemon → List Deed → Daemon
unfolding perform
run_system env show_json d [] = d
run_system env show_json d (x ∷ rest) = run_system env show_json (perform env show_json d x) rest

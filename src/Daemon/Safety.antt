-- ===== src/Daemon/Safety.antt =====
-- Nothing that the daemon does, whatever the network loses, takes a command back in its lifecycle
-- (src/connectors/producers/daemon_common.py against src/app/api/commands/v1/service.py).
pub mod Requests
pub mod Children
use work_behavior_analytics.Prelude.{
  ℕ, suc, ◌+◌, Bool, true, false, String, ◌≡◌, refl, ◌⊎◌, inl, inr, Option, none, some, List, [],
  ◌∷◌, ◌++◌ as ◌⧺◌, arith, ◌==◌, text_key, ℕ_key, if◌then◌else◌, leb, length, Bool-cases, contains,
}
use work_behavior_analytics.Prelude.Json.{Json, Fields}
use work_behavior_analytics.Prelude.Dict.{Dict, lookup}
use work_behavior_analytics.Commands.Row.{CommandRow, Table, StatusUpdate, Envelope}
use work_behavior_analytics.Commands.Service.{get_command, update_command_status}
use work_behavior_analytics.Commands.Lifecycle.{IsTerminal}
use work_behavior_analytics.Commands.Lifecycle.History.{
  Later, Advances, Advances-refl, Advances-trans, Advances-terminal, update-Advances,
}
use work_behavior_analytics.Daemon.World.{
  Transport, unreachable, unauthorized, refused, lost_reply, delivered, Environment, World, attempt,
  with_retry, api_request, update_status, get_command_status, finalize_if_active, finalize_from,
  status_of, terminal_states, final_update,
}
use work_behavior_analytics.Daemon.State.{
  Daemon, Exit, patch, patch_running, finalize, spawn_scan, spawn_test, reap_child, record_exit,
  reap_children, Finished, finish_test, poll_test_child, poll_tests, poll_test_children,
  reconcile_exit, poll_exits, poll_scan_children, verdict, find_pid_by_command_id,
}
use work_behavior_analytics.Daemon.Cancel.{
  cancel_orphan, cancel_running, cancel_gone, cancel_pid, cancel_parsed, cancel_value,
  cancel_target, cancel_scan,
}
use work_behavior_analytics.Daemon.Loop.{
  fail_orphan, stop_child, fail_orphans, orphans_of, list_running, reconcile_startup_orphans,
  stop_children, shut_down, ScanOutcome, returned, raised, run_scan, report_scan, Event, idle,
  invalid, received, child_exit, dispatch, handle, run_events,
}
use work_behavior_analytics.Daemon.Safety.Requests.{
  Keeps, Keeps-refl, Keeps-trans, Keeps-api_request, Keeps-update_status, Keeps-finalize_from,
  Keeps-finalize_if_active,
}
use work_behavior_analytics.Daemon.System.{
  Deed, start, event, stop, scan_starts, scan_ends, late_finalize, perform, run_system,
}
use work_behavior_analytics.Daemon.Safety.Children.{
  Keeps-patch, Keeps-patch_running, Keeps-finalize, Keeps-spawn_scan, Keeps-spawn_test,
  Keeps-poll_tests, Keeps-poll_exits,
}

module _ (env : Environment) where
  Keeps-cancel_orphan :
      (d : Daemon) (id target : ℕ) → Keeps d.world (cancel_orphan env d id target).world
  unfolding cancel_orphan
  Keeps-cancel_orphan d id target =
      Keeps-trans (Keeps-finalize env d target _ _)
        (Keeps-patch env (finalize env d target _ _) id _ _ _)

  Keeps-cancel_running :
      (d : Daemon) (id target pid : ℕ) → Keeps d.world (cancel_running env d id target pid).world
  unfolding cancel_running
  Keeps-cancel_running d id target pid =
      Keeps-trans (Keeps-update_status env d.world target _) (Keeps-update_status env _ id _)

  Keeps-cancel_gone :
      (d : Daemon) (id target pid : ℕ) → Keeps d.world (cancel_gone env d id target pid).world
  unfolding cancel_gone
  Keeps-cancel_gone d id target pid =
      Keeps-trans (Keeps-finalize_if_active env d.world target _ _) (Keeps-update_status env _ id _)

  Keeps-cancel_pid :
      (d : Daemon) (id target : ℕ) (o : Option ℕ)
      → Keeps d.world (cancel_pid env d id target o).world
  unfolding cancel_pid
  Keeps-cancel_pid d id target none = Keeps-cancel_orphan d id target
  Keeps-cancel_pid d id target (some pid) = elim (Bool-cases (env.alive pid)) [
    | inl there ↦ rw there (Keeps-cancel_running d id target pid)
    | inr gone ↦ rw gone (Keeps-cancel_gone d id target pid)
  ]

  Keeps-fail_orphan : (d : Daemon) (c : CommandRow) → Keeps d.world (fail_orphan env d c).world
  unfolding fail_orphan
  Keeps-fail_orphan d c = elim (Bool-cases (c.command_type == "scan")) [
    | inl scan ↦ rw scan (Keeps-finalize env d c.command_id _ _)
    | inr other ↦ rw other (Keeps-refl d.world)
  ]

  Keeps-fail_orphans :
      (d : Daemon) (commands : List CommandRow) → Keeps d.world (fail_orphans env d commands).world
  unfolding fail_orphans
  Keeps-fail_orphans d [] = Keeps-refl d.world
  Keeps-fail_orphans d (c ∷ rest) =
      Keeps-trans (Keeps-fail_orphan d c) (Keeps-fail_orphans (fail_orphan env d c) rest)

  Keeps-reconcile :
      (d : Daemon) (container : String)
      → Keeps d.world (reconcile_startup_orphans env d container).world
  unfolding reconcile_startup_orphans
  Keeps-reconcile d container =
      let (reply, w) = api_request (list_running container) env d.world in
      Keeps-trans (Keeps-api_request (list_running container) Advances-refl env d.world)
        (Keeps-fail_orphans (record d { world = w }) (orphans_of reply))

  Keeps-stop_child :
      (message : String) (d : Daemon) (pid id : ℕ)
      → Keeps d.world (stop_child env message d pid id).world
  unfolding stop_child
  Keeps-stop_child message d pid id = elim (Bool-cases (env.alive pid)) [
    | inl there ↦ rw there (Keeps-finalize_if_active env d.world id message none)
    | inr gone ↦ rw gone (Keeps-finalize_if_active env d.world id message none)
  ]

  Keeps-stop_children :
      (message : String) (d : Daemon) (children : Dict ℕ ℕ)
      → Keeps d.world (stop_children env message d children).world
  unfolding stop_children
  Keeps-stop_children message d [] = Keeps-refl d.world
  Keeps-stop_children message d ((pid, id) ∷ rest) =
      Keeps-trans (Keeps-stop_child message d pid id)
        (Keeps-stop_children message (stop_child env message d pid id) rest)

  Keeps-shut_down : (d : Daemon) → Keeps d.world (shut_down env d).world
  unfolding shut_down
  Keeps-shut_down d =
      let d' = stop_children env "Scan interrupted: producer shut down" d d.children in
      Keeps-trans (Keeps-stop_children _ d d.children) (Keeps-stop_children _ d' d'.test_children)

  Keeps-report_scan : (w : World) (id : ℕ) (o : ScanOutcome) → Keeps w (report_scan env w id o).0
  Keeps-report_scan w id (returned r) = elim (Bool-cases r.success) [
    | inl good ↦ rw good (Keeps-update_status env w id _)
    | inr bad ↦ rw bad (Keeps-update_status env w id _)
  ]
  Keeps-report_scan w id (raised message) = Keeps-update_status env w id _

  module _ (show_json : Json → String) where
    Keeps-cancel_parsed :
        (d : Daemon) (id : ℕ) (o : Option ℕ) (shown : String)
        → Keeps d.world (cancel_parsed env d id o shown).world
    Keeps-cancel_parsed d id none shown = Keeps-patch env d id "failed" _ _
    Keeps-cancel_parsed d id (some target) shown =
        Keeps-cancel_pid d id target (find_pid_by_command_id d.children target)

    Keeps-cancel_value :
        (d : Daemon) (id : ℕ) (o : Option Json)
        → Keeps d.world (cancel_value env show_json d id o).world
    Keeps-cancel_value d id none = Keeps-patch env d id "failed" _ _
    Keeps-cancel_value d id (some v) = Keeps-cancel_parsed d id (env.parse_uuid v) (show_json v)

    Keeps-cancel_scan :
        (d : Daemon) (e : Envelope) → Keeps d.world (cancel_scan env show_json d e).world
    unfolding cancel_scan
    Keeps-cancel_scan d e = Keeps-trans (Keeps-patch_running env d e.command_id) (
        Keeps-cancel_value (patch_running env d e.command_id) e.command_id
          (cancel_target e.parameters))

    Keeps-dispatch :
        (d : Daemon) (e : Envelope) (pid : ℕ) → Keeps d.world (dispatch env show_json d e pid).world
    unfolding dispatch
    Keeps-dispatch d e pid = elim (Bool-cases (e.command_type == "scan")) [
      | inl scan ↦ rw scan (Keeps-spawn_scan env d e pid)
      | inr a ↦ elim (Bool-cases (e.command_type == "test")) [
        | inl test ↦ rw (a, test) (Keeps-spawn_test env d e pid)
        | inr b ↦ elim (Bool-cases (e.command_type == "cancel")) [
          | inl cancel ↦ rw (a, b, cancel) (Keeps-cancel_scan d e)
          | inr c ↦ rw (a, b, c) (Keeps-refl d.world)
        ]
      ]
    ]

    Keeps-reap : (d : Daemon) (reaped : List (ℕ × ℕ)) → Keeps d.world (reap_children d reaped).world
    unfolding reap_children
    Keeps-reap d [] = Keeps-refl d.world
    Keeps-reap d ((pid, code) ∷ rest) =
        Keeps-trans (one (lookup d.children pid)) (Keeps-reap (reap_child d pid code) rest)
      where
        one : (o : Option ℕ) → Keeps d.world (record_exit d pid code o).world
        one none = Keeps-refl d.world
        one (some id) = Keeps-refl d.world

    Keeps-handle : (d : Daemon) (e : Event) → Keeps d.world (handle env show_json d e).0.world
    unfolding handle poll_test_children poll_scan_children
    Keeps-handle d (idle poll) =
        let d' = poll_test_children env poll d in
        Keeps-trans (Keeps-poll_tests env poll d d.test_children)
          (Keeps-poll_exits env d' d'.exited)
    Keeps-handle d invalid = Keeps-refl d.world
    Keeps-handle d (received e pid) = Keeps-dispatch d e pid
    Keeps-handle d (child_exit reaped) = Keeps-reap d reaped

    Keeps-perform : (d : Daemon) (x : Deed) → Keeps d.world (perform env show_json d x).world
    unfolding perform
    Keeps-perform d (start container) =
        Keeps-reconcile (record d { children = []; exited = []; test_children = [] }) container
    Keeps-perform d (event e) = Keeps-handle d e
    Keeps-perform d stop = Keeps-shut_down d
    Keeps-perform d (scan_starts id) = Keeps-update_status env d.world id _
    Keeps-perform d (scan_ends id o) = Keeps-report_scan d.world id o
    Keeps-perform d (late_finalize id message summary current) =
        Keeps-finalize_from env id message summary (some current) d.world

    Keeps-run_system :
        (d : Daemon) (xs : List Deed) → Keeps d.world (run_system env show_json d xs).world
    unfolding run_system
    Keeps-run_system d [] = Keeps-refl d.world
    Keeps-run_system d (x ∷ xs) =
        Keeps-trans (Keeps-perform d x) (Keeps-run_system (perform env show_json d x) xs)

-- Where the server finishes each update before the next: through any interleaving of daemon starts, events
-- and stops, of the two reports of each scan child, and of reconciliations that write by a status which
-- they read before any of these, whatever requests are lost, each row of the server keeps its
-- identity and its status stays or moves up the lifecycle.
pub run_system-Later :
    (env : Environment) (show_json : Json → String) (d : Daemon) (xs : List Deed) (id : ℕ)
    (row : CommandRow)
    → get_command d.world.db id ≡ some row
    → (row' : CommandRow) × (get_command (run_system env show_json d xs).world.db id ≡ some row')
      × Later row row'
run_system-Later env show_json d xs id row e = (Keeps-run_system env show_json d xs).rows id row e

-- Where the server finishes each update before the next: through any interleaving of daemon starts, events
-- and stops, of the two reports of each scan child, and of reconciliations that write by a status which
-- they read before any of these, whatever requests are lost, a command that is completed, failed
-- or cancelled keeps that status: a scan that has finished is not relabelled by a reconciliation, a
-- cancel, a restart or a late report.
pub run_system-terminal :
    (env : Environment) (show_json : Json → String) (d : Daemon) (xs : List Deed) (id : ℕ)
    (row : CommandRow)
    → get_command d.world.db id ≡ some row
    → IsTerminal row.status
    → (row' : CommandRow) × (get_command (run_system env show_json d xs).world.db id ≡ some row')
      × (row'.status ≡ row.status)
run_system-terminal env show_json d xs =
    Advances-terminal d.world.db (run_system env show_json d xs).world.db
      (Keeps-run_system env show_json d xs).rows

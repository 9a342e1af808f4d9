-- ===== src/Daemon/Capacity.antt =====
-- The limit MAX_CONCURRENT_SCANS of src/connectors/producers/daemon_common.py.
use work_behavior_analytics.Prelude.{
  String, ℕ, ◌≤◌, inl, inr, Option, none, some, List, [], ◌∷◌, arith, ℕ_key, text_key, length,
  Bool-cases, ◌==◌,
}
use work_behavior_analytics.Prelude.Json.{Json}
use work_behavior_analytics.Prelude.Dict.{Dict, length-insert-le, length-erase-le}
use work_behavior_analytics.Commands.Row.{Envelope}
use work_behavior_analytics.Daemon.World.{Environment}
use work_behavior_analytics.Daemon.State.{
  patch, patch_running, poll_test_child, Daemon, Exit, spawn_scan, spawn_test, reap_child,
  reap_children, Finished, finish_test, poll_tests, poll_test_children, reconcile_exit, poll_exits,
  poll_scan_children, find_pid_by_command_id,
}
use work_behavior_analytics.Daemon.Cancel.{
  cancel_scan, cancel_value, cancel_target, cancel_pid, cancel_parsed,
}
use work_behavior_analytics.Daemon.Loop.{
  Event, idle, invalid, received, child_exit, dispatch, handle, run_events,
}

pub record IsWithin (limit : ℕ) (d : Daemon) : Type 0 where
  pub scans : length d.children ≤ limit
  pub tests : length d.test_children ≤ limit

module _ (env : Environment) where
  spawn_scan-IsWithin :
      (d : Daemon) (e : Envelope) (pid : ℕ)
      → IsWithin env.max_scans d
      → IsWithin env.max_scans (spawn_scan env d e pid)
  unfolding spawn_scan
  spawn_scan-IsWithin d e pid h = ground (arith, length-insert-le d.children pid e.command_id)

  spawn_test-IsWithin :
      (d : Daemon) (e : Envelope) (pid : ℕ)
      → IsWithin env.max_scans d
      → IsWithin env.max_scans (spawn_test env d e pid)
  unfolding spawn_test
  spawn_test-IsWithin d e pid h = ground (arith, length-insert-le d.test_children pid e.command_id)

  reap_child-IsWithin :
      (d : Daemon) (pid code limit : ℕ) → IsWithin limit d → IsWithin limit (reap_child d pid code)
  unfolding reap_child
  reap_child-IsWithin d pid code limit h = ground (arith, length-erase-le d.children pid)

  reap-IsWithin :
      (d : Daemon) (limit : ℕ) (reaped : List (ℕ × ℕ))
      → IsWithin limit d
      → IsWithin limit (reap_children d reaped)
  unfolding reap_children
  reap-IsWithin d limit [] h = h
  reap-IsWithin d limit ((pid, code) ∷ rest) h =
      reap-IsWithin (reap_child d pid code) limit rest (reap_child-IsWithin d pid code limit h)

  finish_test-IsWithin :
      (d : Daemon) (pid id limit : ℕ) (f : Finished)
      → IsWithin limit d
      → IsWithin limit (finish_test env d pid id f)
  unfolding finish_test
  finish_test-IsWithin d pid id limit f h = ground (arith, length-erase-le d.test_children pid)

  poll_tests-IsWithin :
      (poll : ℕ → Option Finished) (d : Daemon) (keys : Dict ℕ ℕ) (limit : ℕ)
      → IsWithin limit d
      → IsWithin limit (poll_tests env poll d keys)
  unfolding poll_tests
  poll_tests-IsWithin poll d [] limit h = h
  poll_tests-IsWithin poll d ((pid, id) ∷ rest) limit h =
      poll_tests-IsWithin poll (poll_test_child env poll d pid id (poll pid)) rest limit
        (one (poll pid))
    where
      one : (o : Option Finished) → IsWithin limit (poll_test_child env poll d pid id o)
      one none = h
      one (some f) = finish_test-IsWithin d pid id limit f h

  poll_exits-IsWithin :
      (d : Daemon) (exits : Dict ℕ Exit) (limit : ℕ)
      → IsWithin limit d
      → IsWithin limit (poll_exits env d exits)
  unfolding poll_exits reconcile_exit
  poll_exits-IsWithin d [] limit h = h
  poll_exits-IsWithin d ((pid, (id, code)) ∷ rest) limit h =
      poll_exits-IsWithin (reconcile_exit env d pid (id, code)) rest limit
        (record { scans = h.scans; tests = h.tests })

  module _ (show_json : Json → String) (limit : ℕ) where
    cancel_pid-IsWithin :
        (d : Daemon) (id target : ℕ) (o : Option ℕ)
        → IsWithin limit d
        → IsWithin limit (cancel_pid env d id target o)
    unfolding cancel_pid
    cancel_pid-IsWithin d id target none h = record { scans = h.scans; tests = h.tests }
    cancel_pid-IsWithin d id target (some pid) h = ground (arith, length-erase-le d.children pid)

    cancel_value-IsWithin :
        (d : Daemon) (id : ℕ) (o : Option Json)
        → IsWithin limit d
        → IsWithin limit (cancel_value env show_json d id o)
    unfolding patch
    cancel_value-IsWithin d id none h = record { scans = h.scans; tests = h.tests }
    cancel_value-IsWithin d id (some v) h = parsed (env.parse_uuid v)
      where
        parsed : (o : Option ℕ) → IsWithin limit (cancel_parsed env d id o (show_json v))
        parsed none = record { scans = h.scans; tests = h.tests }
        parsed (some target) =
            cancel_pid-IsWithin d id target (find_pid_by_command_id d.children target) h

    cancel_scan-IsWithin :
        (d : Daemon) (e : Envelope)
        → IsWithin limit d
        → IsWithin limit (cancel_scan env show_json d e)
    unfolding cancel_scan patch_running
    cancel_scan-IsWithin d e h =
        cancel_value-IsWithin (patch_running env d e.command_id) e.command_id
          (cancel_target e.parameters) (record { scans = h.scans; tests = h.tests })

  module _ (show_json : Json → String) where
    dispatch-IsWithin :
        (d : Daemon) (e : Envelope) (pid : ℕ)
        → IsWithin env.max_scans d
        → IsWithin env.max_scans (dispatch env show_json d e pid)
    unfolding dispatch
    dispatch-IsWithin d e pid h = elim (Bool-cases (e.command_type == "scan")) [
      | inl scan ↦ rw scan (spawn_scan-IsWithin d e pid h)
      | inr a ↦ elim (Bool-cases (e.command_type == "test")) [
        | inl test ↦ rw (a, test) (spawn_test-IsWithin d e pid h)
        | inr b ↦ elim (Bool-cases (e.command_type == "cancel")) [
          | inl cancel ↦ rw (a, b, cancel) (cancel_scan-IsWithin show_json env.max_scans d e h)
          | inr c ↦ rw (a, b, c) h
        ]
      ]
    ]

    handle-IsWithin :
        (d : Daemon) (e : Event)
        → IsWithin env.max_scans d
        → IsWithin env.max_scans (handle env show_json d e).0
    unfolding handle poll_test_children poll_scan_children
    handle-IsWithin d (idle poll) h =
        let d' = poll_test_children env poll d in
        poll_exits-IsWithin d' d'.exited env.max_scans
          (poll_tests-IsWithin poll d d.test_children env.max_scans h)
    handle-IsWithin d invalid h = h
    handle-IsWithin d (received e pid) h = dispatch-IsWithin d e pid h
    handle-IsWithin d (child_exit reaped) h = reap-IsWithin d env.max_scans reaped h

-- A daemon within its limit stays there: at no time are there more scan children, or more test
-- children, than MAX_CONCURRENT_SCANS, whatever events come and in whatever order.
pub run_events-IsWithin :
    (env : Environment) (show_json : Json → String) (d : Daemon) (es : List Event)
    → IsWithin env.max_scans d
    → IsWithin env.max_scans (run_events env show_json d es)
unfolding run_events
run_events-IsWithin env show_json d [] h = h
run_events-IsWithin env show_json d (e ∷ es) h =
    run_events-IsWithin env show_json (handle env show_json d e).0 es
      (handle-IsWithin env show_json d e h)

-- ===== src/Daemon/State.antt =====
-- The daemon's module-level state and the functions on it, of
-- src/connectors/producers/daemon_common.py: spawning, reaping and polling children.
use work_behavior_analytics.Prelude.{
  ℕ, Bool, true, false, String, Option, none, some, List, [], ◌∷◌, ◌==◌, ℕ_key, text_key,
  if◌then◌else◌, length, leb, nat_beq,
}
use work_behavior_analytics.Prelude.Text.{
  ◌++◌, show_nat, strip, split_lines, slice_from, is_empty, starts_with,
}
use work_behavior_analytics.Prelude.Dict.{Dict, lookup, insert, erase}
use work_behavior_analytics.Prelude.Json.{Fields, end, field, num, str}
use work_behavior_analytics.Commands.Row.{Envelope}
use work_behavior_analytics.Daemon.World.{
  Environment, World, update_status, running_update, final_update, finalize_if_active,
}

-- An exited scan child: its command and its exit code.
abbrev pub Exit : Type 0
Exit = ℕ × ℕ

-- `_children`, `_exited` and `_test_children` by pid, the pids that a SIGTERM was sent to, and the
-- world. A test child's Popen object is named by its pid.
pub record Daemon : Type 0 where
  pub world : World
  pub children : Dict ℕ ℕ
  pub exited : Dict ℕ Exit
  pub test_children : Dict ℕ ℕ
  pub signalled : List ℕ

-- `_update_status` and `_finalize_if_active` from within the daemon.
unfoldable pub patch : Environment → Daemon → ℕ → String → Option String → Option Fields → Daemon
patch env d id status message summary = record d {
  world =
      update_status env d.world id (final_update status (env.clock d.world.sent) message summary);
}

unfoldable pub patch_running : Environment → Daemon → ℕ → Daemon
patch_running env d id = record d {
  world = update_status env d.world id (running_update (env.clock d.world.sent));
}

unfoldable pub finalize : Environment → Daemon → ℕ → String → Option Fields → Daemon
finalize env d id message summary = record d {
  world = (finalize_if_active env d.world id message summary).1;
}

-- `_spawn_scan`; `pid` is the process that Popen returns.
unfoldable pub spawn_scan : Environment → Daemon → Envelope → ℕ → Daemon
unfolding patch
spawn_scan env d envelope pid =
    if leb env.max_scans (length d.children)
    then patch env d envelope.command_id "failed"
        (some ("Max concurrent scans reached (" ++ (show_nat env.max_scans ++ ")"))) none
    else record d { children = insert d.children pid envelope.command_id }

-- `_spawn_test`
unfoldable pub spawn_test : Environment → Daemon → Envelope → ℕ → Daemon
unfolding patch
spawn_test env d envelope pid =
    if leb env.max_scans (length d.test_children)
    then patch env d envelope.command_id "failed"
        (some ("Max concurrent tests reached (" ++ (show_nat env.max_scans ++ ")"))) none
    else record d { test_children = insert d.test_children pid envelope.command_id }

abbrev pub record_exit : Daemon → ℕ → ℕ → Option ℕ → Daemon
record_exit d pid code none = d
record_exit d pid code (some id) = record d {
  children = erase d.children pid;
  exited = insert d.exited pid (id, code);
}

-- One round of the loop of `_reap_children`.
unfoldable pub reap_child : Daemon → ℕ → ℕ → Daemon
reap_child d pid code = record_exit d pid code (lookup d.children pid)

-- `_reap_children`, on the children that waitpid returns before it has no more.
unfoldable pub reap_children : Daemon → List (ℕ × ℕ) → Daemon
unfolding reap_child
reap_children d [] = d
reap_children d ((pid, code) ∷ rest) = reap_children (reap_child d pid code) rest

-- `_find_pid_by_command_id`
unfoldable pub find_pid_by_command_id : Dict ℕ ℕ → ℕ → Option ℕ
find_pid_by_command_id [] id = none
find_pid_by_command_id ((pid, cid) ∷ rest) id =
    if cid == id then some pid else find_pid_by_command_id rest id

-- What a finished test child leaves: `returncode`, and its decoded output, standard error where
-- standard output is empty.
pub record Finished : Type 0 where
  pub returncode : ℕ
  pub stdout : String
  pub stderr : String

abbrev pub raw_output : Finished → String
raw_output f = strip (if is_empty f.stdout then f.stderr else f.stdout)

-- The verdict of the first line that has one: success, or the error message.
unfoldable pub scan_lines : List String → Option (Bool × Option String)
scan_lines [] = none
scan_lines (line ∷ rest) =
    let stripped = strip line in
    let others = scan_lines rest in
    if starts_with stripped "SUCCESS:"
    then some (true, none)
    else if starts_with stripped "FAILED:"
    then some (false, some (slice_from 8 stripped))
    else others

-- `FAILED:` or `SUCCESS:`, else the exit code.
unfoldable pub verdict : Finished → Bool × Option String
unfolding scan_lines
verdict f = elim (scan_lines (split_lines (raw_output f))) [
  | some v ↦ v
  | none ↦ (nat_beq f.returncode 0, none)
]

-- The body of the loop of `_poll_test_children`, for a child that has finished.
unfoldable pub finish_test : Environment → Daemon → ℕ → ℕ → Finished → Daemon
unfolding patch patch_running
finish_test env d pid id f =
    let (success, message) = verdict f in
    let reported =
      patch env (patch_running env d id) id (if success then "completed" else "failed") message
        (some (field "message" (str (raw_output f)) end)) in
    record reported { test_children = erase reported.test_children pid }

abbrev pub poll_test_child :
    Environment → (ℕ → Option Finished) → Daemon → ℕ → ℕ → Option Finished → Daemon
poll_test_child env poll d pid id none = d
poll_test_child env poll d pid id (some f) = finish_test env d pid id f

-- The loop over `list(_test_children.keys())`; `poll` is what each child's `poll()` finds.
unfoldable pub poll_tests : Environment → (ℕ → Option Finished) → Daemon → Dict ℕ ℕ → Daemon
poll_tests env poll d [] = d
poll_tests env poll d ((pid, id) ∷ rest) =
    poll_tests env poll (poll_test_child env poll d pid id (poll pid)) rest

unfoldable pub poll_test_children : Environment → (ℕ → Option Finished) → Daemon → Daemon
unfolding poll_tests
poll_test_children env poll d = poll_tests env poll d d.test_children

abbrev pub exit_message : ℕ → String
exit_message code = "Scan process exited unexpectedly (exit code " ++ (show_nat code ++ ")")

-- The body of the loop of `_poll_scan_children`.
unfoldable pub reconcile_exit : Environment → Daemon → ℕ → Exit → Daemon
unfolding finalize
reconcile_exit env d pid (id, code) =
    finalize env (record d { exited = erase d.exited pid }) id (exit_message code)
      (some (field "exit_code" (num code) end))

unfoldable pub poll_exits : Environment → Daemon → Dict ℕ Exit → Daemon
poll_exits env d [] = d
poll_exits env d ((pid, e) ∷ rest) = poll_exits env (reconcile_exit env d pid e) rest

unfoldable pub poll_scan_children : Environment → Daemon → Daemon
unfolding poll_exits
poll_scan_children env d = poll_exits env d d.exited

-- ===== src/Daemon/Cancel.antt =====
-- `_cancel_scan` of src/connectors/producers/daemon_common.py.
use work_behavior_analytics.Prelude.{
  ℕ, String, Option, none, some, [], ◌∷◌, ◌++◌ as ◌⧺◌, ℕ_key, if◌then◌else◌,
}
use work_behavior_analytics.Prelude.Text.{◌++◌}
use work_behavior_analytics.Prelude.Dict.{erase}
use work_behavior_analytics.Prelude.Json.{Json, is_falsy, Fields, end, field, str, get}
use work_behavior_analytics.Commands.Row.{Envelope}
use work_behavior_analytics.Daemon.World.{Environment}
use work_behavior_analytics.Daemon.State.{
  Daemon, patch, patch_running, finalize, find_pid_by_command_id,
}

-- `(envelope.parameters or {}).get("cancel_command_id")`, if it is truthy
abbrev pub if_truthy : Option Json → Option Json
if_truthy none = none
if_truthy (some v) = if is_falsy v then none else some v

abbrev pub cancel_target : Option Fields → Option Json
cancel_target none = none
cancel_target (some p) = if_truthy (get p "cancel_command_id")

abbrev pub report : String → Option Fields
report message = some (field "message" (str message) end)

-- No child runs the target: it is orphaned.
unfoldable pub cancel_orphan : Environment → Daemon → ℕ → ℕ → Daemon
unfolding patch finalize
cancel_orphan env d id target =
    patch env (finalize env d target "Scan process not found — orphaned" none) id "completed" none
      (report ("No running scan found for " ++ env.show_uuid target))

-- The child took the signal.
unfoldable pub cancel_running : Environment → Daemon → ℕ → ℕ → ℕ → Daemon
unfolding patch
cancel_running env d id target pid =
    let killed = record d { signalled = d.signalled ⧺ pid ∷ []; children = erase d.children pid } in
    patch env (patch env killed target "cancelled" none none) id "completed" none
      (some (field "cancelled_command_id" (str (env.show_uuid target)) end))

-- ProcessLookupError
unfoldable pub cancel_gone : Environment → Daemon → ℕ → ℕ → ℕ → Daemon
unfolding patch finalize
cancel_gone env d id target pid =
    let dropped = record d { children = erase d.children pid } in
    patch env (finalize env dropped target "Scan process exited before cancel" none) id "completed"
      none (report ("Process already exited for " ++ env.show_uuid target))

unfoldable pub cancel_pid : Environment → Daemon → ℕ → ℕ → Option ℕ → Daemon
unfolding cancel_orphan cancel_running cancel_gone
cancel_pid env d id target none = cancel_orphan env d id target
cancel_pid env d id target (some pid) =
    if env.alive pid then cancel_running env d id target pid else cancel_gone env d id target pid

-- `str(target_command_id_str)` in the message is the value's text.
abbrev pub cancel_parsed : Environment → Daemon → ℕ → Option ℕ → String → Daemon
cancel_parsed env d id none shown =
    patch env d id "failed" (some ("Invalid cancel_command_id: " ++ shown)) none
cancel_parsed env d id (some target) shown =
    cancel_pid env d id target (find_pid_by_command_id d.children target)

abbrev pub cancel_value : Environment → (Json → String) → Daemon → ℕ → Option Json → Daemon
cancel_value env show_json d id none =
    patch env d id "failed" (some "Missing cancel_command_id parameter") none
cancel_value env show_json d id (some v) = cancel_parsed env d id (env.parse_uuid v) (show_json v)

-- The cancel command is first marked as running. `show_json` is str() of a decoded value.
unfoldable pub cancel_scan : Environment → (Json → String) → Daemon → Envelope → Daemon
unfolding cancel_pid patch patch_running
cancel_scan env show_json d envelope =
    cancel_value env show_json (patch_running env d envelope.command_id) envelope.command_id
      (cancel_target envelope.parameters)

-- ===== src/Daemon/World.antt =====
-- What the daemon sees of the outside, and its calls of the app's API: `_api_request`,
-- `_update_status`, `_get_command_status` and `_finalize_if_active` of
-- src/connectors/producers/daemon_common.py. The server's side of a request is the API's own
-- operation on the table (Commands/Service).
use work_behavior_analytics.Prelude.{
  ℕ, ◌+◌, Bool, true, false, String, Option, none, some, List, [], ◌∷◌, text_key, if◌then◌else◌,
  contains,
}
use work_behavior_analytics.Prelude.Json.{Json, Fields}
use work_behavior_analytics.Commands.Row.{CommandRow, Table, StatusUpdate}
use work_behavior_analytics.Commands.Service.{get_command, update_command_status}

-- What becomes of one HTTP request. In the first three the server does nothing, and the caller has an
-- exception, a 401 or another error status; with `lost_reply` the server has acted and the caller
-- still has an exception.
pub data Transport : Type 0 where
  unreachable unauthorized refused lost_reply delivered : Transport

-- The environment: the fate of each request by its number, the clock at each request, the limit
-- MAX_CONCURRENT_SCANS, whether a process is there for a signal, and uuid.UUID(str(v)) and str(id).
pub record Environment : Type 0 where
  pub transport : ℕ → Transport
  pub clock : ℕ → ℕ
  pub max_scans : ℕ
  pub alive : ℕ → Bool
  pub parse_uuid : Json → Option ℕ
  pub show_uuid : ℕ → String

-- The server's table, and how many requests have been sent.
pub record World : Type 0 where
  pub db : Table
  pub sent : ℕ

module _ {A : Type 0} (serve : Table → A × Table) where
  -- One `send`: the answer, if one came back with a success or an error of the operation itself.
  abbrev pub attempt : Transport → World → Option A × World
  attempt unreachable w = (none, record w { sent = w.sent + 1 })
  attempt unauthorized w = (none, record w { sent = w.sent + 1 })
  attempt refused w = (none, record w { sent = w.sent + 1 })
  attempt lost_reply w = (none, record w { db = (serve w.db).1; sent = w.sent + 1 })
  attempt delivered w = (some (serve w.db).0, record w { db = (serve w.db).1; sent = w.sent + 1 })

  -- A 401 is retried once with a fresh token.
  abbrev pub with_retry : Environment → Transport → World → Option A × World
  with_retry env unauthorized w =
      attempt (env.transport (w.sent + 1)) (record w { sent = w.sent + 1 })
  with_retry env t w = attempt t w

  unfoldable pub api_request : Environment → World → Option A × World
  api_request env w = with_retry env (env.transport w.sent) w

unfoldable pub update_status : Environment → World → ℕ → StatusUpdate → World
unfolding api_request
update_status env w id u = (api_request (λ db. update_command_status db id u) env w).1

abbrev pub status_of : Option CommandRow → Option String
status_of none = none
status_of (some row) = some row.status

abbrev pub join : Option (Option String) → Option String
join none = none
join (some o) = o

-- A missing row is a 404, which `raise_for_status` turns into `None`.
unfoldable pub get_command_status : Environment → World → ℕ → Option String × World
unfolding api_request
get_command_status env w id =
    let (reply, w') = api_request (λ db. (status_of (get_command db id), db)) env w in
    (join reply, w')

abbrev pub terminal_states : List String
terminal_states = "completed" ∷ "failed" ∷ "cancelled" ∷ []

-- StatusUpdate(status="running", started_at=now)
abbrev pub running_update : ℕ → StatusUpdate
running_update now = record {
  status = "running";
  error_message = none;
  started_at = some now;
  completed_at = none;
  result_summary = none;
}

-- StatusUpdate(status=status, completed_at=now, …)
abbrev pub final_update : String → ℕ → Option String → Option Fields → StatusUpdate
final_update status now message summary = record {
  status = status;
  error_message = message;
  started_at = none;
  completed_at = some now;
  result_summary = summary;
}

abbrev pub finalize_from :
    Environment → ℕ → String → Option Fields → Option String × World → Bool × World
finalize_from env id message summary (none, w) = (false, w)
finalize_from env id message summary (some current, w) =
    if contains terminal_states current then (false, w) else (
      true,
      update_status env w id (final_update "failed" (env.clock w.sent) (some message) summary),
    )

unfoldable pub finalize_if_active : Environment → World → ℕ → String → Option Fields → Bool × World
unfolding get_command_status update_status
finalize_if_active env w id message summary =
    finalize_from env id message summary (get_command_status env w id)

-- ===== src/Commands/Examples.antt =====
-- Runs of the command operations, and the theorems about them at these inputs.
use work_behavior_analytics.Prelude.{
  ℕ, true, String, ◌≡◌, inl, refl, none, some, List, [], ◌∷◌, length, ◌==◌, text_key,
}
use work_behavior_analytics.Commands.Registry.{
  connector_registry, is_producer_target, known_targets,
}
use work_behavior_analytics.Commands.Row.{CommandRow, Table, CreateRequest, StatusUpdate}
use work_behavior_analytics.Commands.Publisher.{Broker, publish}
use work_behavior_analytics.Commands.Service.{
  validate_state_transition, allowed_from, get_command, update_command_status,
  create_and_publish_command,
}
use work_behavior_analytics.Commands.Lifecycle.Update.{Outcome, update_command_status-Outcome}
use work_behavior_analytics.Commands.Lifecycle.History.{run_updates, terminal_row_is_written}
use work_behavior_analytics.Commands.Creation.{IsUnique, update-IsUnique}
use work_behavior_analytics.Commands.Listing.{Query, list_commands, newest_first}

abbrev pub row : ℕ → String → ℕ → CommandRow
row id status created = record {
  command_id = id;
  command_type = "scan";
  target = "github-producer";
  parameters = none;
  status = status;
  created_at = created;
  started_at = none;
  completed_at = none;
  error_message = none;
  result_summary = none;
}

abbrev pub table : Table
table = row 1 "running" 10 ∷ row 2 "completed" 20 ∷ row 3 "accepted" 30 ∷ []

abbrev to_status : String → StatusUpdate
to_status s = record {
  status = s;
  error_message = some "late";
  started_at = none;
  completed_at = some 50;
  result_summary = none;
}

abbrev request : CreateRequest
request = record { command_type = "scan"; target = "*"; parameters = none }

-- A broker that loses the connection at its second target.
abbrev pub half : Broker
half = record { connects = true; accepts = λ k. k == "command_n_control.github-producer" }

abbrev late_updates : List (ℕ × StatusUpdate)
late_updates = (2, to_status "failed") ∷ (1, to_status "completed") ∷ (2, to_status "running") ∷ []

abbrev all_scans : Query
all_scans = record { status = none; target = some "github-producer"; command_type = some "scan" }

program : Unit {0}
unfolding get_command validate_state_transition allowed_from update_command_status
    create_and_publish_command publish is_producer_target known_targets list_commands newest_first
    run_updates
program = tt

known :
    known_targets connector_registry
    ≡ "github-producer" ∷ "jira-producer" ∷ "confluence-producer" ∷ []
unfolding program
known = refl

-- The broadcast fails at its second target: one message is out, and the row says failed.
half_broadcast :
    (length (create_and_publish_command connector_registry half table request 4 40).sent ≡ 1)
    × ((get_command (create_and_publish_command connector_registry half table request 4 40).table 4)
        ≡ some (record (row 4 "failed" 40) {
          target = "*";
          error_message = some "Failed to publish to RabbitMQ";
        }))
unfolding program
half_broadcast = (refl, refl)

update_command_status-Outcome_example :
    Outcome table 2 (to_status "failed") (update_command_status table 2 (to_status "failed"))
update_command_status-Outcome_example = update_command_status-Outcome table 2 (to_status "failed")

terminal_row_is_written_example :
    (row' : CommandRow) × (get_command (update_command_status table 2 (to_status "completed")).1 2
      ≡ some row')
    × (row'.status ≡ "completed")
    × (row'.error_message ≡ some "late")
unfolding program
terminal_row_is_written_example =
    terminal_row_is_written table 2 (row 2 "completed" 20) (to_status "completed") "late" refl
      (inl refl) refl refl

update-IsUnique_example : IsUnique (update_command_status table 2 (to_status "failed")).1
unfolding program
update-IsUnique_example = update-IsUnique table 2 (to_status "failed") (refl, (refl, (refl, tt)))

listed : (list_commands table all_scans 2 0).0 ≡ row 3 "accepted" 30 ∷ row 2 "completed" 20 ∷ []
unfolding program
listed = refl

-- ===== src/Commands/Row.antt =====
-- A row of the table command_status (src/app/db/models/command_status.py), and the requests of
-- src/app/api/commands/v1/models.py. An id is the number that the UUID stands for.
use work_behavior_analytics.Prelude.{ℕ, String, Option, List}
use work_behavior_analytics.Prelude.Json.{Fields}

pub record CommandRow : Type 0 where
  pub command_id : ℕ
  pub command_type : String
  pub target : String
  pub parameters : Option Fields
  pub status : String
  pub created_at : ℕ
  pub started_at : Option ℕ
  pub completed_at : Option ℕ
  pub error_message : Option String
  pub result_summary : Option Fields

-- The rows of the table, in the order of their insertion.
abbrev pub Table : Type 0
Table = List CommandRow

pub record CreateRequest : Type 0 where
  pub command_type : String
  pub target : String
  pub parameters : Option Fields

pub record StatusUpdate : Type 0 where
  pub status : String
  pub error_message : Option String
  pub started_at : Option ℕ
  pub completed_at : Option ℕ
  pub result_summary : Option Fields

pub record Envelope : Type 0 where
  pub command_id : ℕ
  pub command_type : String
  pub target : String
  pub parameters : Option Fields
  pub issued_at : ℕ

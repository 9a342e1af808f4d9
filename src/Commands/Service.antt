-- ===== src/Commands/Service.antt =====
-- src/app/api/commands/v1/service.py: creating, reading and updating command rows.
use work_behavior_analytics.Prelude.{
  ℕ, Bool, true, false, not, ◌&&◌, String, List, [], ◌∷◌, ◌++◌, Option, none, some, ◌==◌, ℕ_key,
  text_key, if◌then◌else◌, contains, or_else,
}
use work_behavior_analytics.Prelude.Dict.{Dict, lookup}
use work_behavior_analytics.Commands.Registry.{Registry, is_producer_target, known_targets}
use work_behavior_analytics.Commands.Row.{CommandRow, Table, CreateRequest, StatusUpdate, Envelope}
use work_behavior_analytics.Commands.Publisher.{Broker, Delivery, publish}

-- The `ValueError`s of the module, and the violated unique key that `flush` reports.
pub data ServiceError : Type 0 where
  unknown_target : String → ServiceError
  duplicate_id : ℕ → ServiceError
  not_found : ℕ → ServiceError
  invalid_transition : String → String → ServiceError

pub data Result {ℓ} (A : Type ℓ) : Type ℓ where
  ok : A → Result A
  err : ServiceError → Result A

abbrev pub valid_transitions : Dict String (List String)
valid_transitions =
    ("pending", "accepted" ∷ "failed" ∷ [])
    ∷ ("accepted", "running" ∷ "failed" ∷ "cancelled" ∷ [])
    ∷ ("running", "completed" ∷ "failed" ∷ "cancelled" ∷ [])
    ∷ ("completed", [])
    ∷ ("failed", [])
    ∷ ("cancelled", [])
    ∷ []

-- `_VALID_TRANSITIONS.get(current, set())`
unfoldable pub allowed_from : String → List String
unfolding lookup
allowed_from current = elim (lookup valid_transitions current) [ none ↦ [] | some states ↦ states ]

unfoldable pub validate_state_transition : String → String → Result (Unit {0})
validate_state_transition current new =
    if current == new
    then ok tt
    else if contains (allowed_from current) new
    then ok tt
    else err (invalid_transition current new)

-- The first row with the id; the column is unique.
unfoldable pub get_command : Table → ℕ → Option CommandRow
get_command [] id = none
get_command (row ∷ rows) id = if row.command_id == id then some row else get_command rows id

-- The assignments of `update_command_status`: a field that is `None` in the update is kept.
unfoldable pub apply_update : CommandRow → StatusUpdate → CommandRow
apply_update cmd u = record cmd {
  status = u.status;
  error_message = or_else u.error_message cmd.error_message;
  started_at = or_else u.started_at cmd.started_at;
  completed_at = or_else u.completed_at cmd.completed_at;
  result_summary = or_else u.result_summary cmd.result_summary;
}

-- The commit writes the object back into its row.
unfoldable pub store_row : Table → CommandRow → Table
store_row [] cmd = []
store_row (row ∷ rows) cmd =
    if row.command_id == cmd.command_id then cmd ∷ rows else row ∷ store_row rows cmd

abbrev pub finish_update :
    Table → CommandRow → StatusUpdate → Result (Unit {0}) → Result CommandRow × Table
finish_update db cmd u (err e) = (err e, db)
finish_update db cmd u (ok _) = (ok (apply_update cmd u), store_row db (apply_update cmd u))

abbrev pub update_found : Table → ℕ → StatusUpdate → Option CommandRow → Result CommandRow × Table
update_found db id u none = (err (not_found id), db)
update_found db id u (some cmd) =
    finish_update db cmd u (validate_state_transition cmd.status u.status)

unfoldable pub update_command_status : Table → ℕ → StatusUpdate → Result CommandRow × Table
unfolding apply_update store_row
update_command_status db id u = update_found db id u (get_command db id)

abbrev pub new_row : CreateRequest → ℕ → ℕ → CommandRow
new_row request id now = record {
  command_id = id;
  command_type = request.command_type;
  target = request.target;
  parameters = request.parameters;
  status = "pending";
  created_at = now;
  started_at = none;
  completed_at = none;
  error_message = none;
  result_summary = none;
}

abbrev pub envelope_of : CreateRequest → ℕ → ℕ → Envelope
envelope_of request id now = record {
  command_id = id;
  command_type = request.command_type;
  target = request.target;
  parameters = request.parameters;
  issued_at = now;
}

-- The two ends of the `try`.
abbrev pub settle : CommandRow → Bool → CommandRow
settle cmd true = record cmd { status = "accepted" }
settle cmd false = record cmd {
  status = "failed";
  error_message = some "Failed to publish to RabbitMQ";
}

-- What a call leaves behind: its result, the table, and the messages that the exchange took.
pub record Created : Type 0 where
  pub result : Result CommandRow
  pub table : Table
  pub sent : List Delivery

abbrev pub refuse : Table → ServiceError → Created
refuse db e = record { result = err e; table = db; sent = [] }

abbrev pub insert_and_publish : Registry → Broker → Table → CreateRequest → ℕ → ℕ → Created
insert_and_publish registry broker db request id now =
    let (sent, done) = publish broker (known_targets registry) (envelope_of request id now) in
    let cmd = settle (new_row request id now) done in
    record { result = ok cmd; table = db ++ cmd ∷ []; sent = sent }

-- `id` is the value of uuid4() and `now` that of datetime.now().
unfoldable pub create_and_publish_command :
    Registry → Broker → Table → CreateRequest → ℕ → ℕ → Created
create_and_publish_command registry broker db request id now =
    if not (request.target == "*") && not (is_producer_target registry request.target)
    then refuse db (unknown_target request.target)
    else elim (get_command db id) [
      | some _ ↦ refuse db (duplicate_id id)
      | none ↦ insert_and_publish registry broker db request id now
    ]

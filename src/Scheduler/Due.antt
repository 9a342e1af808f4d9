-- ===== src/Scheduler/Due.antt =====
-- Which connectors are due: `_get_due_connectors` of src/app/scheduler.py.
use work_behavior_analytics.Prelude.{
  ℕ, ◌+◌, ◌*◌, leb, Bool, true, ◌&&◌, String, Option, none, some, List, [], ◌∷◌, ◌==◌, text_key,
  if◌then◌else◌,
}
use work_behavior_analytics.Prelude.Text.{is_empty}
use work_behavior_analytics.Prelude.Dict.{lookup}
use work_behavior_analytics.Commands.Registry.{Registry}
use work_behavior_analytics.Commands.Row.{CommandRow, Table}

-- The columns of a connector (src/app/db/models/connector.py) that scheduling could depend on.
pub record Connector : Type 0 where
  pub connector_type : String
  pub enabled : Bool
  pub scan_interval_hours : Option ℕ

-- `if not producer: continue`
abbrev pub non_empty : Option (Option String) → Option String
non_empty none = none
non_empty (some none) = none
non_empty (some (some p)) = if is_empty p then none else some p

unfoldable pub producer_of : Registry → Connector → Option String
unfolding lookup
producer_of registry connector = non_empty (lookup registry connector.connector_type)

abbrev pub is_scan_of : String → CommandRow → Bool
is_scan_of producer row = (row.target == producer) && (row.command_type == "scan")

abbrev pub later : ℕ → Option ℕ → Option ℕ
later t none = some t
later t (some u) = if leb t u then some u else some t

-- SELECT max(created_at) of the scans of a producer
unfoldable pub last_scan_at : Table → String → Option ℕ
last_scan_at [] producer = none
last_scan_at (row ∷ db) producer =
    let last = last_scan_at db producer in
    if is_scan_of producer row then later row.created_at last else last

-- `now − last_scan_at >= interval`
abbrev pub is_due : Option ℕ → ℕ → ℕ → Bool
is_due none now hours = true
is_due (some last) now hours = leb (last + hours * 3600) now

abbrev pub add_due :
    Table
    → ℕ
    → Connector
    → Option ℕ
    → Option String
    → List (String × String)
    → List (String × String)
add_due db now connector none producer rest = rest
add_due db now connector (some hours) none rest = rest
add_due db now connector (some hours) (some producer) rest =
    if is_due (last_scan_at db producer) now hours
    then (connector.connector_type, producer) ∷ rest
    else rest

unfoldable pub get_due_connectors : Registry → Table → List Connector → ℕ → List (String × String)
unfolding last_scan_at producer_of
get_due_connectors registry db [] now = []
get_due_connectors registry db (connector ∷ rest) now =
    add_due db now connector connector.scan_interval_hours (producer_of registry connector)
      (get_due_connectors registry db rest now)

-- ===== src/Settings/Config.antt =====
-- src/common/runtime_settings/config.py: the fields of `RuntimeConfig` and their validation, and the
-- snapshot of src/common/runtime_settings/cache.py without its lock. A value is a JSON document; the
-- numbers are natural, and every bound is at least zero.
use work_behavior_analytics.Prelude.{
  ℕ, Bool, true, false, ◌&&◌, String, Option, none, some, List, [], ◌∷◌, text_key, leb,
  if◌then◌else◌,
}
use work_behavior_analytics.Prelude.Dict.{Dict, lookup}
use work_behavior_analytics.Prelude.Json.{Json, null, bool, num, str, arr, obj}

-- What the values come from: the environment, Python's `int` of a text, what pydantic takes as a
-- number, and the time zones of `zoneinfo`; and whether an event reaches the broker.
pub record Env : Type 0 where
  pub environ : String → Option String
  pub int_of : String → Option ℕ
  pub lax_int : String → Option ℕ
  pub is_timezone : String → Bool
  pub publishes : List String → Bool

-- A default; of a number, also its least and its greatest value.
pub data Kind : Type 0 where
  int_field : ℕ → ℕ → Option ℕ → Kind
  flag_field : Bool → Kind
  text_field : String → Kind
  timezone_field : String → Kind

-- `RuntimeConfig.model_fields`
abbrev pub fields : List (String × Kind)
fields =
    ("HTTP_REQUEST_TIMEOUT", int_field 60 1 none)
    ∷ ("NEO4J_QUERY_TIMEOUT", int_field 10 1 none)
    ∷ ("GRAPH_UI_MAX_NODES_TO_EXPAND", int_field 20 1 none)
    ∷ ("GRAPH_UI_MAX_NODE_LABEL_CHARS", int_field 10 4 none)
    ∷ ("CONNECTOR_SCAN_POLL_INTERVAL", int_field 5000 500 none)
    ∷ ("RECENT_ACTIONS_LIMIT", int_field 5 1 (some 50))
    ∷ ("RETRY_BUDGET_SECONDS", int_field 3600 1 none)
    ∷ ("RETRY_BACKOFF_CAP_SECONDS", int_field 30 1 none)
    ∷ ("RETRY_BASE_DELAY_SECONDS", int_field 1 1 none)
    ∷ ("ISSUE_DAYS_LIMIT", int_field 60 1 none)
    ∷ ("TIMEZONE", timezone_field "UTC")
    ∷ ("UI_DATETIME_FORMAT", text_field "%b %d, %Y %I:%M %p")
    ∷ ("UI_DATE_FORMAT", text_field "%b %d, %Y")
    ∷ ("AUGMENTATION_HISTORY_TURNS", int_field 5 0 none)
    ∷ ("ES_CHAIN_MAX_RESULTS", int_field 5 1 none)
    ∷ ("MAX_MCP_ITERATIONS", int_field 3 1 none)
    ∷ ("FF_NEO4J_USE_PROVIDER_PIPELINE", flag_field false)
    ∷ ("LLM_PROVIDER", text_field "openai")
    ∷ ("LLM_MODEL", text_field "gpt-5")
    ∷ ("MAX_TOKENS", int_field 16000 1000 none)
    ∷ ("GITHUB_MCP_ENABLED", flag_field false)
    ∷ ("ATLASSIAN_MCP_ENABLED", flag_field false)
    ∷ ("NEO4J_AI_LOOKUP_ENABLED", flag_field true)
    ∷ ("ELASTICSEARCH_AI_LOOKUP_ENABLED", flag_field true)
    ∷ ("COMMIT_DAYS_LIMIT", int_field 60 1 none)
    ∷ ("PULL_REQUEST_DAYS_LIMIT", int_field 60 1 none)
    ∷ ("IDENTITY_REFRESH_DAYS", int_field 7 0 none)
    ∷ ("MAX_TEAM_SIZE", int_field 100 1 none)
    ∷ ("JIRA_LOOKBACK_DAYS", int_field 90 1 none)
    ∷ ("JIRA_MAX_RESULTS_PER_PAGE", int_field 100 1 (some 500))
    ∷ ("CONFLUENCE_LOOKBACK_DAYS", int_field 60 1 none)
    ∷ ("JIRA_EPIC_TEAM_FIELD", text_field "Team")
    ∷ ("JIRA_ISSUE_TEAM_FIELD", text_field "Team")
    ∷ ("JIRA_EPIC_START_DATE_FIELD", text_field "created")
    ∷ ("JIRA_EPIC_DUE_DATE_FIELD", text_field "duedate")
    ∷ ("API_SERVER", text_field "http://api:8000/")
    ∷ ("CONFIGURATION_SOURCE", text_field "SERVER")
    ∷ ("LOG_LEVEL", text_field "INFO")
    ∷ ("LOG_FORMAT", text_field "JSON")
    ∷ ("ENABLE_FILE_LOGGING", flag_field false)
    ∷ ("LOG_DIR", text_field "logs")
    ∷ ("LOG_SIGNAL_DUMPS", flag_field false)
    ∷ []

abbrev pub default_of : Kind → Json
default_of (int_field d ge le) = num d
default_of (flag_field d) = bool d
default_of (text_field d) = str d
default_of (timezone_field d) = str d

abbrev pub at_most : ℕ → Option ℕ → Bool
at_most n none = true
at_most n (some le) = leb n le

abbrev pub in_bounds : ℕ → Option ℕ → Option ℕ → Option Json
in_bounds ge le none = none
in_bounds ge le (some n) = if leb ge n && at_most n le then some (num n) else none

-- pydantic's conversion to a number
abbrev pub as_int : Env → Json → Option ℕ
as_int env (num n) = some n
as_int env (bool true) = some 1
as_int env (bool false) = some 0
as_int env (str s) = env.lax_int s
as_int env null = none
as_int env (arr xs) = none
as_int env (obj d) = none

-- `StrictBool`
abbrev pub as_flag : Json → Option Json
as_flag (bool b) = some (bool b)
as_flag null = none
as_flag (num n) = none
as_flag (str s) = none
as_flag (arr xs) = none
as_flag (obj d) = none

abbrev pub as_text : (String → Bool) → Json → Option Json
as_text is_valid (str s) = if is_valid s then some (str s) else none
as_text is_valid null = none
as_text is_valid (bool b) = none
as_text is_valid (num n) = none
as_text is_valid (arr xs) = none
as_text is_valid (obj d) = none

unfoldable pub validate_field : Env → Kind → Json → Option Json
validate_field env (int_field d ge le) v = in_bounds ge le (as_int env v)
validate_field env (flag_field d) v = as_flag v
validate_field env (text_field d) v = as_text (λ s. true) v
validate_field env (timezone_field d) v = as_text env.is_timezone v

-- A snapshot has a value for each field, in their order.
abbrev pub Config : Type 0
Config = Dict String Json

-- A default is not validated.
abbrev pub field_value : Env → Kind → Option Json → Option Json
field_value env kind none = some (default_of kind)
field_value env kind (some v) = validate_field env kind v

abbrev pub with_field : String → Option Json → Option Config → Option Config
with_field key none rest = none
with_field key (some v) none = none
with_field key (some v) (some config) = some ((key, v) ∷ config)

unfoldable pub build : Env → List (String × Kind) → Dict String Json → Option Config
unfolding validate_field lookup
build env [] overrides = some []
build env ((key, kind) ∷ fs) overrides =
    with_field key (field_value env kind (lookup overrides key)) (build env fs overrides)

-- `RuntimeConfig(**overrides)`, none where it raises ValidationError. Other keys are ignored.
unfoldable pub runtime_config : Env → Dict String Json → Option Config
unfolding build
runtime_config env overrides = build env fields overrides

-- What a reader of the cache gets.
pub data Read (A : Type 0) : Type 0 where
  value : A → Read A
  attribute_error : Read A
  type_error : Read A

abbrev pub int_value : Option Json → Read ℕ
int_value (some (num n)) = value n
int_value (some (bool b)) = type_error
int_value (some null) = type_error
int_value (some (str s)) = type_error
int_value (some (arr xs)) = type_error
int_value (some (obj d)) = type_error
int_value none = attribute_error

abbrev pub flag_value : Option Json → Read Bool
flag_value (some (bool b)) = value b
flag_value (some (num n)) = type_error
flag_value (some null) = type_error
flag_value (some (str s)) = type_error
flag_value (some (arr xs)) = type_error
flag_value (some (obj d)) = type_error
flag_value none = attribute_error

unfoldable pub get_int : Config → String → Read ℕ
unfolding lookup
get_int config key = int_value (lookup config key)

unfoldable pub get_bool : Config → String → Read Bool
unfolding lookup
get_bool config key = flag_value (lookup config key)

-- ===== src/Activity/Signal.antt =====
-- An ActivitySignal (src/common/activity_signal/models.py) and what src/connectors/consumers/activity_writer.py
-- computes of it.
use work_behavior_analytics.Prelude.{
  ℕ, String, Option, none, some, List, [], ◌∷◌, map, ◌==◌, text_key, if◌then◌else◌,
}
use work_behavior_analytics.Prelude.Text.{◌++◌, starts_with, slice_from, slice_to, is_empty}
use work_behavior_analytics.Prelude.Json.{
  Json, null, bool, num, str, arr, obj, Fields, get, is_falsy,
}

pub record RelationshipTarget : Type 0 where
  pub source : Option String
  pub entity_type : Option String
  pub id : Option String
  pub url : Option String

pub record Relationship : Type 0 where
  pub type : String
  pub target : RelationshipTarget

-- `attributes` is their model_dump().
pub record ActivitySignal : Type 0 where
  pub signal_id : String
  pub source : String
  pub entity_type : String
  pub id : String
  pub event_time : String
  pub attributes : Fields
  pub relationships : List Relationship

-- `_normalize_database_url`
unfoldable pub normalize_database_url : String → String
normalize_database_url url =
    if starts_with url "postgresql+asyncpg://"
    then "postgresql://" ++ slice_from 21 url
    else if starts_with url "postgres+asyncpg://"
    then "postgresql://" ++ slice_from 19 url
    else url

abbrev pub display_name_max : ℕ
display_name_max = 512

abbrev pub named_by : Option Json → String → String
named_by none rest = rest
named_by (some (str s)) rest = if is_empty s then rest else slice_to display_name_max s
named_by (some null) rest = rest
named_by (some (bool b)) rest = rest
named_by (some (num n)) rest = rest
named_by (some (arr xs)) rest = rest
named_by (some (obj d)) rest = rest

abbrev pub first_name : Fields → String → List String → String
first_name attrs id [] = id
first_name attrs id (field ∷ rest) = named_by (get attrs field) (first_name attrs id rest)

unfoldable pub compute_display_name : ActivitySignal → String
compute_display_name signal =
    first_name signal.attributes signal.id
      ("name" ∷ "title" ∷ "summary" ∷ "key" ∷ "full_name" ∷ "message" ∷ [])

unfoldable pub compute_avatar_url : ActivitySignal → Option Json
compute_avatar_url signal =
    if signal.entity_type == "Person" then get signal.attributes "avatar_url" else none

-- `a or b`, where a missing key is None
abbrev pub truthy_or : Option Json → Option Json → Option Json
truthy_or none b = b
truthy_or (some a) b = if is_falsy a then b else some a

abbrev pub text_or : Option String → String → String
text_or none default = default
text_or (some s) default = if is_empty s then default else s

-- A row of activity_actions.
pub record ActionRow : Type 0 where
  pub signal_id : String
  pub source : String
  pub event_time : String
  pub actor_entity_type : String
  pub actor_entity_id : String
  pub relationship_type : String
  pub target_entity_type : String
  pub target_entity_id : String
  pub target_source : String
  pub summary : Option Json
  pub url : Option String

abbrev pub summary_of : Fields → Option Json
summary_of attrs =
    truthy_or (get attrs "title")
      (truthy_or (get attrs "summary") (truthy_or (get attrs "key") none))

abbrev pub action_of : ActivitySignal → Relationship → ActionRow
action_of signal rel = record {
  signal_id = signal.signal_id;
  source = signal.source;
  event_time = signal.event_time;
  actor_entity_type = signal.entity_type;
  actor_entity_id = signal.id;
  relationship_type = rel.type;
  target_entity_type = text_or rel.target.entity_type "";
  target_entity_id = text_or rel.target.id "";
  target_source = text_or rel.target.source signal.source;
  summary = summary_of signal.attributes;
  url = rel.target.url;
}

abbrev pub decompose_relationships : ActivitySignal → List ActionRow
decompose_relationships signal = map (action_of signal) signal.relationships

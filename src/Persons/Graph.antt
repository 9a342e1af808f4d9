-- ===== src/Persons/Graph.antt =====
-- What src/connectors/commons/person_cache.py asks of the graph database, and the node ids of
-- src/common/activity_signal/wba_node_id.py.
use work_behavior_analytics.Prelude.{Bool, String, Option, List}
use work_behavior_analytics.Prelude.Text.{◌++◌}

-- `Person(id, name, email, url)` with the observation time.
pub record Person : Type 0 where
  pub id : String
  pub name : String
  pub email : Option String
  pub url : Option String
  pub observed_at : Option String

pub record IdentityMapping : Type 0 where
  pub id : String
  pub provider : String
  pub username : String
  pub email : String
  pub last_updated_at : String

-- The MAPS_TO relationship from an identity mapping to a person.
pub record MapsTo : Type 0 where
  pub from_id : String
  pub to_id : String

-- The database and the operations on it. A write gives false where it raises; what it has written by
-- then stays. The lookups return.
pub record Store : Type 1 where
  pub Graph : Type 0
  pub person_by_email : Graph → String → Option String
  pub person_by_identity : Graph → List String → Option String
  pub person_by_ids : Graph → List String → Option String
  pub merge_person : Graph → Person → Bool × Graph
  pub rehome_person : Graph → String → String → Bool × Graph
  pub merge_identity_mapping : Graph → IdentityMapping → MapsTo → Bool × Graph

-- f"{source}::{entity_type}::{id}"
unfoldable pub wba_format : String → String → String → String
wba_format source entity_type id = source ++ ("::" ++ (entity_type ++ ("::" ++ id)))

-- ===== src/Graph/Values.antt =====
-- What the Neo4j driver returns to src/app/api/graph/v1/service.py, and what transformers.py makes of it.
use work_behavior_analytics.Prelude.{
  String, Option, none, some, List, [], ◌∷◌, map, text_key, if◌then◌else◌,
}
use work_behavior_analytics.Prelude.Dict.{Dict, lookup}
use work_behavior_analytics.Prelude.Json.{Json, str, arr, Items, nil, cons, is_falsy}

-- A property of a node or a relationship: a document without times, a time by its ISO text, or a list
-- of times.
pub data Property : Type 0 where
  plain : Json → Property
  time : String → Property
  times : List String → Property

pub record Node : Type 0 where
  pub element_id : String
  pub labels : List String
  pub properties : Dict String Property

pub record Relationship : Type 0 where
  pub element_id : String
  pub type : String
  pub start_node : Node
  pub end_node : Node
  pub properties : Dict String Property

-- A value of a result; its lists may also be tuples.
mutual
  pub data Value : Type 0 where
    property : Property → Value
    node : Node → Value
    relationship : Relationship → Value
    path : List Node → List Relationship → Value
    list : Values → Value
    dict : Entries → Value

  pub data Values : Type 0 where
    no_values : Values
    a_value : Value → Values → Values

  pub data Entries : Type 0 where
    no_entries : Entries
    an_entry : String → Value → Entries → Entries

abbrev pub texts : List String → Items
texts [] = nil
texts (s ∷ ss) = cons (str s) (texts ss)

-- `_make_serializable` on a property
abbrev pub serial : Property → Json
serial (plain v) = v
serial (time t) = str t
serial (times ts) = arr (texts ts)

abbrev pub labels_of : List String → Value
labels_of labels = property (plain (arr (texts labels)))

abbrev pub text_value : String → Value
text_value s = property (plain (str s))

-- dict(node): times stay as they are.
abbrev pub entries_of : Dict String Property → Entries
entries_of [] = no_entries
entries_of ((key, p) ∷ d) = an_entry key (property p) (entries_of d)

abbrev pub node_value : Node → Value
node_value n = dict (
    an_entry "id" (text_value n.element_id) (
      an_entry "labels" (labels_of n.labels)
        (an_entry "properties" (dict (entries_of n.properties)) no_entries)))

abbrev pub relationship_value : Relationship → Value
relationship_value r = dict (
    an_entry "id" (text_value r.element_id) (
      an_entry "type" (text_value r.type) (
        an_entry "startNode" (text_value r.start_node.element_id) (
          an_entry "endNode" (text_value r.end_node.element_id)
            (an_entry "properties" (dict (entries_of r.properties)) no_entries)))))

abbrev pub node_values : List Node → Values
node_values [] = no_values
node_values (n ∷ ns) = a_value (node_value n) (node_values ns)

abbrev pub relationship_values : List Relationship → Values
relationship_values [] = no_values
relationship_values (r ∷ rs) = a_value (relationship_value r) (relationship_values rs)

-- `_make_serializable`
unfoldable mutual
  pub make_serializable : Value → Value
  make_serializable (property p) = property (plain (serial p))
  make_serializable (node n) = node_value n
  make_serializable (relationship r) = relationship_value r
  make_serializable (path ns rs) = dict (
      an_entry "nodes" (list (node_values ns))
        (an_entry "relationships" (list (relationship_values rs)) no_entries))
  make_serializable (list xs) = list (serializable_items xs)
  make_serializable (dict d) = dict (serializable_entries d)

  pub serializable_items : Values → Values
  serializable_items no_values = no_values
  serializable_items (a_value x xs) = a_value (make_serializable x) (serializable_items xs)

  pub serializable_entries : Entries → Entries
  serializable_entries no_entries = no_entries
  serializable_entries (an_entry key x d) =
      an_entry key (make_serializable x) (serializable_entries d)

-- An id is a text.
pub record GraphNode : Type 0 where
  pub wba_id : Json
  pub element_id : String
  pub labels : List String
  pub properties : Dict String Json

pub record GraphRelationship : Type 0 where
  pub id : String
  pub type : String
  pub start_node : String
  pub end_node : String
  pub properties : Dict String Json

abbrev pub serial_properties : Dict String Property → Dict String Json
serial_properties = map λ p. (p.0, serial p.1)

-- `properties.get("id") or element_id`
abbrev pub id_or : Option Json → String → Json
id_or none element_id = str element_id
id_or (some v) element_id = if is_falsy v then str element_id else v

unfoldable pub transform_node : Node → GraphNode
unfolding lookup
transform_node n = record {
  wba_id = id_or (lookup (serial_properties n.properties) "id") n.element_id;
  element_id = n.element_id;
  labels = n.labels;
  properties = serial_properties n.properties;
}

unfoldable pub transform_relationship : Relationship → GraphRelationship
transform_relationship r = record {
  id = r.element_id;
  type = r.type;
  start_node = r.start_node.element_id;
  end_node = r.end_node.element_id;
  properties = serial_properties r.properties;
}

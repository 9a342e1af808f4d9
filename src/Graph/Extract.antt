-- ===== src/Graph/Extract.antt =====
-- `_extract_graph_elements_from_value` of src/app/api/graph/v1/transformers.py.
use work_behavior_analytics.Prelude.{
  Bool, true, false, ◌||◌, String, List, [], ◌∷◌, ◌++◌, contains, text_key, if◌then◌else◌,
}
use work_behavior_analytics.Prelude.Dict.{Dict, insert}
use work_behavior_analytics.Graph.Values.{
  Node, Relationship, Value, property, node, relationship, path, list, dict, Values, no_values,
  a_value, Entries, no_entries, an_entry, GraphNode, GraphRelationship, transform_node,
  transform_relationship,
}

-- What was found by then. The set of ids is in the order of insertion.
pub record Elements : Type 0 where
  pub nodes : Dict String GraphNode
  pub relationships : List GraphRelationship
  pub relationship_ids : List String

abbrev pub no_elements : Elements
no_elements = record { nodes = []; relationships = []; relationship_ids = [] }

unfoldable pub add_node : Node → Elements → Elements
unfolding insert transform_node
add_node n e = record e { nodes = insert e.nodes n.element_id (transform_node n) }

abbrev pub append_relationship : GraphRelationship → Elements → Elements
append_relationship rel e = record e {
  relationships = e.relationships ++ rel ∷ [];
  relationship_ids = e.relationship_ids ++ rel.id ∷ [];
}

unfoldable pub add_relationship : Relationship → Elements → Elements
unfolding transform_relationship
add_relationship r e =
    if contains e.relationship_ids r.element_id
    then e
    else append_relationship (transform_relationship r) e

unfoldable pub add_nodes : List Node → Elements → Elements
unfolding add_node
add_nodes [] e = e
add_nodes (n ∷ ns) e = add_nodes ns (add_node n e)

unfoldable pub add_relationships : List Relationship → Elements → Elements
unfolding add_relationship
add_relationships [] e = e
add_relationships (r ∷ rs) e = add_relationships rs (add_relationship r e)

abbrev pub is_path : List Node → List Relationship → Bool
is_path (n ∷ ns) rs = true
is_path [] (r ∷ rs) = true
is_path [] [] = false

-- Whether there was a node or a relationship.
unfoldable mutual
  unfolding add_node add_relationship add_nodes add_relationships

  pub extract_value : Value → Elements → Bool × Elements
  extract_value (property p) e = (false, e)
  extract_value (node n) e = (true, add_node n e)
  extract_value (relationship r) e =
      (true, add_node r.end_node (add_node r.start_node (add_relationship r e)))
  extract_value (path ns rs) e = (is_path ns rs, add_relationships rs (add_nodes ns e))
  extract_value (list xs) e = extract_values xs false e
  extract_value (dict d) e = extract_entries d false e

  pub extract_values : Values → Bool → Elements → Bool × Elements
  extract_values no_values extracted e = (extracted, e)
  extract_values (a_value x xs) extracted e =
      let (found, e') = extract_value x e in extract_values xs (found || extracted) e'

  pub extract_entries : Entries → Bool → Elements → Bool × Elements
  extract_entries no_entries extracted e = (extracted, e)
  extract_entries (an_entry key x d) extracted e =
      let (found, e') = extract_value x e in extract_entries d (found || extracted) e'

-- The values of all records.
unfoldable pub extract_records : List Entries → Bool → Elements → Bool × Elements
unfolding extract_entries
extract_records [] is_graph e = (is_graph, e)
extract_records (row ∷ rows) is_graph e =
    let (found, e') = extract_entries row is_graph e in extract_records rows found e'

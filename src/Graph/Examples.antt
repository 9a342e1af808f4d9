-- ===== src/Graph/Examples.antt =====
-- Queries of a small graph, and the theorems of the graph API at these inputs.
use work_behavior_analytics.Prelude.{
  true, false, String, ◌≡◌, refl, none, some, List, [], ◌∷◌, ◌==◌, text_key, if◌then◌else◌, All,
  Bool-cases, inl, inr,
}
use mathlib.Core.Path.{subst}
use work_behavior_analytics.Prelude.Text.{is_space, lstrip, rstrip, strip, has_text, upper}
use work_behavior_analytics.Prelude.Dict.{Dict, lookup, insert}
use work_behavior_analytics.Prelude.Json.{Json, num, str}
use work_behavior_analytics.Cypher.ReadOnly.{
  match_kw, create, is_read_only_cypher, validate_read_only_query,
}
use work_behavior_analytics.Graph.Values.{
  plain, time, Node, Relationship, property, relationship, path, list, no_values, a_value, Entries,
  no_entries, an_entry, make_serializable, transform_node, transform_relationship,
}
use work_behavior_analytics.Graph.Extract.{
  add_node, add_relationship, add_nodes, add_relationships, extract_value, extract_records,
}
use work_behavior_analytics.Graph.Service.{
  Outcome, returned, raised, value_error, query_not_found, CatalogQuery, GraphExecuteRequest, Env,
  is_missing, resolve_executable_query, GraphResponse, add_implicit, serializable_record,
  format_query_results, execute_and_format_query, execute_graph_request,
}
use work_behavior_analytics.Graph.Tidy.{relationship_ids_of}
use work_behavior_analytics.Graph.Closed.{HasConnected, IsConnected}
use work_behavior_analytics.Graph.Rendered.{
  ids_of, Draws, AnswersConnected, execute_graph_request-Draws,
}

abbrev a_node : String → Node
a_node id = record {
  element_id = id;
  labels = "Person" ∷ [];
  properties = ("id", plain (str id)) ∷ [];
}

abbrev between : String → Node → Node → Relationship
between id m n = record {
  element_id = id;
  type = "KNOWS";
  start_node = m;
  end_node = n;
  properties = [];
}

abbrev knows : Relationship
knows = between "r1" (a_node "a") (a_node "b")

-- A path, and the same relationship once more in a list.
abbrev graph_rows : List Entries
graph_rows =
    an_entry "p" (path (a_node "a" ∷ a_node "b" ∷ []) (knows ∷ []))
      (an_entry "rs" (list (a_value (relationship knows) no_values)) no_entries)
    ∷ []

abbrev table_rows : List Entries
table_rows =
    an_entry "n" (property (plain (num 1)))
      (an_entry "at" (property (time "2026-01-01")) no_entries)
    ∷ []

abbrev results : String → Outcome (List Entries)
results query = if query == "match n" then returned table_rows else returned graph_rows

abbrev top : CatalogQuery
top = record {
  queries = ("graph", "match p") ∷ [];
  parameters = record { name = "days"; required = true } ∷ [];
}

-- The relationships between the nodes: one that is known, one to a node that is not there, a new one.
abbrev env : Env
env = record {
  get_catalog_query = λ id. if id == "people/top" then some top else none;
  tokenise = λ query.
      if query == "create"
      then some (record { kind = create; text = "create" } ∷ [])
      else some (record { kind = match_kw; text = "match" } ∷ []);
  execute_cypher_query = λ query parameters. results query;
  fetch_relationships = λ ids. returned (
      some knows
      ∷ some (between "r2" (a_node "a") (a_node "z"))
      ∷ some (between "r3" (a_node "b") (a_node "a"))
      ∷ none
      ∷ []);
}

abbrev raw : String → GraphExecuteRequest
raw query = record {
  source = "raw";
  query = some query;
  catalog_id = none;
  view = "auto";
  parameters = [];
}

abbrev of_catalog : String → Dict String Json → GraphExecuteRequest
of_catalog view parameters = record {
  source = "catalog";
  query = none;
  catalog_id = some "people/top";
  view = view;
  parameters = parameters;
}

-- The ids of the nodes and of the relationships.
abbrev shown : Outcome GraphResponse → List String × List String
shown (raised x) = ([], [])
shown (returned r) = (ids_of r.nodes, relationship_ids_of r.relationships)

program : Unit {0}
unfolding is_space lstrip rstrip strip has_text upper lookup insert is_read_only_cypher
    validate_read_only_query transform_node transform_relationship make_serializable add_node
    add_relationship add_nodes add_relationships extract_value extract_records is_missing
    resolve_executable_query add_implicit serializable_record format_query_results
    execute_and_format_query execute_graph_request
program = tt
  where
    drawn : shown (execute_graph_request env (raw "match p")) ≡ ("a" ∷ "b" ∷ [], "r1" ∷ "r3" ∷ [])
    drawn = refl

    table :
        execute_graph_request env (raw "match n")
        ≡ returned (record {
          nodes = [];
          relationships = [];
          raw_results =
              an_entry "n"
                (property (plain (num 1)))
                (an_entry "at" (property (plain (str "2026-01-01"))) no_entries)
              ∷ [];
          is_graph = false;
          result_count = 1;
        })
    table = refl

    written : execute_graph_request env (raw "create") ≡ raised value_error
    written = refl

    from_the_catalog :
        shown (execute_graph_request env (of_catalog "graph" (("days", num 7) ∷ [])))
        ≡ ("a" ∷ "b" ∷ [], "r1" ∷ "r3" ∷ [])
    from_the_catalog = refl

    blank_parameter :
        execute_graph_request env (of_catalog "graph" (("days", str " ") ∷ [])) ≡ raised value_error
    blank_parameter = refl

    unknown_parameter :
        execute_graph_request env (of_catalog "graph" (("days", num 7) ∷ ("x", num 1) ∷ []))
        ≡ raised value_error
    unknown_parameter = refl

    other_view : execute_graph_request env (of_catalog "tabular" []) ≡ raised value_error
    other_view = refl

    other_query :
        execute_graph_request env (record (of_catalog "graph" []) { catalog_id = some "x/y" })
        ≡ raised query_not_found
    other_query = refl

same_rows : (rows rows' : List Entries) → Outcome.returned rows ≡ returned rows' → rows ≡ rows'
same_rows rows rows' h = cc

env-AnswersConnected : AnswersConnected env
unfolding IsConnected
env-AnswersConnected query parameters rows h = elim (Bool-cases (query == "match n")) [
  | inl e ↦
      subst (All HasConnected)
        (same_rows table_rows rows (
          subst (λ b. (if b then returned table_rows else returned graph_rows) ≡ returned rows) e
            h))
        ((tt, (tt, tt)), tt)
  | inr e ↦
      subst (All HasConnected)
        (same_rows graph_rows rows (
          subst (λ b. (if b then returned table_rows else returned graph_rows) ≡ returned rows) e
            h))
        ((((refl, refl), tt), ((tt, tt), tt)), tt)
]

execute_graph_request-Draws_example : Draws (execute_graph_request env (raw "match p"))
execute_graph_request-Draws_example =
    execute_graph_request-Draws env (raw "match p") env-AnswersConnected

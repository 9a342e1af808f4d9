-- ===== src/Graph/Answered.antt =====
-- Which queries src/app/api/graph/v1/service.py runs, and what it makes of their results.
use work_behavior_analytics.Prelude.{true, false, String, List, [], map, text_key, any, length, ◌≡◌}
use work_behavior_analytics.Prelude.Dict.{Dict}
use work_behavior_analytics.Prelude.Json.{Json}
use work_behavior_analytics.Cypher.ReadOnly.{answer, no_tokens, validate_read_only_query}
use work_behavior_analytics.Graph.Values.{Entries, GraphNode}
use work_behavior_analytics.Graph.Extract.{no_elements, extract_records}
use work_behavior_analytics.Graph.Service.{
  GraphError, value_error, index_error, Outcome, returned, raised, GraphExecuteRequest, Env,
  GraphResponse, element_ids,
}
use work_behavior_analytics.Graph.Documents.{row_has, RowsShow}
use work_behavior_analytics.Graph.Resolved.{Resolves, Unresolved}

-- The nodes that are found in these rows.
abbrev found_nodes : List Entries → Dict String GraphNode
found_nodes rows = (extract_records rows false no_elements).1.nodes

-- Of these rows.
pub record IsFormat (rows : List Entries) (r : GraphResponse) : Type 0 where
  pub is_graph : r.is_graph ≡ any row_has rows
  pub result_count : r.result_count ≡ length rows
  pub tables : any row_has rows ≡ false → RowsShow rows r.raw_results
  pub graphs :
      any row_has rows ≡ true → (r.raw_results ≡ []) × (r.nodes ≡ map (λ p. p.1) (found_nodes rows))

-- A query that is read-only, and the format of its results.
pub record IsAnswer (env : Env) (r : GraphExecuteRequest) (response : GraphResponse) : Type 0 where
  pub query : String
  pub parameters : Dict String Json
  pub rows : List Entries
  pub resolved : Resolves env r (query, parameters)
  pub read_only : validate_read_only_query env.tokenise query ≡ answer true
  pub executed : env.execute_cypher_query query parameters ≡ returned rows
  pub format : IsFormat rows response

-- Only the relationships between the nodes may fail.
abbrev Formats : Env → List Entries → Outcome GraphResponse → Type 0
Formats env rows (raised x) =
    (any row_has rows ≡ true)
    × (env.fetch_relationships (element_ids (found_nodes rows)) ≡ raised x)
Formats env rows (returned r) = IsFormat rows r

-- What makes a request raise this.
pub data IsFailure (env : Env) (r : GraphExecuteRequest) (x : GraphError) : Type 0 where
  unresolved : Unresolved env r x → IsFailure env r x
  refused :
      (query : String) (parameters : Dict String Json)
      → Resolves env r (query, parameters)
      → validate_read_only_query env.tokenise query ≡ answer false
      → x ≡ value_error
      → IsFailure env r x
  without_tokens :
      (query : String) (parameters : Dict String Json)
      → Resolves env r (query, parameters)
      → validate_read_only_query env.tokenise query ≡ no_tokens
      → x ≡ index_error
      → IsFailure env r x
  not_executed :
      (query : String) (parameters : Dict String Json)
      → Resolves env r (query, parameters)
      → validate_read_only_query env.tokenise query ≡ answer true
      → env.execute_cypher_query query parameters ≡ raised x
      → IsFailure env r x
  not_fetched :
      (query : String) (parameters : Dict String Json) (rows : List Entries)
      → Resolves env r (query, parameters)
      → validate_read_only_query env.tokenise query ≡ answer true
      → env.execute_cypher_query query parameters ≡ returned rows
      → any row_has rows ≡ true
      → env.fetch_relationships (element_ids (found_nodes rows)) ≡ raised x
      → IsFailure env r x

abbrev pub Answers : Env → GraphExecuteRequest → Outcome GraphResponse → Type 0
Answers env r (raised x) = IsFailure env r x
Answers env r (returned response) = IsAnswer env r response

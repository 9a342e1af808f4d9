-- ===== src/Graph/Service.antt =====
-- The queries of src/app/api/graph/v1/service.py: the resolution of a request and the format of its
-- results.
use work_behavior_analytics.Prelude.{
  ℕ, Bool, true, false, not, ◌&&◌, String, Option, none, some, List, [], ◌∷◌, map, any, contains,
  length, is_some, ◌==◌, text_key, if◌then◌else◌,
}
use work_behavior_analytics.Prelude.Text.{is_empty, strip}
use work_behavior_analytics.Prelude.Dict.{Dict, lookup}
use work_behavior_analytics.Prelude.Json.{Json, null, bool, num, str, arr, obj}
use work_behavior_analytics.Cypher.ReadOnly.{
  Token, Verdict, answer, no_tokens, validate_read_only_query,
}
use work_behavior_analytics.Graph.Values.{
  Relationship, Entries, GraphNode, GraphRelationship, make_serializable, serializable_entries,
  transform_relationship,
}
use work_behavior_analytics.Graph.Extract.{
  Elements, no_elements, append_relationship, extract_records,
}

-- ValueError, CatalogQueryNotFoundError, RuntimeError, and the IndexError of a lexer without tokens
pub data GraphError : Type 0 where
  value_error : GraphError
  query_not_found : GraphError
  runtime_error : GraphError
  index_error : GraphError

pub data Outcome (A : Type 0) : Type 0 where
  returned : A → Outcome A
  raised : GraphError → Outcome A

pub record CatalogParameter : Type 0 where
  pub name : String
  pub required : Bool

-- Its queries by their view.
pub record CatalogQuery : Type 0 where
  pub queries : Dict String String
  pub parameters : List CatalogParameter

-- After validation.
pub record GraphExecuteRequest : Type 0 where
  pub source : String
  pub query : Option String
  pub catalog_id : Option String
  pub view : String
  pub parameters : Dict String Json

-- The catalog, none where it raises; the lexer; a query with its parameters; and the relationships
-- between nodes by the ids of these, where a record may lack one.
pub record Env : Type 0 where
  pub get_catalog_query : String → Option CatalogQuery
  pub tokenise : String → Option (List Token)
  pub execute_cypher_query : String → Dict String Json → Outcome (List Entries)
  pub fetch_relationships : List String → Outcome (List (Option Relationship))

-- `_is_missing_parameter_value`
unfoldable pub is_missing : Option Json → Bool
unfolding strip
is_missing none = true
is_missing (some null) = true
is_missing (some (str s)) = is_empty (strip s)
is_missing (some (bool b)) = false
is_missing (some (num n)) = false
is_missing (some (arr xs)) = false
is_missing (some (obj d)) = false

abbrev pub names_of : List CatalogParameter → List String
names_of = map λ p. p.name

-- A parameter that is not declared.
abbrev pub has_unknown : CatalogQuery → Dict String Json → Bool
has_unknown q given = any (λ p. not (contains (names_of q.parameters) p.0)) given

abbrev pub has_missing : CatalogQuery → Dict String Json → Bool
has_missing q given = any (λ p. p.required && is_missing (lookup given p.name)) q.parameters

abbrev pub view_query :
    CatalogQuery → GraphExecuteRequest → Option String → Outcome (String × Dict String Json)
view_query q r none = raised value_error
view_query q r (some query) =
    if has_unknown q r.parameters
    then raised value_error
    else if has_missing q r.parameters
    then raised value_error
    else returned (query, r.parameters)

abbrev pub from_catalog :
    GraphExecuteRequest → Option CatalogQuery → Outcome (String × Dict String Json)
from_catalog r none = raised query_not_found
from_catalog r (some q) =
    if r.view == "auto" then raised value_error else view_query q r (lookup q.queries r.view)

abbrev pub nonempty : Option String → Option String
nonempty none = none
nonempty (some s) = if is_empty s then none else some s

abbrev pub raw_query : GraphExecuteRequest → Option String → Outcome (String × Dict String Json)
raw_query r none = raised value_error
raw_query r (some query) = returned (query, r.parameters)

abbrev pub catalog_query :
    Env → GraphExecuteRequest → Option String → Outcome (String × Dict String Json)
catalog_query env r none = raised value_error
catalog_query env r (some id) = from_catalog r (env.get_catalog_query id)

unfoldable pub resolve_executable_query :
    Env → GraphExecuteRequest → Outcome (String × Dict String Json)
unfolding lookup is_missing
resolve_executable_query env r =
    if r.source == "raw"
    then raw_query r (nonempty r.query)
    else catalog_query env r (nonempty r.catalog_id)

pub record GraphResponse : Type 0 where
  pub nodes : List GraphNode
  pub relationships : List GraphRelationship
  pub raw_results : List Entries
  pub is_graph : Bool
  pub result_count : ℕ

abbrev pub element_ids : Dict String GraphNode → List String
element_ids = map λ p. p.1.element_id

abbrev pub has_node : Dict String GraphNode → String → Bool
has_node nodes id = is_some (lookup nodes id)

-- A relationship between nodes that are there, once.
unfoldable pub add_implicit : List (Option Relationship) → Elements → Elements
unfolding lookup transform_relationship
add_implicit [] e = e
add_implicit (none ∷ records) e = add_implicit records e
add_implicit (some r ∷ records) e =
    let rel = transform_relationship r in
    let added = add_implicit records (append_relationship rel e) in
    let skipped = add_implicit records e in
    if not (contains e.relationship_ids rel.id)
      && (has_node e.nodes rel.start_node && has_node e.nodes rel.end_node)
    then added
    else skipped

abbrev pub graph_response : ℕ → Elements → GraphResponse
graph_response count e = record {
  nodes = map (λ p. p.1) e.nodes;
  relationships = e.relationships;
  raw_results = [];
  is_graph = true;
  result_count = count;
}

-- The set of ids is made anew.
abbrev pub with_implicit :
    ℕ → Elements → Outcome (List (Option Relationship)) → Outcome GraphResponse
with_implicit count e (raised x) = raised x
with_implicit count e (returned records) = returned (
    graph_response count
      (add_implicit records (record e { relationship_ids = map (λ r. r.id) e.relationships })))

-- `_make_serializable` on the values of a record
unfoldable pub serializable_record : Entries → Entries
unfolding make_serializable
serializable_record row = serializable_entries row

abbrev pub tabular : List Entries → GraphResponse
tabular rows = record {
  nodes = [];
  relationships = [];
  raw_results = map serializable_record rows;
  is_graph = false;
  result_count = length rows;
}

abbrev pub implicit_for : Env → ℕ → Elements → Dict String GraphNode → Outcome GraphResponse
implicit_for env count e [] = returned (graph_response count e)
implicit_for env count e (n ∷ nodes) =
    with_implicit count e (env.fetch_relationships (element_ids (n ∷ nodes)))

abbrev pub respond : Env → List Entries → Bool × Elements → Outcome GraphResponse
respond env rows (true, e) = implicit_for env (length rows) e e.nodes
respond env rows (false, e) = returned (tabular rows)

-- `_format_query_results` with the implicit relationships
unfoldable pub format_query_results : Env → List Entries → Outcome GraphResponse
unfolding add_implicit serializable_record extract_records
format_query_results env rows = respond env rows (extract_records rows false no_elements)

abbrev pub formatted : Env → Outcome (List Entries) → Outcome GraphResponse
formatted env (raised x) = raised x
formatted env (returned rows) = format_query_results env rows

abbrev pub if_read_only : Env → String → Dict String Json → Verdict → Outcome GraphResponse
if_read_only env query parameters no_tokens = raised index_error
if_read_only env query parameters (answer false) = raised value_error
if_read_only env query parameters (answer true) =
    formatted env (env.execute_cypher_query query parameters)

unfoldable pub execute_and_format_query : Env → String → Dict String Json → Outcome GraphResponse
unfolding validate_read_only_query format_query_results
execute_and_format_query env query parameters =
    if_read_only env query parameters (validate_read_only_query env.tokenise query)

abbrev pub execute_resolved : Env → Outcome (String × Dict String Json) → Outcome GraphResponse
execute_resolved env (raised x) = raised x
execute_resolved env (returned (query, parameters)) = execute_and_format_query env query parameters

unfoldable pub execute_graph_request : Env → GraphExecuteRequest → Outcome GraphResponse
unfolding resolve_executable_query execute_and_format_query
execute_graph_request env r = execute_resolved env (resolve_executable_query env r)

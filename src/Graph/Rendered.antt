-- ===== src/Graph/Rendered.antt =====
-- The graph that src/app/api/graph/v1/service.py answers with can be drawn.
use work_behavior_analytics.Prelude.{
  ℕ, Bool, true, false, not, ◌&&◌, String, Option, none, some, List, [], ◌∷◌, map, contains, ◌==◌,
  text_key, Bool-cases, All, ◌≡◌, refl, sym, ◌∙◌, inl, inr,
}
use mathlib.Core.Path.{subst}
use work_behavior_analytics.Prelude.Dict.{Dict, lookup}
use work_behavior_analytics.Prelude.Json.{Json}
use work_behavior_analytics.Cypher.ReadOnly.{Verdict, answer, no_tokens, validate_read_only_query}
use work_behavior_analytics.Graph.Values.{Relationship, Entries, GraphNode, transform_relationship}
use work_behavior_analytics.Graph.Extract.{
  Elements, no_elements, append_relationship, extract_records,
}
use work_behavior_analytics.Graph.Service.{
  Outcome, returned, raised, GraphExecuteRequest, Env, resolve_executable_query, GraphResponse,
  has_node, add_implicit, graph_response, with_implicit, implicit_for, respond,
  format_query_results, formatted, if_read_only, execute_and_format_query, execute_resolved,
  execute_graph_request,
}
use work_behavior_analytics.Graph.Tidy.{IsDistinct, keys, IsKeyed, relationship_ids_of}
use work_behavior_analytics.Graph.Closed.{
  Ends, IsSound, append_relationship-IsSound, HasConnected, extract_records-IsSound,
}

abbrev pub ids_of : List GraphNode → List String
ids_of = map λ n. n.element_id

-- No node and no relationship twice, and both ends of each relationship among the nodes.
pub record IsDrawable (r : GraphResponse) : Type 0 where
  pub nodes : IsDistinct (ids_of r.nodes)
  pub relationships : IsDistinct (relationship_ids_of r.relationships)
  pub ends : All (Ends (ids_of r.nodes)) r.relationships

abbrev pub Draws : Outcome GraphResponse → Type 0
Draws (raised x) = Unit
Draws (returned r) = IsDrawable r

has_node-contains : (d : Dict String GraphNode) (k : String) → has_node d k ≡ contains (keys d) k
unfolding lookup
has_node-contains [] k = refl
has_node-contains ((j, n) ∷ d) k = elim (Bool-cases (j == k)) [
  | inl e ↦ rw e refl
  | inr e ↦ rw e (has_node-contains d k)
]

both : (a b : Bool) → (a && b) ≡ true → (a ≡ true) × (b ≡ true)
both true true h = (refl, refl)
both true false h = absurd cc
both false b h = absurd cc

new_and_known :
    (a b c : Bool) → (not a && (b && c)) ≡ true → (a ≡ false) × ((b ≡ true) × (c ≡ true))
new_and_known true b c h = absurd cc
new_and_known false b c h = (refl, both b c h)

add_implicit-IsSound :
    (records : List (Option Relationship)) (e : Elements)
    → IsSound e
    → IsSound (add_implicit records e)
unfolding add_implicit
add_implicit-IsSound [] e h = h
add_implicit-IsSound (none ∷ records) e h = add_implicit-IsSound records e h
add_implicit-IsSound (some r ∷ records) e h =
    let rel = transform_relationship r in
    elim (Bool-cases (
      not (contains e.relationship_ids rel.id)
      && (has_node e.nodes rel.start_node && has_node e.nodes rel.end_node))) [
        | inr c ↦ rw c (add_implicit-IsSound records e h)
        | inl c ↦
            let known =
              new_and_known (contains e.relationship_ids rel.id) (has_node e.nodes rel.start_node)
                (has_node e.nodes rel.end_node) c in
            rw c (
              add_implicit-IsSound records (append_relationship rel e) (
                append_relationship-IsSound rel e h known.0 (
                  sym (has_node-contains e.nodes rel.start_node) ∙ known.1.0,
                  sym (has_node-contains e.nodes rel.end_node) ∙ known.1.1,
                )))
      ]

ids-keys : (d : Dict String GraphNode) → IsKeyed d → keys d ≡ ids_of (map (λ p. p.1) d)
ids-keys [] h = refl
ids-keys ((k, n) ∷ d) h = rw (h.0, ids-keys d h.1) refl

graph_response-IsDrawable :
    (count : ℕ) (e : Elements) → IsSound e → IsDrawable (graph_response count e)
graph_response-IsDrawable count e h =
    let same = ids-keys e.nodes h.tidy.keyed in
    record {
      nodes = subst IsDistinct same h.tidy.nodes;
      relationships = subst IsDistinct h.tidy.tracked h.tidy.relationships;
      ends = subst (λ ids. All (Ends ids) e.relationships) same h.closed;
    }

retracked :
    (e : Elements)
    → IsSound e
    → IsSound (record e { relationship_ids = relationship_ids_of e.relationships })
retracked e h = record {
  tidy = record {
    keyed = h.tidy.keyed;
    nodes = h.tidy.nodes;
    tracked = refl;
    relationships = subst IsDistinct h.tidy.tracked h.tidy.relationships;
  };
  closed = h.closed;
}

with_implicit-Draws :
    (count : ℕ) (e : Elements) (records : Outcome (List (Option Relationship)))
    → IsSound e
    → Draws (with_implicit count e records)
with_implicit-Draws count e (raised x) h = tt
with_implicit-Draws count e (returned records) h =
    graph_response-IsDrawable count _ (add_implicit-IsSound records _ (retracked e h))

implicit_for-Draws :
    (env : Env) (count : ℕ) (e : Elements) (nodes : Dict String GraphNode)
    → IsSound e
    → Draws (implicit_for env count e nodes)
implicit_for-Draws env count e [] h = graph_response-IsDrawable count e h
implicit_for-Draws env count e (n ∷ nodes) h = with_implicit-Draws count e _ h

respond-Draws :
    (env : Env) (rows : List Entries) (found : Bool × Elements)
    → IsSound found.1
    → Draws (respond env rows found)
respond-Draws env rows (true, e) h = implicit_for-Draws env _ e e.nodes h
respond-Draws env rows (false, e) h = record { nodes = tt; relationships = tt; ends = tt }

nothing-IsSound : IsSound no_elements
nothing-IsSound = record {
  tidy = record { keyed = tt; nodes = tt; tracked = refl; relationships = tt };
  closed = tt;
}

-- The paths in what the database answers connect their own nodes.
abbrev pub AnswersConnected : Env → Type 0
AnswersConnected env =
    (query : String) (parameters : Dict String Json) (rows : List Entries)
    → env.execute_cypher_query query parameters ≡ returned rows
    → All HasConnected rows

formatted-Draws :
    (env : Env) (rows : Outcome (List Entries))
    → ((found : List Entries) → rows ≡ returned found → All HasConnected found)
    → Draws (formatted env rows)
unfolding format_query_results
formatted-Draws env (raised x) h = tt
formatted-Draws env (returned rows) h =
    respond-Draws env rows (extract_records rows false no_elements)
      (extract_records-IsSound rows false no_elements (h rows refl) nothing-IsSound)

read_only-Draws :
    (env : Env) (query : String) (parameters : Dict String Json) (verdict : Verdict)
    → AnswersConnected env
    → Draws (if_read_only env query parameters verdict)
read_only-Draws env query parameters no_tokens h = tt
read_only-Draws env query parameters (answer false) h = tt
read_only-Draws env query parameters (answer true) h =
    formatted-Draws env (env.execute_cypher_query query parameters) (h query parameters)

resolved-Draws :
    (env : Env) (resolved : Outcome (String × Dict String Json))
    → AnswersConnected env
    → Draws (execute_resolved env resolved)
unfolding execute_and_format_query
resolved-Draws env (raised x) h = tt
resolved-Draws env (returned (query, parameters)) h =
    read_only-Draws env query parameters (validate_read_only_query env.tokenise query) h

-- Where the paths in the results of the database connect their own nodes, a request raises, or its
-- response names no node and no relationship twice, and both ends of each relationship are among its
-- nodes: those of the query, wherever they stand in a result, and those that are added between its nodes.
pub execute_graph_request-Draws :
    (env : Env) (r : GraphExecuteRequest)
    → AnswersConnected env
    → Draws (execute_graph_request env r)
unfolding execute_graph_request
execute_graph_request-Draws env r h = resolved-Draws env (resolve_executable_query env r) h

-- ===== src/Sink/Upsert.antt =====
-- `_handle_person` and `upsert_signal` of src/connectors/consumers/sinks/neo4j_sink.py, with the person
-- cache of src/connectors/commons/person_cache.py.
use work_behavior_analytics.Prelude.{
  Bool, true, false, String, Option, none, some, List, [], ◌∷◌, ◌==◌, text_key, if◌then◌else◌,
}
use work_behavior_analytics.Prelude.Text.{is_empty, lower}
use work_behavior_analytics.Prelude.Dict.{Dict, lookup}
use work_behavior_analytics.Prelude.Json.{Json, null, bool, num, str, arr, obj}
use work_behavior_analytics.Persons.Graph.{Store, wba_format}
use work_behavior_analytics.Persons.Cache.{Session, Sighting}
use work_behavior_analytics.Persons.Resolve.{Answer, person, raised, get_or_create_person}
use work_behavior_analytics.Persons.Identities.{
  Mapping, queue_identity_mapping, flush_identity_mappings,
}
use work_behavior_analytics.Sink.Resolve.{DbRelationship, Queries, text_of, to_db_relationships}
use work_behavior_analytics.Sink.Handlers.{
  Signal, wba_node_id, sync_timestamp, Merge, attr, merged, handlers,
}

-- `_PersonMapping`
pub record PersonMapping : Type 0 where
  pub provider : String
  pub external_id_attr : String
  pub identity_provider_label : String
  pub username_attr : String
  pub pass_url : Bool
  pub pass_account_id : Bool

abbrev pub provider_mappings : Dict String PersonMapping
provider_mappings =
    (
      "github",
      record {
        provider = "github";
        external_id_attr = "login";
        identity_provider_label = "GitHub";
        username_attr = "login";
        pass_url = true;
        pass_account_id = false;
      },
    )
    ∷ (
      "jira",
      record {
        provider = "jira";
        external_id_attr = "account_id";
        identity_provider_label = "Jira";
        username_attr = "full_name";
        pass_url = false;
        pass_account_id = true;
      },
    )
    ∷ (
      "confluence",
      record {
        provider = "confluence";
        external_id_attr = "account_id";
        identity_provider_label = "Confluence";
        username_attr = "full_name";
        pass_url = true;
        pass_account_id = true;
      },
    )
    ∷ []

-- An attribute that is a text or None.
abbrev pub text_in : Json → Option String
text_in (str t) = some t
text_in null = none
text_in (bool b) = none
text_in (num n) = none
text_in (arr xs) = none
text_in (obj d) = none

-- `a or b`
abbrev pub first_text : String → String → String
first_text a b = if is_empty a then b else a

-- `raw_email.lower() if raw_email else None`
unfoldable pub lowered : Option String → Option String
unfolding lower
lowered none = none
lowered (some raw) = if is_empty raw then none else some (lower raw)

abbrev pub external_id_of : Signal → PersonMapping → Option String
external_id_of s m = text_in (attr s m.external_id_attr (str ""))

abbrev pub name_of : Signal → PersonMapping → String
name_of s m =
    first_text (text_of (text_in (attr s "full_name" (str "")))) (text_of (external_id_of s m))

unfoldable pub sighting_of : String → Signal → PersonMapping → Sighting
unfolding attr lowered
sighting_of now s m = record {
  email = lowered (text_in (attr s "email" null));
  name = name_of s m;
  provider = some m.provider;
  external_id = external_id_of s m;
  url = if m.pass_url then text_in (attr s "url" null) else none;
  account_id = if m.pass_account_id then external_id_of s m else none;
  observed_at = some (sync_timestamp now s.ingestion_time);
}

unfoldable pub mapping_of : String → Signal → PersonMapping → String → Mapping
unfolding attr lowered wba_format
mapping_of later s m person_id = record {
  person_id = person_id;
  identity_id = wba_format m.provider "IdentityMapping" (text_of (external_id_of s m));
  provider = m.identity_provider_label;
  username = first_text (text_of (text_in (attr s m.username_attr (str "")))) (name_of s m);
  email = text_of (lowered (text_in (attr s "email" null)));
  last_updated_at = later;
}

abbrev pub json_text : Option String → Json
json_text none = null
json_text (some e) = str e

-- Without a cache.
abbrev pub person_merge : Queries → String → Signal → Merge
person_merge queries now s = merged queries now s "Person" "Person" (
    ("name", attr s "full_name" null)
    ∷ ("email", json_text (lowered (text_in (attr s "email" null))))
    ∷ ("url", attr s "url" null)
    ∷ [])

module _ (store : Store) where
  open store use {Graph, rehome_person}

  -- What the sink asks of the graph besides: the lookups of the relationships, and its merges, which
  -- give false where they raise.
  pub record Sink : Type 0 where
    pub queries : Graph → Queries
    pub merge_node : Graph → Merge → Bool × Graph
    pub merge_relationship : Graph → DbRelationship → Bool × Graph

  -- The id that is stored, none where nothing is, or an exception.
  pub data Stored : Type 0 where
    stored : Option String → Stored
    failed : Stored

  abbrev pub then_on : Bool × Graph → (Graph → Bool × Graph) → Bool × Graph
  then_on (false, g) next = (false, g)
  then_on (true, g) next = next g

  unfoldable pub merge_relationships : Sink → List DbRelationship → Graph → Bool × Graph
  merge_relationships sink [] g = (true, g)
  merge_relationships sink (rel ∷ rels) g =
      then_on (sink.merge_relationship g rel) (merge_relationships sink rels)

  -- The stub of the signal's own id is merged into the person.
  abbrev pub rehomed : Signal → String → Graph → Bool × Graph
  rehomed s person_id g =
      if person_id == wba_node_id s then (true, g) else rehome_person g (wba_node_id s) person_id

  abbrev pub stored_if : Session store → String → Bool × Graph → Stored × Session store
  stored_if t person_id (false, g) = (failed, record t { graph = g })
  stored_if t person_id (true, g) = (stored (some person_id), record t { graph = g })

  -- After the rehome.
  abbrev pub relate :
      Sink
      → String
      → Signal
      → PersonMapping
      → String
      → Session store
      → Bool × Graph
      → Stored × Session store
  relate sink later s m person_id t (false, g) = (failed, record t { graph = g })
  relate sink later s m person_id t (true, g) =
      stored_if
        (record t { cache = queue_identity_mapping t.cache (mapping_of later s m person_id) })
        person_id
        (merge_relationships sink
          (to_db_relationships (sink.queries g) s.relationships person_id "Person") g)

  abbrev pub after_person :
      Sink → String → Signal → PersonMapping → Answer × Session store → Stored × Session store
  after_person sink later s m (raised, t) = (failed, t)
  after_person sink later s m (person person_id is_new, t) =
      if is_empty person_id
      then (stored (some person_id), t)
      else relate sink later s m person_id t (rehomed s person_id t.graph)

  -- `_handle_person` with a cache; a source without a mapping stores nothing.
  abbrev pub handle_mapped :
      Sink
      → String
      → String
      → Signal
      → Session store
      → Option PersonMapping
      → Stored × Session store
  handle_mapped sink now later s t none = (stored none, t)
  handle_mapped sink now later s t (some m) =
      after_person sink later s m (get_or_create_person store t (sighting_of now s m))

  unfoldable pub handle_person :
      Sink → String → String → Signal → Session store → Stored × Session store
  unfolding get_or_create_person sighting_of mapping_of queue_identity_mapping merge_relationships
      lookup to_db_relationships wba_format
  handle_person sink now later s t =
      handle_mapped sink now later s t (lookup provider_mappings s.source)

  -- The person's id where there is one, and else the signal's own.
  abbrev pub canonical : Signal → Option String → String
  canonical s none = wba_node_id s
  canonical s (some id) = if is_empty id then wba_node_id s else id

  abbrev pub flushed : String → Bool × Session store → Stored × Session store
  flushed id (false, t) = (failed, t)
  flushed id (true, t) = (stored (some id), t)

  abbrev pub finish : Signal → Stored × Session store → Stored × Session store
  finish s (failed, t) = (failed, t)
  finish s (stored resolved, t) = flushed (canonical s resolved) (flush_identity_mappings store t)

  abbrev pub merged_by :
      Sink
      → String
      → Signal
      → Session store
      → Option (Queries → String → Signal → Merge)
      → Stored × Session store
  merged_by sink now s t none = (stored (some (wba_node_id s)), t)
  merged_by sink now s t (some handler) =
      stored_if t (wba_node_id s) (sink.merge_node t.graph (handler (sink.queries t.graph) now s))

  -- Without a handler there is no flush.
  abbrev pub handle_node :
      Sink
      → String
      → Signal
      → Session store
      → Option (Queries → String → Signal → Merge)
      → Stored × Session store
  handle_node sink now s t none = (stored (some (wba_node_id s)), t)
  handle_node sink now s t (some handler) = finish s (merged_by sink now s t (some handler))

  -- `upsert_signal` with a cache.
  unfoldable pub upsert_signal :
      Sink → String → String → Signal → Session store → Stored × Session store
  unfolding handle_person flush_identity_mappings lookup merged wba_format
  upsert_signal sink now later s t =
      if s.entity_type == "Person"
      then finish s (handle_person sink now later s t)
      else handle_node sink now s t (lookup handlers s.entity_type)

  -- `upsert_signal` without one, which changes no cache.
  unfoldable pub upsert_without_cache :
      Sink → String → Signal → Session store → Stored × Session store
  unfolding lookup merged lowered attr wba_format
  upsert_without_cache sink now s t =
      if s.entity_type == "Person"
      then stored_if t (wba_node_id s)
          (sink.merge_node t.graph (person_merge (sink.queries t.graph) now s))
      else merged_by sink now s t (lookup handlers s.entity_type)

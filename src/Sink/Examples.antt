-- ===== src/Sink/Examples.antt =====
-- Signals on a small graph, and the theorems of the graph sink at these inputs.
use work_behavior_analytics.Prelude.{
  true, false, String, ◌≡◌, refl, Option, none, some, List, [], ◌∷◌, ◌==◌, text_key, if◌then◌else◌,
}
use work_behavior_analytics.Prelude.Dict.{lookup, insert}
use work_behavior_analytics.Prelude.Json.{str, end, field, get}
use work_behavior_analytics.Prelude.Text.{lower}
use work_behavior_analytics.Persons.Graph.{Store, Person, wba_format}
use work_behavior_analytics.Persons.Cache.{Session, empty_cache, rename, rename_pending}
use work_behavior_analytics.Persons.Resolve.{
  reroute_to_email_owner, provider_hit, email_hit, merge_and_remember, by_own_id,
  lookup_by_atlassian_account, by_account_query, by_account_cache, by_account, by_email_query,
  resolve, get_or_create_person,
}
use work_behavior_analytics.Persons.Identities.{
  queue_identity_mapping, flush_each, flush_identity_mappings,
}
use work_behavior_analytics.Sink.Resolve.{
  SignalRelationship, Queries, emails_of, urls_of, identities_of, persons_of, distinct, add_rows,
  run_query, batch_resolve_targets, resolve_target, convert_all, to_db_relationships,
}
use work_behavior_analytics.Sink.Batched.{direct_target, to_db_relationships-direct}
use work_behavior_analytics.Sink.Handlers.{Signal, attr, merged, handle_issue}
use work_behavior_analytics.Sink.Upsert.{
  Sink, stored, PersonMapping, lowered, sighting_of, mapping_of, merge_relationships, handle_person,
  upsert_signal, upsert_without_cache,
}
use work_behavior_analytics.Sink.Merged.{IsOwn, handlers-IsOwn}
use work_behavior_analytics.Sink.Canonical.{Canonical, upsert_signal-Canonical}

-- A graph that knows nobody and accepts every write.
abbrev people : Store
people = record {
  Graph = List Person;
  person_by_email = λ g email. none;
  person_by_identity = λ g ids. none;
  person_by_ids = λ g ids. none;
  merge_person = λ g q. (true, q ∷ g);
  rehome_person = λ g stale owner. (true, g);
  merge_identity_mapping = λ g identity rel. (true, g);
}

abbrev empty : Session people
empty = record { cache = empty_cache; graph = [] }

abbrev answers : Queries
answers = record {
  persons_of_email = λ k. if k == "ada@x.org" then "github::Person::ada" ∷ [] else [];
  nodes_of_url = λ k. [];
  persons_of_identity =
      λ k. if k == "confluence::IdentityMapping::7" then "jira::Person::7" ∷ [] else [];
  persons_of_id = λ k. [];
}

abbrev sink : Sink people
sink = record {
  queries = λ g. answers;
  merge_node = λ g m. (true, g);
  merge_relationship = λ g rel. (true, g);
}

abbrev to_person : Option String → String → SignalRelationship
to_person email id = record {
  type = "ASSIGNED_TO";
  target = record {
    source = some "jira";
    entity_type = some "Person";
    id = some id;
    email = email;
    url = none;
  };
  direction = none;
  properties = [];
}

abbrev targets : List SignalRelationship
targets =
    to_person (some "ada@x.org") "1"
    ∷ to_person none "7"
    ∷ record (to_person none "8") { direction = some "IN" }
    ∷ []

abbrev issue : Signal
issue = record {
  source = "jira";
  entity_type = "Issue";
  id = "P-1";
  ingestion_time = none;
  attributes = field "key" (str "P-1") end;
  relationships = targets;
}

abbrev ada : Signal
ada = record {
  source = "github";
  entity_type = "Person";
  id = "ada";
  ingestion_time = some "t1";
  attributes = field "login" (str "ada") (field "email" (str "Ada@X.org") end);
  relationships = [];
}

abbrev github : PersonMapping
github = record {
  provider = "github";
  external_id_attr = "login";
  identity_provider_label = "GitHub";
  username_attr = "login";
  pass_url = true;
  pass_account_id = false;
}

program : Unit {0}
unfolding emails_of urls_of identities_of persons_of distinct add_rows run_query insert lookup
    batch_resolve_targets resolve_target convert_all to_db_relationships wba_format get attr merged
    lower lowered sighting_of mapping_of merge_relationships handle_person upsert_signal
    upsert_without_cache rename rename_pending reroute_to_email_owner provider_hit email_hit
    merge_and_remember by_own_id lookup_by_atlassian_account by_account_query by_account_cache
    by_account by_email_query resolve get_or_create_person queue_identity_mapping flush_each
    flush_identity_mappings
program = tt
  where
    related :
        to_db_relationships answers targets "jira::Issue::P-1" "Issue"
        ≡ record {
          type = "ASSIGNED_TO";
          from_id = "jira::Issue::P-1";
          to_id = "github::Person::ada";
          from_type = "Issue";
          to_type = "Person";
          properties = [];
        }
          ∷ record {
            type = "ASSIGNED_TO";
            from_id = "jira::Issue::P-1";
            to_id = "jira::Person::7";
            from_type = "Issue";
            to_type = "Person";
            properties = [];
          }
          ∷ record {
            type = "ASSIGNED_TO";
            from_id = "jira::Person::8";
            to_id = "jira::Issue::P-1";
            from_type = "Person";
            to_type = "Issue";
            properties = [];
          }
          ∷ []
    related = refl

    without_handler :
        (upsert_signal people sink "now" "later" (record issue { entity_type = "Branch" }) empty).0
        ≡ stored (some "jira::Branch::P-1")
    without_handler = refl

    without_mapping :
        (upsert_signal people sink "now" "later" (record ada { source = "gitlab" }) empty).0
        ≡ stored (some "gitlab::Person::ada")
    without_mapping = refl

    without_cache :
        (upsert_without_cache people sink "now" ada empty).0 ≡ stored (some "github::Person::ada")
    without_cache = refl

to_db_relationships-direct_example :
    to_db_relationships answers targets "jira::Issue::P-1" "Issue"
    ≡ convert_all (direct_target answers) targets "jira::Issue::P-1" "Issue"
to_db_relationships-direct_example =
    to_db_relationships-direct answers targets "jira::Issue::P-1" "Issue"

handlers-IsOwn_example : IsOwn issue (handle_issue answers "now" issue)
unfolding lookup
handlers-IsOwn_example = handlers-IsOwn answers "now" issue handle_issue refl

upsert_signal-Canonical_example :
    Canonical people "github::Person::ada"
      (mapping_of "later" ada github "github::Person::ada")
      (get_or_create_person people empty (sighting_of "now" ada github)).1.cache
      (upsert_signal people sink "now" "later" ada empty)
unfolding lookup insert wba_format get attr lower lowered sighting_of rename rename_pending
    reroute_to_email_owner provider_hit email_hit merge_and_remember by_own_id
    lookup_by_atlassian_account by_account_query by_account_cache by_account by_email_query resolve
    get_or_create_person
upsert_signal-Canonical_example =
    upsert_signal-Canonical people sink "now" "later" "github::Person::ada" true ada github empty
      (get_or_create_person people empty (sighting_of "now" ada github)).1 refl refl refl refl refl

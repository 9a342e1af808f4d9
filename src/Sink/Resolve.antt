-- ===== src/Sink/Resolve.antt =====
-- The relationships of a signal as relationships of the graph: `_batch_resolve_targets` and
-- `_to_db_relationships` of src/connectors/consumers/sinks/neo4j_sink.py.
use work_behavior_analytics.Prelude.{
  Bool, true, false, not, ◌&&◌, ◌||◌, String, Option, none, some, List, [], ◌∷◌, ◌++◌, filter,
  or_else, ◌==◌, text_key, if◌then◌else◌,
}
use work_behavior_analytics.Prelude.Text.{is_empty}
use work_behavior_analytics.Prelude.Dict.{Dict, lookup, insert}
use work_behavior_analytics.Prelude.Json.{Json}
use work_behavior_analytics.Persons.Graph.{wba_format}

-- `RelationshipTarget` of src/common/activity_signal/models.py
pub record Target : Type 0 where
  pub source : Option String
  pub entity_type : Option String
  pub id : Option String
  pub email : Option String
  pub url : Option String

-- Its `Relationship`. `properties` is empty where it is None.
pub record SignalRelationship : Type 0 where
  pub type : String
  pub target : Target
  pub direction : Option String
  pub properties : Dict String Json

-- `Relationship` of src/connectors/neo4j_db/models.py
pub record DbRelationship : Type 0 where
  pub type : String
  pub from_id : String
  pub to_id : String
  pub from_type : String
  pub to_type : String
  pub properties : Dict String Json

-- What the four queries find for a key: the ids of the nodes, in the order of the rows. Every node has
-- an id.
pub record Queries : Type 0 where
  pub persons_of_email : String → List String
  pub nodes_of_url : String → List String
  pub persons_of_identity : String → List String
  pub persons_of_id : String → List String

-- Python's truth value of an optional text
abbrev pub given : Option String → Bool
given none = false
given (some s) = not (is_empty s)

abbrev pub has_identifier : Target → Bool
has_identifier t = given t.id || given t.email || given t.url

abbrev pub equals : Option String → String → Bool
equals none s = false
equals (some t) s = t == s

abbrev pub is_person : Target → Bool
is_person t = equals t.entity_type "Person"

-- A person of the account ids that Jira and Confluence share.
abbrev pub is_atlassian : Target → Bool
is_atlassian t =
    is_person t && (equals t.source "jira" || equals t.source "confluence") && given t.id

abbrev pub text_of : Option String → String
text_of none = ""
text_of (some s) = s

abbrev pub identity_keys : String → List String
identity_keys account =
    wba_format "jira" "IdentityMapping" account
    ∷ wba_format "confluence" "IdentityMapping" account
    ∷ []

abbrev pub person_keys : String → List String
person_keys account =
    wba_format "jira" "Person" account ∷ wba_format "confluence" "Person" account ∷ []

abbrev pub add_if : Bool → List String → List String → List String
add_if true keys rest = keys ++ rest
add_if false keys rest = rest

unfoldable pub emails_of : List SignalRelationship → List String
emails_of [] = []
emails_of (rel ∷ rels) =
    add_if (has_identifier rel.target && is_person rel.target && given rel.target.email)
      (text_of rel.target.email ∷ []) (emails_of rels)

unfoldable pub urls_of : List SignalRelationship → List String
urls_of [] = []
urls_of (rel ∷ rels) =
    add_if (has_identifier rel.target && given rel.target.url) (text_of rel.target.url ∷ [])
      (urls_of rels)

unfoldable pub identities_of : List SignalRelationship → List String
identities_of [] = []
identities_of (rel ∷ rels) =
    add_if (has_identifier rel.target && is_atlassian rel.target)
      (identity_keys (text_of rel.target.id)) (identities_of rels)

unfoldable pub persons_of : List SignalRelationship → List String
persons_of [] = []
persons_of (rel ∷ rels) =
    add_if (has_identifier rel.target && is_atlassian rel.target)
      (person_keys (text_of rel.target.id)) (persons_of rels)

-- `list(dict.fromkeys(keys))`
unfoldable pub distinct : List String → List String
distinct [] = []
distinct (k ∷ ks) = let rest = distinct ks in k ∷ filter (λ j. not (j == k)) rest

-- The rows of one key: a later one replaces an earlier one.
unfoldable pub add_rows : Dict String String → String → List String → Dict String String
unfolding insert
add_rows found key [] = found
add_rows found key (id ∷ ids) = add_rows (insert found key id) key ids

unfoldable pub run_query :
    (String → List String) → List String → Dict String String → Dict String String
unfolding add_rows
run_query rows [] found = found
run_query rows (key ∷ keys) found = run_query rows keys (add_rows found key (rows key))

pub record Maps : Type 0 where
  pub email_map : Dict String String
  pub url_map : Dict String String
  pub atlassian_map : Dict String String

unfoldable pub batch_resolve_targets : Queries → List SignalRelationship → Maps
unfolding emails_of urls_of identities_of persons_of distinct run_query
batch_resolve_targets session rels = record {
  email_map = run_query session.persons_of_email (distinct (emails_of rels)) [];
  url_map = run_query session.nodes_of_url (distinct (urls_of rels)) [];
  atlassian_map =
      run_query session.persons_of_id (distinct (persons_of rels))
        (run_query session.persons_of_identity (distinct (identities_of rels)) []);
}

-- `next((found[key] for key in keys if key in found), None)`
abbrev pub first_of : (String → Option String) → List String → Option String
first_of find [] = none
first_of find (key ∷ keys) = or_else (find key) (first_of find keys)

-- What a target resolves to, with the ways to look a key up.
unfoldable pub resolve_target :
    (String → Option String)
    → (String → Option String)
    → (String → Option String)
    → Target
    → Option String
unfolding wba_format
resolve_target by_email by_url by_account t =
    let account = text_of t.id in
    or_else (if is_person t && given t.email then by_email (text_of t.email) else none) (
      or_else (if given t.url then by_url (text_of t.url) else none) (
        or_else
          (if is_atlassian t
            then or_else (first_of by_account (identity_keys account))
                (first_of by_account (person_keys account))
            else none)
          (if given t.source && given t.entity_type && given t.id
            then some (wba_format (text_of t.source) (text_of t.entity_type) account)
            else none)))

abbrev pub to_type : Target → String
to_type t = if given t.entity_type then text_of t.entity_type else "Node"

abbrev pub db_relationship : SignalRelationship → String → String → String → DbRelationship
db_relationship rel from_id from_type to_id =
    if equals rel.direction "IN"
    then record {
      type = rel.type;
      from_id = to_id;
      to_id = from_id;
      from_type = to_type rel.target;
      to_type = from_type;
      properties = rel.properties;
    }
    else record {
      type = rel.type;
      from_id = from_id;
      to_id = to_id;
      from_type = from_type;
      to_type = to_type rel.target;
      properties = rel.properties;
    }

abbrev pub converted : SignalRelationship → String → String → Option String → List DbRelationship
converted rel from_id from_type none = []
converted rel from_id from_type (some to_id) = db_relationship rel from_id from_type to_id ∷ []

-- The loop, with a way to resolve a target.
unfoldable pub convert_all :
    (Target → Option String) → List SignalRelationship → String → String → List DbRelationship
convert_all resolve [] from_id from_type = []
convert_all resolve (rel ∷ rels) from_id from_type =
    (if has_identifier rel.target then converted rel from_id from_type (resolve rel.target) else [])
    ++ convert_all resolve rels from_id from_type

abbrev pub with_maps : Maps → Target → Option String
with_maps maps =
    resolve_target (lookup maps.email_map) (lookup maps.url_map) (lookup maps.atlassian_map)

unfoldable pub to_db_relationships :
    Queries → List SignalRelationship → String → String → List DbRelationship
unfolding batch_resolve_targets lookup resolve_target convert_all
to_db_relationships session rels from_id from_type =
    convert_all (with_maps (batch_resolve_targets session rels)) rels from_id from_type

-- ===== src/Sink/Handlers.antt =====
-- The handlers of src/connectors/consumers/sinks/neo4j_sink.py for what is not a person: the node and
-- the relationships that each gives to its merge.
use work_behavior_analytics.Prelude.{
  false, String, Option, none, some, List, [], ◌∷◌, if◌then◌else◌,
}
use work_behavior_analytics.Prelude.Dict.{Dict}
use work_behavior_analytics.Prelude.Json.{
  Json, null, bool, num, str, arr, nil, Fields, get, is_falsy,
}
use work_behavior_analytics.Persons.Graph.{wba_format}
use work_behavior_analytics.Sink.Resolve.{
  SignalRelationship, DbRelationship, Queries, to_db_relationships,
}

-- What the sink reads of an `ActivitySignal`; `attributes` is their model_dump().
pub record Signal : Type 0 where
  pub source : String
  pub entity_type : String
  pub id : String
  pub ingestion_time : Option String
  pub attributes : Fields
  pub relationships : List SignalRelationship

-- `wba_node_id`
abbrev pub wba_node_id : Signal → String
wba_node_id s = wba_format s.source s.entity_type s.id

-- `_sync_timestamp`, where `now` is the clock
abbrev pub sync_timestamp : String → Option String → String
sync_timestamp now none = now
sync_timestamp now (some t) = t

-- A node of src/connectors/neo4j_db/models.py by its label and fields, and what is merged with it.
pub record Merge : Type 0 where
  pub label : String
  pub id : String
  pub properties : Dict String Json
  pub last_observed_at : String
  pub relationships : List DbRelationship

abbrev pub json_or : Option Json → Json → Json
json_or none default = default
json_or (some v) default = v

-- `attrs.get(key, default)`
unfoldable pub attr : Signal → String → Json → Json
unfolding get
attr s key default = json_or (get s.attributes key) default

-- `v or default`
abbrev pub or_value : Json → Json → Json
or_value v default = if is_falsy v then default else v

-- The class of the node, and the type that its relationships are converted with.
unfoldable pub merged : Queries → String → Signal → String → String → Dict String Json → Merge
unfolding to_db_relationships wba_format
merged queries now s label from_type properties = record {
  label = label;
  id = wba_node_id s;
  properties = properties;
  last_observed_at = sync_timestamp now s.ingestion_time;
  relationships = to_db_relationships queries s.relationships (wba_node_id s) from_type;
}

abbrev pub handle_repository : Queries → String → Signal → Merge
handle_repository queries now s = merged queries now s "Repository" "Repository" (
    ("name", str s.id)
    ∷ ("url", attr s "url" (str ""))
    ∷ ("language", attr s "language" (str ""))
    ∷ ("is_private", attr s "is_private" (bool false))
    ∷ ("topics", or_value (attr s "topics" null) (arr nil))
    ∷ ("created_at", attr s "created_at" (str ""))
    ∷ [])

abbrev pub handle_space : Queries → String → Signal → Merge
handle_space queries now s = merged queries now s "Space" "Space" (
    ("key", attr s "key" (str ""))
    ∷ ("name", attr s "name" (str ""))
    ∷ ("type", attr s "type" null)
    ∷ ("url", attr s "url" null)
    ∷ [])

abbrev pub handle_page : Queries → String → Signal → Merge
handle_page queries now s = merged queries now s "Page" "Page" (
    ("title", attr s "title" (str ""))
    ∷ ("created_at", attr s "created_at" (str ""))
    ∷ ("last_updated_at", attr s "last_updated_at" null)
    ∷ ("url", attr s "url" null)
    ∷ ("version", attr s "version" null)
    ∷ ("status", attr s "status" null)
    ∷ [])

abbrev pub handle_blogpost : Queries → String → Signal → Merge
handle_blogpost queries now s = merged queries now s "Blogpost" "Blogpost" (
    ("title", attr s "title" (str ""))
    ∷ ("created_at", attr s "created_at" (str ""))
    ∷ ("last_updated_at", attr s "last_updated_at" null)
    ∷ ("url", attr s "url" null)
    ∷ ("version", attr s "version" null)
    ∷ ("status", attr s "status" null)
    ∷ [])

abbrev pub handle_commit : Queries → String → Signal → Merge
handle_commit queries now s = merged queries now s "Commit" "Commit" (
    ("sha", attr s "sha" (str ""))
    ∷ ("message", attr s "message" (str ""))
    ∷ ("created_at", attr s "created_at" (str ""))
    ∷ ("additions", attr s "additions" (num 0))
    ∷ ("deletions", attr s "deletions" (num 0))
    ∷ ("files_changed", attr s "files_changed" (num 0))
    ∷ ("url", attr s "url" null)
    ∷ [])

abbrev pub handle_pull_request : Queries → String → Signal → Merge
handle_pull_request queries now s = merged queries now s "PullRequest" "PullRequest" (
    ("number", attr s "pull_request_number" (num 0))
    ∷ ("title", attr s "title" (str ""))
    ∷ ("state", attr s "state" (str ""))
    ∷ ("created_at", attr s "created_at" (str ""))
    ∷ ("updated_at", attr s "updated_at" (str ""))
    ∷ ("merged_at", attr s "merged_at" null)
    ∷ ("closed_at", attr s "closed_at" null)
    ∷ ("commits_count", attr s "commits_count" (num 0))
    ∷ ("additions", attr s "additions" (num 0))
    ∷ ("deletions", attr s "deletions" (num 0))
    ∷ ("changed_files", attr s "changed_files" (num 0))
    ∷ ("comments", attr s "comments" (num 0))
    ∷ ("review_comments", attr s "review_comments" (num 0))
    ∷ ("head_branch_name", attr s "head_branch_name" (str ""))
    ∷ ("base_branch_name", attr s "base_branch_name" (str ""))
    ∷ ("labels", or_value (attr s "labels" null) (arr nil))
    ∷ ("mergeable_state", attr s "mergeable_state" (str ""))
    ∷ ("url", attr s "url" null)
    ∷ [])

abbrev pub handle_team : Queries → String → Signal → Merge
handle_team queries now s = merged queries now s "Team" "Team" (
    ("name", attr s "name" null)
    ∷ ("source", str s.source)
    ∷ ("created_at", attr s "created_at" null)
    ∷ ("url", attr s "url" null)
    ∷ [])

abbrev pub handle_project : Queries → String → Signal → Merge
handle_project queries now s = merged queries now s "Project" "Project" (
    ("key", attr s "project_key" (str ""))
    ∷ ("name", attr s "project_name" (str ""))
    ∷ ("status", attr s "status" null)
    ∷ ("project_type", attr s "project_type" null)
    ∷ ("url", attr s "url" null)
    ∷ [])

abbrev pub handle_initiative : Queries → String → Signal → Merge
handle_initiative queries now s = merged queries now s "Initiative" "Initiative" (
    ("key", attr s "key" (str ""))
    ∷ ("summary", attr s "summary" (str ""))
    ∷ ("priority", attr s "priority" (str ""))
    ∷ ("status", attr s "status" (str ""))
    ∷ ("created_at", attr s "created_at" (str ""))
    ∷ ("updated_at", attr s "updated_at" (str ""))
    ∷ ("duedate", attr s "duedate" null)
    ∷ ("labels", or_value (attr s "labels" null) (arr nil))
    ∷ ("components", or_value (attr s "components" null) (arr nil))
    ∷ ("url", attr s "url" null)
    ∷ [])

abbrev pub handle_epic : Queries → String → Signal → Merge
handle_epic queries now s = merged queries now s "Epic" "Epic" (
    ("key", attr s "key" (str ""))
    ∷ ("summary", attr s "summary" (str ""))
    ∷ ("priority", attr s "priority" (str ""))
    ∷ ("status", attr s "status" (str ""))
    ∷ ("start_date", attr s "start_date" (str ""))
    ∷ ("due_date", attr s "due_date" (str ""))
    ∷ ("created_at", attr s "created_at" (str ""))
    ∷ ("updated_at", attr s "updated_at" null)
    ∷ ("url", attr s "url" null)
    ∷ [])

abbrev pub handle_sprint : Queries → String → Signal → Merge
handle_sprint queries now s = merged queries now s "Sprint" "Sprint" (
    ("name", attr s "name" (str ""))
    ∷ ("goal", or_value (attr s "goal" null) (str ""))
    ∷ ("start_date", or_value (attr s "start_date" null) (str ""))
    ∷ ("end_date", or_value (attr s "end_date" null) (str ""))
    ∷ ("status", attr s "status" (str ""))
    ∷ ("url", attr s "url" null)
    ∷ [])

abbrev pub handle_issue : Queries → String → Signal → Merge
handle_issue queries now s = merged queries now s "Issue" "Issue" (
    ("key", attr s "key" (str ""))
    ∷ ("type", attr s "type" (str ""))
    ∷ ("summary", attr s "summary" (str ""))
    ∷ ("priority", attr s "priority" (str ""))
    ∷ ("status", attr s "status" (str ""))
    ∷ ("story_points", attr s "story_points" (num 0))
    ∷ ("source", str s.source)
    ∷ ("created_at", attr s "created_at" (str ""))
    ∷ ("updated_at", attr s "updated_at" null)
    ∷ ("url", attr s "url" null)
    ∷ [])

abbrev pub handle_file : Queries → String → Signal → Merge
handle_file queries now s = merged queries now s "File" "File" (
    ("path", attr s "path" (str ""))
    ∷ ("repo_name", attr s "repo_name" (str ""))
    ∷ ("name", attr s "name" null)
    ∷ ("extension", attr s "extension" null)
    ∷ ("language", attr s "language" null)
    ∷ ("is_test", attr s "is_test" null)
    ∷ ("last_updated_at", attr s "last_updated_at" null)
    ∷ ("url", attr s "url" null)
    ∷ [])

-- `_HANDLERS`
abbrev pub handlers : Dict String (Queries → String → Signal → Merge)
handlers =
    ("Repository", handle_repository)
    ∷ ("Commit", handle_commit)
    ∷ ("PullRequest", handle_pull_request)
    ∷ ("Space", handle_space)
    ∷ ("Page", handle_page)
    ∷ ("Blogpost", handle_blogpost)
    ∷ ("Team", handle_team)
    ∷ ("Project", handle_project)
    ∷ ("Initiative", handle_initiative)
    ∷ ("Epic", handle_epic)
    ∷ ("Sprint", handle_sprint)
    ∷ ("Issue", handle_issue)
    ∷ ("File", handle_file)
    ∷ []

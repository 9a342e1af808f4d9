-- ===== src/Lib.antt =====
-- Work Behavior Analytics: a model of the program's core and the theorems about it.
--
-- The program collects activity from GitHub, Jira and Confluence. An API (src/app/api) keeps the
-- state in tables and publishes commands to a queue; a producer daemon per connector
-- (src/connectors/producers) takes a command, spawns a scan child and reports back over HTTP.
--
-- * Commands models src/app/api/commands/v1/service.py, the row of
--   src/app/db/models/command_status.py, the publisher of
--   src/common/command_n_control/publisher.py and the targets of
--   src/domain/connector_registry.py. A table is a list of rows; `create_and_publish_command`,
--   `get_command`, `list_commands` and `update_command_status` are functions from the table to the
--   result and the new table. The broker is a parameter: whether it connects, and which routing keys
--   it takes.
-- * Daemon models src/connectors/producers/daemon_common.py. `Daemon.World` has the requests: each
--   has a fate by its number (unreachable, 401, another error, served with the reply lost, served),
--   and what the server does with it is the operation of Commands. `Daemon.State` has the children
--   and the functions on them, `Daemon.Cancel` the cancel, `Daemon.Loop` the consume loop with its
--   start and end, `Daemon.System` the interleavings of the daemon with its scan children. A SIGCHLD
--   is handled between two events.
-- * Persons models src/connectors/commons/person_cache.py: `Persons.Cache` has the state,
--   `Persons.Resolve` the steps of `get_or_create_person`, `Persons.Identities` the mappings that
--   wait for a flush. The graph database is the parameter `Store`: what its queries find, and what
--   its writes leave, with false where they raise.
-- * Scheduler models src/app/scheduler.py: the lease of src/app/db/models/scheduler_lease.py, the due
--   check and a tick, which creates commands with the operation of Commands. uuid4, the clock and the
--   broker of each creation are the parameter `Calls`; the database works.
-- * Tokens models src/common/auth/service_token.py. A call has the state that its checks before the
--   lock read as a separate argument, so that another thread may change it in between.
-- * Sessions models the login of src/app/api/auth/v1/service.py: `Sessions.Table` has the rows of
--   auth_session with the statements of src/app/api/auth/v1/query.py, `Sessions.Keycloak` the answers
--   and the login cookie, `Sessions.Paths` the guard on the path, `Sessions.Login` and
--   `Sessions.Exchange` the operations, `Sessions.History` their interleavings. An exchange is two
--   steps. Hashes, Fernet, the JSON codec, random draws, the clock, Keycloak and the validation of its
--   tokens are the parameter `Env` and arguments.
-- * Settings models src/app/api/settings/v1/service.py: `Settings.Config` has the fields of
--   src/common/runtime_settings/config.py and the readers of src/common/runtime_settings/cache.py,
--   `Settings.Table` the rows with the statements of src/app/api/settings/v1/query.py,
--   `Settings.Source` what a value is, `Settings.Service` the requests, which refresh the service's
--   own cache, and the reload, which refreshes the process-wide one. The environment, the reading of
--   numbers, the time zones and the broker are the parameter `Env`.
-- * Sink models src/connectors/consumers/sinks/neo4j_sink.py: `Sink.Resolve` the batched resolution of
--   the targets and the conversion of the relationships, `Sink.Handlers` the handlers, `Sink.Upsert`
--   `_handle_person` and `upsert_signal`, on top of Persons. What the Cypher queries find and whether
--   the merges of src/connectors/neo4j_db raise is a parameter.
-- * Retry models src/connectors/producers/github/retry_with_backoff.py: the calls, with how long they
--   and the sleeps take, are a parameter.
-- * Activity models the timeline writer of src/connectors/consumers/activity_writer.py: `Activity.Signal`
--   what it computes of a signal, `Activity.Postgres` the writes, each with a fate by its number, and
--   `Activity.Batching` the queue and the loop, whose output are the batches it writes. A cancellation
--   in a write comes after a number of its signals. `Activity.Consumer` models consume_queue of
--   src/connectors/consumers/main.py, which feeds it.
-- * Cypher models src/app/api/graph/v1/cypher_read_only.py as src/app/api/graph/v1/query.py calls it. The
--   lexer is a parameter; capitals are those of ASCII.
-- * Graph models the queries of src/app/api/graph/v1: `Graph.Values` the values of the Neo4j driver and
--   what src/app/api/graph/v1/transformers.py makes of them, `Graph.Extract` the extraction of nodes and
--   relationships, `Graph.Service` a request from its resolution to its response, with the check of
--   Cypher. The catalog, the lexer and Neo4j are the parameter `Env`.
--
-- What runs one after the other: an update of the commands API reads, validates and commits without a
-- lock, and an update of the settings checks for conflicts and writes without one. The model serves each
-- as one step, so that what it shows of statuses and of conflicts does not cover two requests that overlap
-- (the findings name what then goes wrong). A scan child's two reports are steps of their own, and the
-- request with which a reconciliation writes may come after others; the rest of an event of the daemon is
-- one step. The sinks of the consumer are functions of the
-- signal. Every row of the batched queries has the id of its node: a null id is not modelled.
--
-- Times are numbers of seconds, ids the numbers of UUIDs. Reading and showing a UUID, processes,
-- clocks and the network are parameters. Two loops need fuel: the decimal printing of a number, which has
-- at most as many digits as the number plus one, and the retries, which with a positive delay take at
-- most one more than the budget.
--
-- Not modelled: the expansion of a node and the collaboration networks, the search sink, FastAPI routers,
-- the validation of tokens, the user interface, the AI agent, the database migrations and queries,
-- logging.
mod Prelude
pub mod Commands
pub mod Daemon
pub mod Persons
pub mod Scheduler
pub mod Tokens
pub mod Retry
pub mod Activity
pub mod Cypher
pub mod Sessions
pub mod Settings
pub mod Sink
pub mod Graph

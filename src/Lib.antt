-- ===== src/Lib.antt =====
-- Orchex runs workflows: graphs of typed nodes whose edges carry labels. A builder service edits and
-- publishes them, an execution service starts and controls runs of the published versions, a relay in
-- that service moves jobs from an outbox table to a queue, and workers take the jobs, execute one node
-- each and write the checkpoint and the next job in one transaction. This library models the parts
-- that decide: the checks of a graph, the run's state, the transactions and the path of a job.
--
-- Files and code:
-- - Publish: internal/handler/workflow/publish_validate.go. `Publish/Graph` is newPublishGraph,
--   `Checks` is uniqueStart, validateDegrees and validateEdgeLabels, `Kahn` is hasCycleKahn, `Reach`
--   is reachableFromStart, and `Validate` is validatePublishGraph. `Spec` states what README.md calls
--   a publishable graph; it uses the walks and cycles of `Digraph`.
-- - Save: internal/handler/workflow/graph.go, validateGraph, what it calls, and loadNodeTypes in
--   `Save/Load`. `Save/Spec` states what a request must satisfy, and `Save/Encode` makes the rows of
--   internal/handler/workflow/save.go.
-- - Workflows: the builder service. `Workflows` is internal/handler/workflow/types.go,
--   `Workflows/Save` save.go, `Workflows/Publish` publish.go and `Workflows/Endpoints` handler.go.
--   `Kept` states what the tables satisfy, `Rows`, `Drafts`, `Persists`, `Saves`, `Published`,
--   `Publishes` and `Requests` follow the statements, the transactions and the requests, `Invariant` joins them,
--   `Faults` is about replies with an error, and `Lookups`, `Written` and `Stores` about what a save
--   leaves.
-- - Executor: internal/executor/conditional.go, with decoded JSON as a data type. `Compare` is about
--   the comparison and `Conditional` about the whole node. `Executor/Routes` joins it
--   to the check of a published graph.
-- - Store: the tables of internal/db/sqlc/models.go in `Store/Tables`, one statement or transaction as
--   a function on the world in `Store/Effects` (internal/db/store.go, Send and Delete of
--   internal/queue/sqs.go), the statements of internal/db/sqlc/workflow_runs.sql.go in
--   `Store/RunQueries`, those of the worker on nodes and edges in `Store/GraphQueries`, and those of
--   the builder service in `Store/WorkflowQueries`, `Store/GraphWrites` and `Store/Details`.
-- - Http: internal/handler/respond.go.
-- - Runs: internal/handler/run, one function per endpoint, over the store. `Runs/Diagram` is the state
--   diagram of README.md, and the two entries in which the code differs from it.
-- - Worker: internal/worker/handler.go and persistence.go, and `Worker/Relay`, which is
--   internal/execution/relay.go. `Worker/Keeps` and `Worker/Relay/Keeps` follow a run's jobs.
-- - System: the endpoints of runs, the relay and the workers on one world, as a step relation in
--   `System/Steps`, where a call of a worker, a round of the relay or a request is a step. `Grows`,
--   `Endpoints`, `Begin`, `Work` and `Posts` are about what one transaction or round does, `Sight`,
--   `Sound`, `Withdraws` and `Handles` about the state of all services, and `Invariant` joins them.
-- - GoMap and Result: Go's maps and error returns. Prelude: the shared names and lemmas. Tests: tests
--   on small inputs, and each theorem at an input that meets its hypotheses.
--
-- How the code is read. A UUID is a number, and `uuid.Nil` is 0; JSON is text. The bounds on the
-- degrees of a node type, which the migrations seed, are natural numbers. Text that only a log or
-- an error shows is a constructor with the values it shows. The world is the database, the queue and
-- a list of faults: each statement, commit, send or delete takes one flag from the list, and fails
-- if it is set; when the list is empty, nothing fails. A transaction that fails, at its commit too,
-- restores the database, but not the queue; that a commit succeeds and its reply is lost is not
-- modelled. SQS holds a message until it is deleted, until it was received five times and goes to the
-- dead-letter queue (docker/elasticmq.conf, infra/modules/sqs), or until its retention ends; when a
-- message is delivered again is left open. A table keeps JSON as the text that it was given, where
-- jsonb puts it into its own form. Identifiers that the database generates are arguments. A
-- `range` over a map visits its keys in an order that is a parameter, and all that is assumed of it is
-- that it visits each key once. The handler of a job is a step machine with one step for each call, so
-- that other actors can act between its calls. What runs a node, the JSON and schema libraries and the
-- text of a UUID are parameters.
--
-- The two queue loops of publish_validate.go run on fuel, which is the number of different node
-- identifiers; that is enough, since a node enters a queue once, and the theorems prove that the
-- loops return. All other loops are recursive on their lists.
--
-- Not modelled: the other executors and their registry, the HTTP framework, the clients of SQS and
-- Lambda, configuration, logging, and the goroutines and timers that repeat the relay and the worker.
-- Locks of rows are not modelled: a transaction is one step. The constraints of db/migrations are
-- not checked by the model: a statement or commit that one refuses is one that fails. A repeated
-- identifier in one upsert, which Postgres refuses, does not occur, since validateGraph refuses the
-- request. The deletion of a node takes its edges along, as their foreign keys cascade.
pub mod Prelude
pub mod GoMap
pub mod Result
pub mod Digraph
pub mod Publish
pub mod Store
pub mod Http
pub mod Runs
pub mod Worker
pub mod Executor
pub mod System
pub mod Save
pub mod Workflows
mod Tests

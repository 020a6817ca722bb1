-- ===== src/Store.antt =====
-- The database, the job queue and the calls that reach them: internal/db and internal/queue.
-- `Tables` holds the rows, `Effects` the monad of fallible calls and the transaction,
-- `RunQueries` and `GraphQueries` the queries of the execution service and the worker, and
-- `WorkflowQueries`, `GraphWrites` and `Details` the statements of the builder service.
pub mod Tables
pub mod Effects
pub mod RunQueries
pub mod GraphQueries
pub mod WorkflowQueries
pub mod GraphWrites
pub mod Details

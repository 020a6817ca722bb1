-- ===== src/Store/RunQueries.antt =====
-- internal/db/sqlc/workflow_runs.sql.go: the queries on runs and on the outbox. Each statement is
-- one step.
pub mod Updates
pub mod Outbox
pub mod Start
unfoldable pub use Updates.*
unfoldable pub use Outbox.*
unfoldable pub use Start.*

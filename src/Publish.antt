-- ===== src/Publish.antt =====
-- The publish-time validation of a workflow graph: internal/handler/workflow/publish_validate.go.
-- `Graph` builds the indexed graph, `Checks` holds the checks of single nodes, `Kahn` the cycle
-- test, `Reach` the search from the start node, and `Validate` runs them in the order of
-- `validatePublishGraph`. The other children prove them correct.
pub mod Graph
pub mod Spec
pub mod Checks
pub mod Kahn
pub mod Reach
pub mod Validate
pub mod Correct
pub mod Order

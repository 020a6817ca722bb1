-- ===== src/Worker.antt =====
-- The worker and the relay: internal/worker and internal/execution/relay.go. A worker handles a
-- message in at most four calls, and other services may act between two of them, so a message
-- that is being handled is at a stage. `execute` is the registry of node executors behind the
-- worker's interface `NodeExecutor`, and `job` an identifier that the database generates.
pub mod Relay
pub mod Persist
pub mod Overwrite
pub mod Settles
pub mod Keeps
use orchex.Prelude.{ℕ, String, Bool, true, false, Option, none, some, if◌then◌else◌}
use orchex.Result.{Result, ok, err}
use orchex.Store.Tables.{RunStatus, pending, running, WorkflowRun, NodeRow, NodeJobMessage, World}
use orchex.Store.Effects.{StoreError, M, ◌>>=◌, ◌>>◌, continue, in_tx, delete_message}
use orchex.Store.RunQueries.{
  get_workflow_run, complete_workflow_run, advance_workflow_run, fail_workflow_run,
  insert_run_node_job_outbox,
}
use orchex.Store.GraphQueries.{get_node_for_execution, get_next_node_for_execution}

-- `executor.Result`
pub record ExecResult : Type 0 where
  pub output : String
  pub next_edge_label : String
  pub completed : Bool

-- `Status == Pending || Status == Running`
abbrev pub is_active : RunStatus → Bool
is_active pending = true
is_active running = true
is_active _ = false

-- The transaction of `persistNodeResult` where the run goes on.
abbrev pub advance : ℕ → WorkflowRun → ℕ → ExecResult → M StoreError (Unit {0})
advance job run node result = do
  next ← get_next_node_for_execution run.workflow_version_id node result.next_edge_label
  advance_workflow_run run.id next result.output
  insert_run_node_job_outbox job run.id run.workflow_version_id next

unfoldable pub persist_node_result : ℕ → WorkflowRun → ℕ → ExecResult → M StoreError (Unit {0})
persist_node_result job run node result =
    if result.completed
    then in_tx (complete_workflow_run run.id result.output)
    else in_tx (advance job run node result)

-- How far `handleNodeJob` has come: before its first call, behind the status test, behind the
-- query for the node, before the deletion of the message, and at its end.
pub data Stage : Type 0 where
  received : NodeJobMessage → Stage
  admitted : WorkflowRun → Stage
  loaded : WorkflowRun → NodeRow → Stage
  handled finished : Stage

abbrev pub after_run : Result StoreError WorkflowRun × World → Stage × World
after_run (err e, w) = (finished, w)
after_run (ok run, w) = (if is_active run.status then admitted run else handled, w)

abbrev pub after_node : WorkflowRun → Result StoreError NodeRow × World → Stage × World
after_node run (err e, w) = (finished, w)
after_node run (ok node, w) = (loaded run node, w)

abbrev pub after_persist : Result StoreError (Unit {0}) × World → Stage × World
after_persist (err e, w) = (finished, w)
after_persist (ok _, w) = (handled, w)

abbrev pub after_execute : ℕ → WorkflowRun → ℕ → Result String ExecResult → World → Stage × World
after_execute job run node (err message) w = (finished, (fail_workflow_run run.id message w).1)
after_execute job run node (ok result) w = after_persist (persist_node_result job run node result w)

module _ (execute : NodeRow → String → Result String ExecResult) where
  -- One call and what the handler makes of its result.
  unfoldable pub proceed : ℕ → ℕ → Stage → World → Stage × World
  proceed job handle (received m) w = after_run (get_workflow_run m.run_id w)
  proceed job handle (admitted run) w =
      after_node run (get_node_for_execution run.workflow_version_id run.current_node_id w)
  proceed job handle (loaded run node) w =
      after_execute job run node.id (execute node run.last_output) w
  proceed job handle handled w = (finished, (delete_message handle w).1)
  proceed job handle finished w = (finished, w)

  abbrev pub again : ℕ → ℕ → Stage × World → Stage × World
  again job handle (st, w) = proceed job handle st w

  -- `handleNodeJob` undisturbed; the body is `none` if it does not decode.
  unfoldable pub handle_node_job : ℕ → Bool → ℕ → Option NodeJobMessage → World → World
  handle_node_job job true handle body w = w
  handle_node_job job false handle none w = w
  handle_node_job job false handle (some m) w =
      let one = proceed job handle (received m) w in
      let two = again job handle one in
      let three = again job handle two in (again job handle three).1

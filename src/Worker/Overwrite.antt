-- ===== src/Worker/Overwrite.antt =====
-- A stop or pause that arrives while a worker executes the run's current node: the updates of
-- internal/db/sqlc/workflow_runs.sql.go by which the worker checkpoints have no condition on the
-- status.
use orchex.Prelude.{ℕ, ◌≡◌, refl, String, false, [], ◌∷◌, ◌++◌, some}
use orchex.Result.{Result, ok, err}
use orchex.Store.Tables.{RunStatus, running, WorkflowRun, NodeRow, World}
use orchex.Store.RunQueries.{find_run, new_job}
use orchex.Store.GraphQueries.{find_next}
use orchex.Runs.Diagram.{Action, target, diverges, perform}
use orchex.Runs.Actions.{perform-Follows, find-update_self}
use orchex.Worker.{ExecResult, loaded, handled, proceed, after_persist, persist_node_result}
use orchex.Worker.Persist.{advanced}

module _ (execute : NodeRow → String → Result String ExecResult) where
  settle :
      (job handle : ℕ) (run : WorkflowRun) (node : NodeRow) (result : ExecResult) (w : World)
      → execute node run.last_output ≡ ok result
      → (persist_node_result job run node.id result w).0 ≡ ok tt
      → proceed execute job handle (loaded run node) w
        ≡ (handled, (persist_node_result job run node.id result w).1)
  unfolding proceed
  settle job handle run node result w ran e =
      rw ran (persisted (persist_node_result job run node.id result w) e)
    where
      persisted : (p : Result _ (Unit {0}) × World) → p.0 ≡ ok tt → after_persist p ≡ (handled, p.1)
      persisted (ok u, w') h = refl
      persisted (err x, w') h = cc

-- A worker has loaded the run and its current node. An action that the diagram has at the stored
-- run's status, such as a stop or a pause but not Resume or Retry of a running run, is then performed and stores its target status, and the
-- node's execution returns a result that does not end the run and has a successor. Then, with no
-- failing call, the worker's checkpoint makes the run running again at the successor and adds a job
-- for it to the outbox, also if the target was cancelled or paused.
pub checkpoint-overwrites :
    (execute : NodeRow → String → Result String ExecResult) (a : Action) (stop_job job handle : ℕ)
    (run r : WorkflowRun) (node : NodeRow) (result : ExecResult) (next : ℕ) (s : RunStatus)
    (w w' : World)
    → w.faults ≡ []
    → find_run run.id w.db.runs ≡ some r
    → target a r.status ≡ some s
    → diverges a r.status ≡ false
    → w' ≡ record (perform a stop_job (some run.id) w).1 { faults = [] }
    → execute node run.last_output ≡ ok result
    → result.completed ≡ false
    → find_next run.workflow_version_id node.id result.next_edge_label w'.db.edges ≡ some next
    → let after = (proceed execute job handle (loaded run node) w').1 in
      ((before : WorkflowRun) × (find_run run.id w'.db.runs ≡ some before) × (before.status ≡ s))
      × ((now : WorkflowRun) × (find_run run.id after.db.runs ≡ some now)
          × (now.status ≡ running)
          × (now.current_node_id ≡ next))
      × (after.db.outbox
          ≡ w'.db.outbox ++ (new_job job run.id run.workflow_version_id next w'.db.now ∷ []))
checkpoint-overwrites execute a stop_job job handle run r node result next s w w' calm found t d
      same ran c n =
    let f = perform-Follows a stop_job run.id w r s calm found t d in
    let there : find_run run.id w'.db.runs ≡ some f.row = rw same f.stored in
    let p = advanced job run node.id result w' (rw same refl) next c n in
    rw (settle execute job handle run node result w' ran (rw p refl), p)
      (
        (f.row, there, f.status),
        (_, find-update_self run.id _ w'.db.runs f.row (λ x. refl) there, refl, refl),
        refl,
      )

-- ===== src/Store/RunQueries/Outbox.antt =====
-- workflow_runs.sql.go: the queries on the outbox.
use orchex.Prelude.{
  ℕ, Bool, true, List, [], ◌∷◌, ◌++◌, Option, none, some, ltb, ◌==◌, if◌then◌else◌,
}
use orchex.Result.{ok}
use orchex.Store.Tables.{RunStatus, WorkflowRun, OutboxJob}
use orchex.Store.Effects.{StoreError, M, statement}
use orchex.Store.RunQueries.Updates.{find_run}

abbrev pub new_job : ℕ → ℕ → ℕ → ℕ → ℕ → OutboxJob
new_job generated run version node now = record {
  id = generated;
  run_id = run;
  workflow_version_id = version;
  node_id = node;
  attempt = 1;
  available_at = none;
  created_at = now;
}

unfoldable pub insert_run_node_job_outbox : ℕ → ℕ → ℕ → ℕ → M StoreError (Unit {0})
insert_run_node_job_outbox generated run version node = statement (λ db.
    ok (tt, record db { outbox = db.outbox ++ (new_job generated run version node db.now ∷ []) }))

-- `DELETE FROM run_node_jobs_outbox WHERE id = $1`
abbrev pub drop_job : ℕ → List OutboxJob → List OutboxJob
drop_job i [] = []
drop_job i (j ∷ js) = let rest = drop_job i js in if j.id == i then rest else j ∷ rest

unfoldable pub delete_run_node_job_outbox : ℕ → M StoreError (Unit {0})
delete_run_node_job_outbox i =
    statement (λ db. ok (tt, record db { outbox = drop_job i db.outbox }))

-- `LockDueRunNodeJobsOutbox`: the jobs that are due, with the status of their run, in the order of
-- their creation. No other transaction holds a lock, since statements do not overlap.
abbrev pub is_due : ℕ → Option ℕ → Bool
is_due now none = true
is_due now (some t) = ltb t now

abbrev pub join_run :
    OutboxJob → Option WorkflowRun → List (OutboxJob × RunStatus) → List (OutboxJob × RunStatus)
join_run j none rest = rest
join_run j (some r) rest = (j, r.status) ∷ rest

unfoldable pub due_jobs : ℕ → List WorkflowRun → List OutboxJob → List (OutboxJob × RunStatus)
due_jobs now runs [] = []
due_jobs now runs (j ∷ js) =
    let rest = due_jobs now runs js in
    if is_due now j.available_at then join_run j (find_run j.run_id runs) rest else rest

unfoldable pub insert_by_creation :
    OutboxJob × RunStatus → List (OutboxJob × RunStatus) → List (OutboxJob × RunStatus)
insert_by_creation (j, s) [] = (j, s) ∷ []
insert_by_creation (j, s) ((k, t) ∷ rest) =
    let behind = (k, t) ∷ insert_by_creation (j, s) rest in
    if ltb k.created_at j.created_at then behind else (j, s) ∷ (k, t) ∷ rest

unfoldable pub order_by_creation : List (OutboxJob × RunStatus) → List (OutboxJob × RunStatus)
unfolding insert_by_creation
order_by_creation [] = []
order_by_creation (p ∷ ps) = insert_by_creation p (order_by_creation ps)

unfoldable pub lock_due_run_node_jobs_outbox : M StoreError (List (OutboxJob × RunStatus))
unfolding due_jobs order_by_creation
lock_due_run_node_jobs_outbox =
    statement (λ db. ok (order_by_creation (due_jobs db.now db.runs db.outbox), db))

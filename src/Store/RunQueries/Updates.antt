-- ===== src/Store/RunQueries/Updates.antt =====
-- workflow_runs.sql.go: the queries and updates of runs. An `UPDATE` of a run goes by its primary
-- key, so it meets at most one row.
use orchex.Prelude.{
  ℕ, ◌+◌, String, Bool, true, false, List, [], ◌∷◌, Option, none, some, ◌==◌, if◌then◌else◌,
}
use orchex.Result.{Result, ok, err}
use orchex.Store.Tables.{
  RunStatus, pending, running, paused, failed, completed, cancelled, WorkflowRun, Db,
}
use orchex.Store.Effects.{StoreError, no_rows, M, statement}

-- `SELECT * FROM workflow_runs WHERE id = $1`
abbrev pub find_run : ℕ → List WorkflowRun → Option WorkflowRun
find_run i [] = none
find_run i (r ∷ rs) = let rest = find_run i rs in if r.id == i then some r else rest

-- `UPDATE workflow_runs SET … WHERE id = $1`; the trigger on the table sets `updated_at`.
abbrev pub update_run : ℕ → (WorkflowRun → WorkflowRun) → List WorkflowRun → List WorkflowRun
update_run i f [] = []
update_run i f (r ∷ rs) = let rest = update_run i f rs in if r.id == i then f r ∷ rs else r ∷ rest

abbrev pub one_row : {A : Type 0} → Db → Option A → Result StoreError (A × Db)
one_row db (some a) = ok (a, db)
one_row db none = err no_rows

unfoldable pub get_workflow_run : ℕ → M StoreError WorkflowRun
get_workflow_run i = statement (λ db. one_row db (find_run i db.runs))

abbrev pub is_some : {A : Type 0} → Option A → Bool
is_some (some _) = true
is_some none = false

unfoldable pub workflow_run_exists : ℕ → M StoreError Bool
workflow_run_exists i = statement (λ db. ok (is_some (find_run i db.runs), db))

-- The assignments of each `UPDATE`.
abbrev pub coalesce : Option ℕ → ℕ → Option ℕ
coalesce (some t) now = some t
coalesce none now = some now

abbrev pub set_advanced : ℕ → String → ℕ → WorkflowRun → WorkflowRun
set_advanced node output now r = record r {
  status = running;
  current_node_id = node;
  current_node_attempt = 1;
  last_output = output;
  updated_at = now;
}

abbrev pub set_completed : String → ℕ → WorkflowRun → WorkflowRun
set_completed output now r = record r {
  status = completed;
  last_output = output;
  completed_at = some now;
  updated_at = now;
}

abbrev pub set_failed : String → ℕ → WorkflowRun → WorkflowRun
set_failed message now r = record r {
  status = failed;
  error = some message;
  failed_at = some now;
  current_node_attempt = r.current_node_attempt + 1;
  updated_at = now;
}

abbrev pub set_paused : ℕ → WorkflowRun → WorkflowRun
set_paused now r = record r {
  status = paused;
  paused_at = coalesce r.paused_at now;
  updated_at = now;
}

abbrev pub set_resumed : ℕ → WorkflowRun → WorkflowRun
set_resumed now r = record r { status = running; paused_at = none; updated_at = now }

abbrev pub set_stopped : ℕ → WorkflowRun → WorkflowRun
set_stopped now r = record r {
  status = cancelled;
  cancelled_at = coalesce r.cancelled_at now;
  updated_at = now;
}

abbrev pub set_retried : ℕ → WorkflowRun → WorkflowRun
set_retried now r = record r {
  status = running;
  failed_at = none;
  error = none;
  current_node_attempt = 1;
  updated_at = now;
}

-- The conditions `status IN (…)` and `status = …`.
abbrev pub can_pause : RunStatus → Bool
can_pause pending = true
can_pause running = true
can_pause paused = true
can_pause _ = false

abbrev pub can_resume : RunStatus → Bool
can_resume paused = true
can_resume _ = false

abbrev pub can_stop : RunStatus → Bool
can_stop pending = true
can_stop running = true
can_stop paused = true
can_stop cancelled = true
can_stop _ = false

abbrev pub can_retry : RunStatus → Bool
can_retry failed = true
can_retry _ = false

-- `UPDATE … WHERE id = $1 AND <condition> RETURNING *`
abbrev pub guarded :
    ℕ → (WorkflowRun → WorkflowRun) → Db → Bool → WorkflowRun → Result StoreError (WorkflowRun × Db)
guarded i f db true r = ok (f r, record db { runs = update_run i f db.runs })
guarded i f db false r = err no_rows

abbrev pub update_where :
    ℕ
    → (RunStatus → Bool)
    → (WorkflowRun → WorkflowRun)
    → Db
    → Option WorkflowRun
    → Result StoreError (WorkflowRun × Db)
update_where i may f db none = err no_rows
update_where i may f db (some r) = guarded i f db (may r.status) r

unfoldable pub pause_workflow_run : ℕ → M StoreError WorkflowRun
pause_workflow_run i =
    statement (λ db. update_where i can_pause (set_paused db.now) db (find_run i db.runs))

unfoldable pub resume_workflow_run : ℕ → M StoreError WorkflowRun
resume_workflow_run i =
    statement (λ db. update_where i can_resume (set_resumed db.now) db (find_run i db.runs))

unfoldable pub stop_workflow_run : ℕ → M StoreError WorkflowRun
stop_workflow_run i =
    statement (λ db. update_where i can_stop (set_stopped db.now) db (find_run i db.runs))

unfoldable pub retry_workflow_run : ℕ → M StoreError WorkflowRun
retry_workflow_run i =
    statement (λ db. update_where i can_retry (set_retried db.now) db (find_run i db.runs))

-- The updates with no condition on the status, which return no row.
abbrev pub update_by_id : ℕ → (ℕ → WorkflowRun → WorkflowRun) → M StoreError (Unit {0})
update_by_id i f = statement (λ db. ok (tt, record db { runs = update_run i (f db.now) db.runs }))

unfoldable pub advance_workflow_run : ℕ → ℕ → String → M StoreError (Unit {0})
advance_workflow_run i node output = update_by_id i (set_advanced node output)

unfoldable pub complete_workflow_run : ℕ → String → M StoreError (Unit {0})
complete_workflow_run i output = update_by_id i (set_completed output)

unfoldable pub fail_workflow_run : ℕ → String → M StoreError (Unit {0})
fail_workflow_run i message = update_by_id i (set_failed message)

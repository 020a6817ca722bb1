-- ===== src/Runs.antt =====
-- The run endpoints of the execution service: internal/handler/run. A handler takes its decoded
-- input and returns the status code with the run, or an error. The path's identifier is `none` if
-- `uuid.Parse` refuses it. `Actions` and `Faults` prove what the handlers do.
pub mod Start
pub mod Diagram
pub mod Actions
pub mod Faults
use orchex.Prelude.{ℕ, String, Bool, true, false, Option, none, some}
use orchex.Result.{Result, ok, err}
use orchex.Http.{HttpError, bad_request, run_not_found, conflict, internal_error}
use orchex.Store.Tables.{
  RunStatus, pending, running, paused, failed, completed, cancelled, TriggerType, manual, webhook,
  scheduler, WorkflowRun, World,
}
use orchex.Store.Effects.{
  StoreError, no_rows, M, ◌>>=◌, ◌>>◌, continue, recast, return, throw, or_else, in_tx,
}
use orchex.Store.RunQueries.{
  get_workflow_run, workflow_run_exists, pause_workflow_run, resume_workflow_run, stop_workflow_run,
  retry_workflow_run, insert_run_node_job_outbox,
}

abbrev pub status_text : RunStatus → String
status_text pending = "pending"
status_text running = "running"
status_text paused = "paused"
status_text failed = "failed"
status_text completed = "completed"
status_text cancelled = "cancelled"

abbrev pub trigger_text : TriggerType → String
trigger_text manual = "manual"
trigger_text webhook = "webhook"
trigger_text scheduler = "scheduler"

-- The body of a response.
pub record Run : Type 0 where
  pub id : ℕ
  pub workflow_id : ℕ
  pub workflow_version_id : ℕ
  pub status : String
  pub trigger_type : String
  pub current_node_id : ℕ
  pub current_node_attempt : ℕ
  pub last_output : String
  pub error : Option String
  pub started_at : Option ℕ
  pub paused_at : Option ℕ
  pub cancelled_at : Option ℕ
  pub completed_at : Option ℕ
  pub failed_at : Option ℕ
  pub created_at : ℕ
  pub updated_at : ℕ

abbrev pub run_from_row : WorkflowRun → Run
run_from_row row = record {
  id = row.id;
  workflow_id = row.workflow_id;
  workflow_version_id = row.workflow_version_id;
  status = status_text row.status;
  trigger_type = trigger_text row.trigger_type;
  current_node_id = row.current_node_id;
  current_node_attempt = row.current_node_attempt;
  last_output = row.last_output;
  error = row.error;
  started_at = row.started_at;
  paused_at = row.paused_at;
  cancelled_at = row.cancelled_at;
  completed_at = row.completed_at;
  failed_at = row.failed_at;
  created_at = row.created_at;
  updated_at = row.updated_at;
}

abbrev pub parse_id : Option ℕ → M HttpError ℕ
parse_id none = throw (bad_request "invalid run id")
parse_id (some i) = return i

-- `if !exists { return handler.RunNotFound(id) }`
abbrev pub require_run : ℕ → Bool → M HttpError (Unit {0})
require_run i true = return tt
require_run i false = throw (run_not_found i)

-- No row means that the status forbids the change.
abbrev pub change_error : String → String → StoreError → HttpError
change_error refused fallback no_rows = conflict refused
change_error refused fallback _ = internal_error fallback

-- The start that the four handlers share: parse the identifier and find the run.
abbrev pub existing : String → Option ℕ → M HttpError ℕ
existing fallback path = do
  i ← parse_id path
  found ← or_else (workflow_run_exists i) (λ _. internal_error fallback)
  require_run i found
  return i

abbrev pub okay : WorkflowRun → M HttpError (ℕ × Run)
okay row = return (200, run_from_row row)

abbrev pub get_error : ℕ → StoreError → HttpError
get_error i no_rows = run_not_found i
get_error i _ = internal_error "failed to get run"

unfoldable pub get : Option ℕ → M HttpError (ℕ × Run)
get path = do i ← parse_id path; row ← or_else (get_workflow_run i) (get_error i); okay row

unfoldable pub pause : Option ℕ → M HttpError (ℕ × Run)
pause path = do
  i ← existing "failed to pause run" path
  row ←
      or_else (pause_workflow_run i)
        (change_error "run cannot be paused from its current status" "failed to pause run")
  okay row

unfoldable pub stop : Option ℕ → M HttpError (ℕ × Run)
stop path = do
  i ← existing "failed to stop run" path
  row ←
      or_else (stop_workflow_run i)
        (change_error "run cannot be stopped from its current status" "failed to stop run")
  okay row

-- The body of the transactions of Resume and Retry: the update, then a job for the current node.
abbrev pub with_job : ℕ → M StoreError WorkflowRun → M StoreError WorkflowRun
with_job job change = do
  r ← change
  insert_run_node_job_outbox job r.id r.workflow_version_id r.current_node_id
  return r

-- `job` is the identifier that the database generates for the outbox row.
unfoldable pub resume : ℕ → Option ℕ → M HttpError (ℕ × Run)
resume job path = do
  i ← existing "failed to resume run" path
  row ←
      or_else (in_tx (with_job job (resume_workflow_run i)))
        (change_error "run cannot be resumed from its current status" "failed to resume run")
  okay row

unfoldable pub retry : ℕ → Option ℕ → M HttpError (ℕ × Run)
retry job path = do
  i ← existing "failed to retry run" path
  row ←
      or_else (in_tx (with_job job (retry_workflow_run i)))
        (change_error "run cannot be retried from its current status" "failed to retry run")
  okay row

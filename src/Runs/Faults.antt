-- ===== src/Runs/Faults.antt =====
-- internal/handler/run under any failures of the database, the commits included.
use orchex.Prelude.{ℕ, ◌≡◌, refl, String, Bool, true, false, Option, none, some}
use orchex.Result.{Result, ok, err}
use orchex.Http.{HttpError, Body, bind_json, internal_error}
use orchex.Store.Tables.{World, WorkflowRun, Db}
use orchex.Store.Effects.{M, StoreError, unavailable, ◌>>=◌, return, or_else, in_tx}
use orchex.Store.Effects.Atomic.{
  IsAtomic, IsReadOnly, statement-IsAtomic, statement-IsReadOnly, in_tx-IsAtomic, >>=-IsAtomic,
  >>=-IsReadOnly, >>=-return-IsAtomic, or_else-IsAtomic, or_else-IsReadOnly,
}
use orchex.Store.RunQueries.{
  workflow_run_exists, pause_workflow_run, resume_workflow_run, stop_workflow_run,
  retry_workflow_run, workflow_exists, one_row,
}
use orchex.Runs.{
  run_from_row, require_run, existing, change_error, okay, with_job, pause, stop, resume, retry,
}
use orchex.Runs.Start.{
  StartRunRequest, start, start_run, start_tx, start_output, start_error, from_result,
  require_workflow,
}
use orchex.Runs.Diagram.{Action, pausing, resuming, stopping, retrying, perform}

exists-IsReadOnly : (i : ℕ) → IsReadOnly (workflow_run_exists i)
unfolding workflow_run_exists
exists-IsReadOnly i = statement-IsReadOnly _ (λ db a after h. cc)

one_row-same :
    {A : Type 0} (db : Db) (o : Option A) (a : A) (after : Db)
    → one_row db o ≡ ok (a, after)
    → after ≡ db
one_row-same db none a after h = cc
one_row-same db (some x) a after h = cc

existing-IsReadOnly : (fallback : String) (path : Option ℕ) → IsReadOnly (existing fallback path)
existing-IsReadOnly fallback none = λ w. refl
existing-IsReadOnly fallback (some i) =
    >>=-IsReadOnly (or_else (workflow_run_exists i) (λ _. internal_error fallback)) _
      (or_else-IsReadOnly (workflow_run_exists i) _ (exists-IsReadOnly i)) (λ b. found b)
  where
    found : (b : Bool) → IsReadOnly (require_run i b >>= λ _. return i)
    found true w = refl
    found false w = refl

-- After a read-only start, one atomic call and the reply.
change-IsAtomic :
    (fallback refused : String) (path : Option ℕ) (change : ℕ → M StoreError WorkflowRun)
    → ((i : ℕ) → IsAtomic (change i))
    → IsAtomic (
        existing fallback path >>= λ i.
        or_else (change i) (change_error refused fallback) >>= λ row. okay row)
change-IsAtomic fallback refused path change atomic =
    >>=-IsAtomic (existing fallback path) _ (existing-IsReadOnly fallback path) (λ i.
      >>=-return-IsAtomic (or_else (change i) (change_error refused fallback))
        (λ row. (200, run_from_row row))
        (or_else-IsAtomic (change i) (change_error refused fallback) (atomic i)))

pause-IsAtomic : (path : Option ℕ) → IsAtomic (pause path)
unfolding pause
pause-IsAtomic path =
    change-IsAtomic _ _ path pause_workflow_run
      (λ i. unfold pause_workflow_run in statement-IsAtomic _)

stop-IsAtomic : (path : Option ℕ) → IsAtomic (stop path)
unfolding stop
stop-IsAtomic path =
    change-IsAtomic _ _ path stop_workflow_run
      (λ i. unfold stop_workflow_run in statement-IsAtomic _)

resume-IsAtomic : (job : ℕ) (path : Option ℕ) → IsAtomic (resume job path)
unfolding resume
resume-IsAtomic job path =
    change-IsAtomic _ _ path (λ i. in_tx (with_job job (resume_workflow_run i)))
      (λ i. in_tx-IsAtomic (with_job job (resume_workflow_run i)))

retry-IsAtomic : (job : ℕ) (path : Option ℕ) → IsAtomic (retry job path)
unfolding retry
retry-IsAtomic job path =
    change-IsAtomic _ _ path (λ i. in_tx (with_job job (retry_workflow_run i)))
      (λ i. in_tx-IsAtomic (with_job job (retry_workflow_run i)))

-- Whatever calls to the database fail, a pause, resume, stop or retry that replies with an error
-- leaves the database as it was: no status is changed without its job, and no job is written
-- without its status.
pub perform-atomic :
    (a : Action) (job : ℕ) (path : Option ℕ) (w : World) (e : HttpError)
    → (perform a job path w).0 ≡ err e
    → (perform a job path w).1.db ≡ w.db
perform-atomic pausing job path w e h = pause-IsAtomic path w e h
perform-atomic resuming job path w e h = resume-IsAtomic job path w e h
perform-atomic stopping job path w e h = stop-IsAtomic path w e h
perform-atomic retrying job path w e h = retry-IsAtomic job path w e h

workflow_exists-IsReadOnly : (i : ℕ) → IsReadOnly (workflow_exists i)
unfolding workflow_exists
workflow_exists-IsReadOnly i = statement-IsReadOnly _ (λ db a after h. cc)

module _ (marshal : String → Option String) where
  start_output-IsReadOnly : (payload : String) → IsReadOnly (start_output marshal payload)
  start_output-IsReadOnly payload w = go (marshal payload)
    where
      go :
          (o : Option String)
          → (elim o as (λ _. Result StoreError String × World) [
            | none ↦ (err unavailable, w)
            | some output ↦ (ok output, w)
          ]).1.db
            ≡ w.db
      go none = refl
      go (some x) = refl

  start_run-IsAtomic :
      (run job : ℕ) (req : StartRunRequest) → IsAtomic (start_run marshal run job req)
  start_run-IsAtomic run job req =
      >>=-IsAtomic (start_output marshal req.payload) _ (start_output-IsReadOnly req.payload)
        (λ output. in_tx-IsAtomic (start_tx run job req.workflow_id output))

  require-IsReadOnly : (i : ℕ) (b : Bool) → IsReadOnly (require_workflow i b)
  require-IsReadOnly i true = λ w. refl
  require-IsReadOnly i false = λ w. refl

  -- Whatever calls to the database fail, a start that replies with an error leaves the database
  -- as it was: no run without its first job, and no job without its run.
  pub start-atomic :
      (run job : ℕ) (body : Body StartRunRequest) (w : World) (e : HttpError)
      → (start marshal run job body w).0 ≡ err e
      → (start marshal run job body w).1.db ≡ w.db
  unfolding start
  start-atomic run job body w e h =
      >>=-IsAtomic (from_result (bind_json body)) _ (λ w. refl)
        (λ req.
          >>=-IsAtomic
            (or_else (workflow_exists req.workflow_id)
              (λ _. internal_error "failed to start workflow"))
            _
            (or_else-IsReadOnly (workflow_exists req.workflow_id) _
              (workflow_exists-IsReadOnly req.workflow_id))
            (λ found.
              >>=-IsAtomic (require_workflow req.workflow_id found) _
                (require-IsReadOnly req.workflow_id found)
                (λ _.
                  >>=-return-IsAtomic
                    (or_else (start_run marshal run job req) (start_error req.workflow_id))
                    (λ created. (201, run_from_row created))
                    (or_else-IsAtomic (start_run marshal run job req) (start_error req.workflow_id)
                      (start_run-IsAtomic run job req)))))
        w e h

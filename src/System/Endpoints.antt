-- ===== src/System/Endpoints.antt =====
-- internal/handler/run: the endpoints wake a run only with a job.
use orchex.Prelude.{
  ℕ, ◌≡◌, refl, sym, subst, ◌∙◌, inl, inr, String, Bool, true, false, [], ◌∷◌, ◌++◌, Option, none,
  some, Bool-cases,
}
use orchex.Result.{Result, ok}
use orchex.Http.{HttpError, internal_error}
use orchex.Store.Tables.{RunStatus, WorkflowRun, Db, World}
use orchex.Store.Effects.{StoreError, M, ◌>>=◌, return, or_else, in_tx, statement}
use orchex.Store.Effects.Calls.{
  Writes, Ensures, IsQuiet, statement-Does, statement-Writes, >>=-Does, in_tx-Writes,
  Writes-Ensures, or_else-Ensures, quiet-Ensures, Ensures-quiet,
}
use orchex.Store.RunQueries.{
  find_run, update_run, update_where, new_job, insert_run_node_job_outbox, workflow_run_exists,
  pause_workflow_run, stop_workflow_run, resume_workflow_run, retry_workflow_run, set_paused,
  set_stopped, set_resumed, set_retried, can_pause, can_stop, can_resume, can_retry,
}
use orchex.Runs.{require_run, existing, change_error, okay, with_job, pause, stop, resume, retry}
use orchex.Runs.Diagram.{Action, pausing, resuming, stopping, retrying, perform}
use orchex.Worker.{is_active}
use orchex.Runs.Actions.{find_run-id}
use orchex.System.Grows.{Grows, Grows-refl, idles-Grows, row-Grows}

pub quiet : {E A : Type 0} (r : Result E A) → IsQuiet (λ (w : World). (r, w))
quiet r w = (record { queue = refl; next_handle = refl }, refl)

pub statement-IsQuiet :
    {A : Type 0} (f : Db → Result StoreError (A × Db))
    → ((db : Db) (a : A) (db' : Db) → f db ≡ ok (a, db') → db' ≡ db)
    → IsQuiet (statement f)
statement-IsQuiet f h =
    Writes-Ensures (λ x y. y ≡ x) (statement f) (λ x. refl) (statement-Writes (λ x y. y ≡ x) f h)

exists-IsQuiet : (i : ℕ) → IsQuiet (workflow_run_exists i)
unfolding workflow_run_exists
exists-IsQuiet i = statement-IsQuiet _ (λ db a db' h. cc)

existing-IsQuiet : (fallback : String) (path : Option ℕ) → IsQuiet (existing fallback path)
existing-IsQuiet fallback none = λ w. (record { queue = refl; next_handle = refl }, refl)
existing-IsQuiet fallback (some i) =
    quiet-Ensures (λ x y. y ≡ x) (or_else (workflow_run_exists i) (λ _. internal_error fallback)) _
      (λ x. refl) (or_else-Ensures (λ x y. y ≡ x) (workflow_run_exists i) _ (exists-IsQuiet i))
      (λ b. found b)
  where
    found : (b : Bool) → IsQuiet {E = HttpError} (require_run i b >>= λ _. return i)
    found true w = (record { queue = refl; next_handle = refl }, refl)
    found false w = (record { queue = refl; next_handle = refl }, refl)

-- The endpoints have one shape: find the run, change it, reply.
endpoint-Ensures :
    (job : ℕ) (fallback refused : String) (path : Option ℕ) (change : ℕ → M StoreError WorkflowRun)
    → ((i : ℕ) → Writes (Grows job) (change i))
    → Ensures (Grows job) (
        existing fallback path >>= λ i.
        or_else (change i) (change_error refused fallback) >>= λ row. okay row)
endpoint-Ensures job fallback refused path change writes =
    quiet-Ensures (Grows job) (existing fallback path) _ (Grows-refl job)
      (existing-IsQuiet fallback path)
      (λ i.
        Ensures-quiet (Grows job) (or_else (change i) (change_error refused fallback)) _
          (or_else-Ensures (Grows job) (change i) _
            (Writes-Ensures (Grows job) (change i) (Grows-refl job) (writes i)))
          (λ row w. (record { queue = refl; next_handle = refl }, refl)))

-- What an update with a condition does, if it returns a row.
record Updates (i : ℕ) (f : ℕ → WorkflowRun → WorkflowRun) (x : Db) (a : WorkflowRun) (y : Db)
    : Type 0 where
  pub row : a.id ≡ i
  pub db : y ≡ record x { runs = update_run i (f x.now) x.runs }

update_where-Updates :
    (i : ℕ) (may : RunStatus → Bool) (f : ℕ → WorkflowRun → WorkflowRun)
    → ((now : ℕ) (r : WorkflowRun) → (f now r).id ≡ r.id)
    → (x : Db) (a : WorkflowRun) (y : Db)
    → update_where i may (f x.now) x (find_run i x.runs) ≡ ok (a, y)
    → Updates i f x a y
update_where-Updates i may f keep x a y = go (find_run i x.runs) refl
  where
    go :
        (o : Option WorkflowRun)
        → find_run i x.runs ≡ o
        → update_where i may (f x.now) x o ≡ ok (a, y)
        → Updates i f x a y
    go none found h = cc
    go (some r) found h = elim (Bool-cases (may r.status)) [
      | inr no' ↦ cc (rw no' at h)
      | inl yes' ↦
          let e : ok (f x.now r, record x { runs = update_run i (f x.now) x.runs }) ≡ ok (a, y) =
            rw yes' at h in
          record { row = cc (e, keep x.now r, find_run-id i x.runs r found); db = cc e }
    ]

idle-Writes :
    (job i : ℕ) (may : RunStatus → Bool) (f : ℕ → WorkflowRun → WorkflowRun)
    → ((now : ℕ) (r : WorkflowRun) → (f now r).id ≡ r.id)
    → ((now : ℕ) (r : WorkflowRun) → is_active (f now r).status ≡ false)
    → Writes (Grows job) (statement (λ db. update_where i may (f db.now) db (find_run i db.runs)))
idle-Writes job i may f keep idle = statement-Writes (Grows job) _ (λ x a y h.
    let u = update_where-Updates i may f keep x a y h in
    subst (Grows job x) (sym u.db) (idles-Grows i (f x.now) (keep x.now) job x (idle x.now)))

-- The transaction of Resume and Retry.
with_job-Writes :
    (job i : ℕ) (may : RunStatus → Bool) (f : ℕ → WorkflowRun → WorkflowRun)
    → ((now : ℕ) (r : WorkflowRun) → (f now r).id ≡ r.id)
    → Writes (Grows job) (
        in_tx
          (with_job job (statement (λ db. update_where i may (f db.now) db (find_run i db.runs)))))
unfolding insert_run_node_job_outbox
with_job-Writes job i may f keep = in_tx-Writes (Grows job) _ (
    >>=-Does (Updates i f) Inserts (λ x b y. Grows job x y) _ _
      (λ x a y b z u d.
        rw (d, u.db, u.row)
          (row-Grows i (f x.now) (keep x.now) job a.workflow_version_id a.current_node_id x.now x))
      (statement-Does (Updates i f) _ (update_where-Updates i may f keep))
      (λ a.
        >>=-Does (Inserts a) (λ _ x b y. y ≡ x) (λ x b y. Inserts a x b y) _ _
          (λ x u y b z d same. same ∙ d) (statement-Does (Inserts a) _ (λ x u y h. cc))
          (λ u w. (record { queue = refl; next_handle = refl }, λ b e. refl))))
  where
    Inserts : {B : Type 0} → WorkflowRun → Db → B → Db → Type 0
    Inserts a x b y = y ≡ record x {
      outbox = x.outbox ++ (new_job job a.id a.workflow_version_id a.current_node_id x.now ∷ []);
    }

pub perform-Ensures :
    (a : Action) (job : ℕ) (path : Option ℕ) → Ensures (Grows job) (perform a job path)
unfolding pause stop resume retry pause_workflow_run stop_workflow_run resume_workflow_run
    retry_workflow_run
perform-Ensures pausing job path =
    endpoint-Ensures job _ _ path pause_workflow_run
      (λ i. idle-Writes job i can_pause set_paused (λ now r. refl) (λ now r. refl))
perform-Ensures stopping job path =
    endpoint-Ensures job _ _ path stop_workflow_run
      (λ i. idle-Writes job i can_stop set_stopped (λ now r. refl) (λ now r. refl))
perform-Ensures resuming job path =
    endpoint-Ensures job _ _ path (λ i. in_tx (with_job job (resume_workflow_run i)))
      (λ i. with_job-Writes job i can_resume set_resumed (λ now r. refl))
perform-Ensures retrying job path =
    endpoint-Ensures job _ _ path (λ i. in_tx (with_job job (retry_workflow_run i)))
      (λ i. with_job-Writes job i can_retry set_retried (λ now r. refl))

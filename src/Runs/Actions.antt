-- ===== src/Runs/Actions.antt =====
-- internal/handler/run: pause, resume, stop and retry follow the state diagram.
use orchex.Prelude.{
  ℕ, ◌≡◌, ◌≢◌, ◌⊎◌, refl, sym, subst, String, true, false, List, [], ◌∷◌, ◌++◌, none, some, arith,
}
use mathlib.Core.List.{append-nil}
use orchex.Result.{Result, ok, err}
use orchex.Http.{HttpError, conflict}
use orchex.Store.Tables.{RunStatus, WorkflowRun, OutboxJob, World}
use orchex.Store.Effects.{statement, in_tx}
use orchex.Store.RunQueries.{
  find_run, update_run, new_job, set_paused, set_resumed, set_stopped, set_retried, can_pause,
  can_resume, can_stop, can_retry, workflow_run_exists, pause_workflow_run, resume_workflow_run,
  stop_workflow_run, retry_workflow_run, insert_run_node_job_outbox,
}
use orchex.Runs.{Run, run_from_row, pause, stop, resume, retry}
use orchex.Runs.Diagram.{Action, pausing, resuming, stopping, retrying, target, diverges, perform}

pub find_run-id :
    (i : ℕ) (runs : List WorkflowRun) (r : WorkflowRun) → find_run i runs ≡ some r → r.id ≡ i
find_run-id i [] r h = cc
find_run-id i (x ∷ xs) r h = ground (arith, find_run-id i xs r)

pub find-update_self :
    (i : ℕ) (f : WorkflowRun → WorkflowRun) (runs : List WorkflowRun) (r : WorkflowRun)
    → ((x : WorkflowRun) → (f x).id ≡ x.id)
    → find_run i runs ≡ some r
    → find_run i (update_run i f runs) ≡ some (f r)
find-update_self i f [] r keep h = cc
find-update_self i f (x ∷ xs) r keep h = ground (arith, keep x, find-update_self i f xs r keep)

pub find-update_ne :
    (i j : ℕ) (f : WorkflowRun → WorkflowRun) (runs : List WorkflowRun)
    → ((x : WorkflowRun) → (f x).id ≡ x.id)
    → i ≢ j
    → find_run j (update_run i f runs) ≡ find_run j runs
find-update_ne i j f [] keep d = refl
find-update_ne i j f (x ∷ xs) keep d = ground (arith, keep x, find-update_ne i j f xs keep d)

-- The jobs that an action adds to the outbox: one for the current node where the run goes on.
abbrev pub jobs : Action → ℕ → WorkflowRun → ℕ → List OutboxJob
jobs pausing job r now = []
jobs stopping job r now = []
jobs resuming job r now = new_job job r.id r.workflow_version_id r.current_node_id now ∷ []
jobs retrying job r now = new_job job r.id r.workflow_version_id r.current_node_id now ∷ []

-- The reply `p` to an action that takes the run `r` to the status `s`.
pub record Follows (a : Action) (job i : ℕ) (w : World) (r : WorkflowRun) (s : RunStatus)
    (p : Result HttpError (ℕ × Run) × World) : Type 0 where
  pub row : WorkflowRun
  pub reply : p.0 ≡ ok (200, run_from_row row)
  pub stored : find_run i p.1.db.runs ≡ some row
  pub status : row.status ≡ s
  pub checkpoint :
      (row.current_node_id ≡ r.current_node_id)
      × (row.last_output ≡ r.last_output)
      × (row.workflow_version_id ≡ r.workflow_version_id)
  pub others : (j : ℕ) → i ≢ j → find_run j p.1.db.runs ≡ find_run j w.db.runs
  pub outbox : p.1.db.outbox ≡ w.db.outbox ++ jobs a job r w.db.now
  pub queue : p.1.queue ≡ w.queue

-- The update that an action makes.
abbrev change : Action → ℕ → WorkflowRun → WorkflowRun
change pausing = set_paused
change resuming = set_resumed
change stopping = set_stopped
change retrying = set_retried

abbrev outcome : Action → ℕ → ℕ → World → WorkflowRun → Result HttpError (ℕ × Run) × World
outcome a job i w r = (
  ok (200, run_from_row (change a w.db.now r)),
  record w {
    db = record w.db {
      runs = update_run i (change a w.db.now) w.db.runs;
      outbox = w.db.outbox ++ jobs a job r w.db.now;
    };
    faults = [];
  },
)

module _ (job i : ℕ) (w : World) (r : WorkflowRun) (calm : w.faults ≡ [])
    (found : find_run i w.db.runs ≡ some r) where
  pause_allowed : can_pause r.status ≡ true → pause (some i) w ≡ outcome pausing job i w r
  unfolding pause statement workflow_run_exists pause_workflow_run
  pause_allowed h = rw (append-nil w.db.outbox) (ground arith)

  stop_allowed : can_stop r.status ≡ true → stop (some i) w ≡ outcome stopping job i w r
  unfolding stop statement workflow_run_exists stop_workflow_run
  stop_allowed h = rw (append-nil w.db.outbox) (ground arith)

  resume_allowed : can_resume r.status ≡ true → resume job (some i) w ≡ outcome resuming job i w r
  unfolding resume statement workflow_run_exists resume_workflow_run in_tx
      insert_run_node_job_outbox
  resume_allowed h = ground arith

  retry_allowed : can_retry r.status ≡ true → retry job (some i) w ≡ outcome retrying job i w r
  unfolding retry statement workflow_run_exists retry_workflow_run in_tx insert_run_node_job_outbox
  retry_allowed h = ground arith

  perform_allowed :
      (a : Action) (s : RunStatus)
      → target a r.status ≡ some s
      → diverges a r.status ≡ false
      → perform a job (some i) w ≡ outcome a job i w r
  perform_allowed pausing s t d = pause_allowed (ground arith)
  perform_allowed resuming s t d = resume_allowed (ground arith)
  perform_allowed stopping s t d = stop_allowed (ground arith)
  perform_allowed retrying s t d = retry_allowed (ground arith)

  outcome-Follows :
      (a : Action) (s : RunStatus)
      → target a r.status ≡ some s
      → Follows a job i w r s (outcome a job i w r)
  outcome-Follows a s t = record {
    row = change a w.db.now r;
    reply = refl;
    stored = find-update_self i (change a w.db.now) w.db.runs r (keeps_id a) found;
    status = changed a r.status t;
    checkpoint = kept a;
    others = λ j d. find-update_ne i j (change a w.db.now) w.db.runs (keeps_id a) d;
    outbox = refl;
    queue = refl;
  }
    where
      keeps_id : (b : Action) (x : WorkflowRun) → (change b w.db.now x).id ≡ x.id
      keeps_id pausing x = refl
      keeps_id resuming x = refl
      keeps_id stopping x = refl
      keeps_id retrying x = refl

      kept :
          (b : Action)
          → ((change b w.db.now r).current_node_id ≡ r.current_node_id)
            × ((change b w.db.now r).last_output ≡ r.last_output)
            × ((change b w.db.now r).workflow_version_id ≡ r.workflow_version_id)
      kept pausing = (refl, refl, refl)
      kept resuming = (refl, refl, refl)
      kept stopping = (refl, refl, refl)
      kept retrying = (refl, refl, refl)

      changed :
          (b : Action) (st : RunStatus) → target b st ≡ some s → (change b w.db.now r).status ≡ s
      changed pausing st h = ground arith
      changed resuming st h = ground arith
      changed stopping st h = ground arith
      changed retrying st h = ground arith

  pause_refused :
      can_pause r.status ≡ false
      → pause (some i) w
        ≡ (err (conflict "run cannot be paused from its current status"), record w { faults = [] })
  unfolding pause statement workflow_run_exists pause_workflow_run
  pause_refused h = ground arith

  stop_refused :
      can_stop r.status ≡ false
      → stop (some i) w
        ≡ (err (conflict "run cannot be stopped from its current status"), record w { faults = [] })
  unfolding stop statement workflow_run_exists stop_workflow_run
  stop_refused h = ground arith

  resume_refused :
      can_resume r.status ≡ false
      → resume job (some i) w
        ≡ (err (conflict "run cannot be resumed from its current status"), record w { faults = [] })
  unfolding resume statement workflow_run_exists resume_workflow_run in_tx
  resume_refused h = ground arith

  retry_refused :
      can_retry r.status ≡ false
      → retry job (some i) w
        ≡ (err (conflict "run cannot be retried from its current status"), record w { faults = [] })
  unfolding retry statement workflow_run_exists retry_workflow_run in_tx
  retry_refused h = ground arith

-- With no failing call and an existing run, an action that the diagram of README.md has at the
-- run's status, other than Resume or Retry of a running run, replies 200 with the run in the target status, stores that run and changes no other, keeps its
-- checkpoint, adds a job for the current node to the outbox if it is Resume or Retry and none
-- otherwise, and sends nothing to the queue.
pub perform-Follows :
    (a : Action) (job i : ℕ) (w : World) (r : WorkflowRun) (s : RunStatus)
    → w.faults ≡ []
    → find_run i w.db.runs ≡ some r
    → target a r.status ≡ some s
    → diverges a r.status ≡ false
    → Follows a job i w r s (perform a job (some i) w)
perform-Follows a job i w r s calm found t d =
    subst (Follows a job i w r s) (sym (perform_allowed job i w r calm found a s t d))
      (outcome-Follows job i w r calm found a s t)

-- With no failing call and an existing run, an action that the diagram of README.md lacks at the
-- run's status is refused with a conflict (409), and so are, against that diagram, Resume and Retry
-- of a running run; and the database and the queue stay as they are.
pub perform_refused :
    (a : Action) (job i : ℕ) (w : World) (r : WorkflowRun)
    → w.faults ≡ []
    → find_run i w.db.runs ≡ some r
    → (target a r.status ≡ none) ⊎ (diverges a r.status ≡ true)
    → let p = perform a job (some i) w in
      ((m : String) × (p.0 ≡ err (conflict m))) × (p.1.db ≡ w.db) × (p.1.queue ≡ w.queue)
perform_refused pausing job i w r calm found t =
    rw (pause_refused job i w r calm found (ground arith)) ((_, refl), refl, refl)
perform_refused resuming job i w r calm found t =
    rw (resume_refused job i w r calm found (ground arith)) ((_, refl), refl, refl)
perform_refused stopping job i w r calm found t =
    rw (stop_refused job i w r calm found (ground arith)) ((_, refl), refl, refl)
perform_refused retrying job i w r calm found t =
    rw (retry_refused job i w r calm found (ground arith)) ((_, refl), refl, refl)

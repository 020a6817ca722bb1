-- ===== src/Tests/Runs.antt =====
-- The run endpoints on a small database.
use orchex.Prelude.{◌≡◌, inr, refl, String, true, false, [], ◌∷◌, Option, some}
use orchex.Result.{err}
use orchex.Http.{conflict, internal_error, bound}
use orchex.Store.Tables.{running, paused, World}
use orchex.Store.Effects.{statement, in_tx}
use orchex.Store.RunQueries.{
  workflow_run_exists, resume_workflow_run, insert_run_node_job_outbox, workflow_exists,
  get_published_workflow_for_start, insert_workflow_run,
}
use orchex.Runs.{resume}
use orchex.Runs.Start.{start}
use orchex.Runs.Diagram.{resuming, retrying, perform}
use orchex.Runs.Actions.{Follows, perform-Follows, perform_refused}
use orchex.Runs.Faults.{perform-atomic, start-atomic}
use orchex.Tests.World.{run_at, world_at}

perform-Follows_example :
    Follows resuming 40 7
      (world_at paused [])
      (run_at paused)
      running
      (perform resuming 40 (some 7) (world_at paused []))
perform-Follows_example =
    perform-Follows resuming 40 7 (world_at paused []) (run_at paused) running refl refl refl refl

perform_refused_example :
    let p = perform retrying 40 (some 7) (world_at running []) in
    ((m : String) × (p.0 ≡ err (conflict m)))
    × (p.1.db ≡ (world_at running []).db)
    × (p.1.queue ≡ (world_at running []).queue)
perform_refused_example =
    perform_refused retrying 40 7 (world_at running []) (run_at running) refl refl (inr refl)

-- The second statement of the transaction fails, after the status was changed.
abbrev failing : World
failing = world_at paused (false ∷ false ∷ false ∷ true ∷ [])

resume_fails :
    (perform resuming 40 (some 7) failing).0 ≡ err (internal_error "failed to resume run")
unfolding resume workflow_run_exists in_tx statement resume_workflow_run insert_run_node_job_outbox
resume_fails = refl

perform-atomic_example : (perform resuming 40 (some 7) failing).1.db ≡ failing.db
perform-atomic_example =
    perform-atomic resuming 40 (some 7) failing (internal_error "failed to resume run") resume_fails

abbrev wrap : String → Option String
wrap payload = some payload

-- The commit of the start fails.
abbrev no_commit : World
no_commit = world_at running (false ∷ false ∷ false ∷ false ∷ false ∷ true ∷ [])

start_fails :
    (start wrap 50 51 (bound (record { workflow_id = 1; payload = "{}" })) no_commit).0
    ≡ err (internal_error "failed to start workflow")
unfolding start workflow_exists in_tx statement get_published_workflow_for_start insert_workflow_run
    insert_run_node_job_outbox
start_fails = refl

start-atomic_example :
    (start wrap 50 51 (bound (record { workflow_id = 1; payload = "{}" })) no_commit).1.db
    ≡ no_commit.db
start-atomic_example =
    start-atomic wrap 50 51 (bound (record { workflow_id = 1; payload = "{}" })) no_commit
      (internal_error "failed to start workflow") start_fails

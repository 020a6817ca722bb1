-- ===== src/Tests/Worker.antt =====
-- The worker and the relay on a small database.
use orchex.Prelude.{◌≡◌, ◌⊎◌, ◌<◌, ◌++◌, refl, String, true, false, [], ◌∷◌, some, arith}
use orchex.Result.{Result, ok}
use orchex.Store.Tables.{running, cancelled, paused, WorkflowRun, NodeRow, NodeJobMessage, World}
use orchex.Store.Effects.{statement}
use orchex.Store.RunQueries.{find_run, new_job, workflow_run_exists, stop_workflow_run}
use orchex.Runs.{stop}
use orchex.Runs.Diagram.{stopping, perform}
use orchex.Worker.Settles.{Rests}
use orchex.Worker.Keeps.{handle_node_job-keeps}
use orchex.Worker.{ExecResult, loaded, proceed, persist_node_result, handle_node_job}
use orchex.Worker.Persist.{
  Persisted, Skips, persist_node_result-Persisted, handle_node_job-inactive, handle_node_job-stale,
}
use orchex.Worker.Overwrite.{checkpoint-overwrites}
use orchex.Worker.Relay.{relay}
use orchex.Worker.Relay.Waiting.{waiting}
use orchex.Worker.Relay.Keeps.{relay-keeps}
use orchex.Tests.World.{run_at, start_node, message, world_at}

abbrev onward : ExecResult
onward = record { output = "{}"; next_edge_label = "default"; completed = false }

abbrev pub forward : NodeRow → String → Result String ExecResult
forward node input = ok onward

persist_node_result-Persisted_example :
    Persisted 40
      (run_at running)
      11
      onward
      (run_at paused)
      (world_at paused [])
      (persist_node_result 40 (run_at running) 11 onward (world_at paused []))
persist_node_result-Persisted_example =
    persist_node_result-Persisted 40 (run_at running) 11 onward (run_at paused) (world_at paused [])
      refl refl

handle_node_job-inactive_example :
    Skips 3
      (world_at cancelled [])
      (handle_node_job forward 40 false 3 (some message) (world_at cancelled []))
handle_node_job-inactive_example =
    handle_node_job-inactive forward 40 3 message (world_at cancelled []) (run_at cancelled) refl
      (λ e. cc) (λ e. cc)

abbrev old_message : NodeJobMessage
old_message = record { run_id = 7; workflow_version_id = 5; node_id = 99; attempt = 4 }

handle_node_job-stale_example :
    handle_node_job forward 40 false 3 (some old_message) (world_at running [])
    ≡ handle_node_job forward 40 false 3 (some message) (world_at running [])
handle_node_job-stale_example =
    handle_node_job-stale forward 40 3 old_message message (world_at running []) refl

abbrev stopped : World
stopped = record (perform stopping 40 (some 7) (world_at running [])).1 { faults = [] }

checkpoint-overwrites_example :
    let after = (proceed forward 41 3 (loaded (run_at running) start_node) stopped).1 in
    ((before : WorkflowRun) × (find_run 7 stopped.db.runs ≡ some before)
      × (before.status ≡ cancelled))
    × ((now : WorkflowRun) × (find_run 7 after.db.runs ≡ some now)
        × (now.status ≡ running)
        × (now.current_node_id ≡ 12))
    × (after.db.outbox ≡ stopped.db.outbox ++ (new_job 41 7 5 12 stopped.db.now ∷ []))
unfolding stop workflow_run_exists statement stop_workflow_run
checkpoint-overwrites_example =
    checkpoint-overwrites forward stopping 40 41 3 (run_at running) (run_at running) start_node
      onward 12 cancelled (world_at running []) stopped refl refl refl refl refl refl refl refl

-- The message is sent and the deletion of its row fails.
relay-keeps_example : 0 < waiting 7 (relay (world_at running (false ∷ false ∷ false ∷ true ∷ []))).1
relay-keeps_example =
    relay-keeps 7 (run_at running) (world_at running (false ∷ false ∷ false ∷ true ∷ [])) refl refl
      ((λ _. refl, tt), tt) (omega arith)

-- The query for the node fails, and the message stays.
handle_node_job-keeps_example :
    let w' =
      handle_node_job forward 40 false 3 (some message) (world_at running (false ∷ true ∷ [])) in
    Rests 7 w' ⊎ (0 < waiting 7 w')
handle_node_job-keeps_example =
    handle_node_job-keeps forward 40 3 false message (world_at running (false ∷ true ∷ []))
      (omega arith)

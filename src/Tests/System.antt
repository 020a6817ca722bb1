-- ===== src/Tests/System.antt =====
-- The services on a small database: a client begins a run, the relay sends its job, and a worker
-- reads the run, while another receives the same message.
use orchex.Prelude.{◌<◌, ◌⊎◌, arith, refl, String, [], ◌∷◌, Option, some}
use orchex.Http.{Body, bound}
use orchex.Store.Tables.{running, pending, WorkflowRun}
use orchex.Store.Effects.{statement, in_tx, send, close_tx}
use orchex.Store.RunQueries.{
  get_published_workflow_for_start, insert_workflow_run, insert_run_node_job_outbox,
  workflow_exists, lock_due_run_node_jobs_outbox, delete_run_node_job_outbox, due_jobs,
  order_by_creation, insert_by_creation, get_workflow_run,
}
use orchex.Runs.Start.{StartRunRequest, start}
use orchex.Worker.{received, proceed}
use orchex.Worker.Relay.{relay, relay_jobs}
use orchex.Worker.Relay.Waiting.{messages_for, open_jobs}
use orchex.System.Steps.{
  Services, failing, begins, relays, receives, works, Reach, stays, steps, settle_worker,
}
use orchex.System.Sight.{in_sight}
use orchex.System.Invariant.{active-waiting}
use orchex.Tests.World.{run_at, db_at, message}
use orchex.Tests.Worker.{forward}

abbrev wrap : String → Option String
wrap payload = some payload

abbrev idle_services : Services
idle_services = record {
  world = record {
    db = record (db_at running) { runs = []; outbox = [] };
    queue = [];
    next_handle = 3;
    faults = [];
  };
  workers = [];
  deliveries = [];
  withdrawn = [];
}

abbrev start_request : Body StartRunRequest
start_request = bound (record { workflow_id = 1; payload = "{}" })

abbrev begun : Services
begun = record idle_services {
  world = (start wrap 7 31 start_request (failing [] idle_services.world)).1;
}

abbrev relayed : Services
relayed = record begun { world = (relay (failing [] begun.world)).1 }

abbrev taken : Services
taken = record relayed { workers = (3, received message) ∷ []; deliveries = 3 ∷ [] }

abbrev shared : Services
shared = record relayed {
  workers = (3, received message) ∷ (3, received message) ∷ [];
  deliveries = 3 ∷ 3 ∷ [];
}

abbrev admitted_one : Services
admitted_one =
    settle_worker shared [] 3 ((3, received message) ∷ [])
      (proceed forward 40 3 (received message) (failing [] shared.world))

abbrev new_run : WorkflowRun
new_run = record (run_at pending) { started_at = some 100; created_at = 100; updated_at = 100 }

run_there : Reach forward wrap 1209600 idle_services admitted_one
unfolding start workflow_exists in_tx close_tx statement get_published_workflow_for_start
    insert_workflow_run insert_run_node_job_outbox relay relay_jobs send
    lock_due_run_node_jobs_outbox delete_run_node_job_outbox due_jobs order_by_creation
    insert_by_creation get_workflow_run proceed
run_there =
    steps {t = shared}
      (steps {t = taken}
        (steps {t = relayed}
          (steps {t = begun}
            (steps {t = idle_services} stays (begins 7 31 start_request [] tt refl))
            (relays [] refl))
          (receives [] [] (record { handle = 3; body = message; sent = 100 }) refl (omega arith)
            refl))
        (receives [] [] (record { handle = 3; body = message; sent = 100 }) refl (omega arith)
          refl))
      (works [] ((3, received message) ∷ []) 3 (received message) 40 [] refl tt refl)

active-waiting_example :
    (0 < open_jobs 7 (in_sight admitted_one.workers) admitted_one.world)
    ⊎ (0 < messages_for 7 admitted_one.withdrawn)
unfolding start workflow_exists in_tx close_tx statement get_published_workflow_for_start
    insert_workflow_run insert_run_node_job_outbox relay relay_jobs send
    lock_due_run_node_jobs_outbox delete_run_node_job_outbox due_jobs order_by_creation
    insert_by_creation get_workflow_run proceed
active-waiting_example =
    active-waiting forward wrap 1209600 idle_services admitted_one (refl, refl, refl, refl)
      run_there 7 new_run refl refl

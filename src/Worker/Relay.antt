-- ===== src/Worker/Relay.antt =====
-- internal/execution/relay.go: one round of the relay. `Waiting` counts the jobs of a run, and
-- `Rounds` and `Keeps` prove that the relay loses none.
pub mod Waiting
pub mod Rounds
pub mod Keeps
use orchex.Prelude.{Bool, List, [], ◌∷◌, if◌then◌else◌}
use orchex.Result.{Result, ok, err}
use orchex.Store.Tables.{RunStatus, OutboxJob, NodeJobMessage, World}
use orchex.Store.Effects.{StoreError, M, ◌>>=◌, ◌>>◌, continue, return, in_tx, send}
use orchex.Store.RunQueries.{lock_due_run_node_jobs_outbox, delete_run_node_job_outbox}
use orchex.Worker.{is_active}

abbrev pub message_of : OutboxJob → NodeJobMessage
message_of j = record {
  run_id = j.run_id;
  workflow_version_id = j.workflow_version_id;
  node_id = j.node_id;
  attempt = j.attempt;
}

-- A job is sent only while its run is pending or running.
abbrev pub send_if_active : OutboxJob → RunStatus → M StoreError (Unit {0})
send_if_active j s = if is_active s then send (message_of j) else return tt

unfoldable pub relay_jobs : List (OutboxJob × RunStatus) → M StoreError (Unit {0})
relay_jobs [] = return tt
relay_jobs ((j, s) ∷ rest) =
    send_if_active j s >> (delete_run_node_job_outbox j.id >> relay_jobs rest)

unfoldable pub relay : M StoreError (Unit {0})
unfolding relay_jobs
relay = in_tx (lock_due_run_node_jobs_outbox >>= λ jobs. relay_jobs jobs)

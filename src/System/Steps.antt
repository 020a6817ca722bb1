-- ===== src/System/Steps.antt =====
-- The running system: cmd/execution-api/main.go serves the endpoints of runs and runs the relay, and
-- cmd/execution-worker/main.go runs workers, all on one database and one queue. A step is one call of an
-- endpoint, one round of the relay, one call of one worker, or something that happens to them or to
-- the queue, and the calls inside a step fail as `faults` says. `execute` is the workers' executor registry and
-- `marshal` the JSON encoder of the start output.
use orchex.Prelude.{
  ℕ, ltb, if◌then◌else◌, ◌+◌, ◌≤◌, ◌<◌, ◌≡◌, ◌≢◌, String, Bool, List, [], ◌∷◌, ◌++◌, Option, All,
  count,
}
use orchex.Result.{Result}
use orchex.Http.{Body}
use orchex.Store.Tables.{NodeRow, OutboxJob, Envelope, World}
use orchex.Store.Effects.{without}
use orchex.Runs.Start.{StartRunRequest, start}
use orchex.Runs.Diagram.{Action, perform}
use orchex.Worker.{ExecResult, Stage, received, proceed}
use orchex.Worker.Relay.{relay}
use orchex.Worker.Relay.Waiting.{jobs_for}

-- The services: the world, each message that a worker is handling with its handle and stage, the
-- handle of each delivery, and the messages that SQS took out of the queue by itself since a service
-- last wrote a job for their run.
pub record Services : Type 0 where
  pub world : World
  pub workers : List (ℕ × Stage)
  pub deliveries : List ℕ
  pub withdrawn : List Envelope

-- `maxReceiveCount` of docker/elasticmq.conf, and `max_receive_count` of infra/modules/sqs.
abbrev pub max_receive_count : ℕ
max_receive_count = 5

abbrev pub failing : List Bool → World → World
failing faults w = record w { faults = faults }

-- `gen_random_uuid()`: the identifier is in no row of the outbox.
abbrev pub IsFresh : ℕ → World → Type 0
IsFresh job w = All (λ k. k.id ≢ job) w.db.outbox

-- The messages of runs with no row in the outbox.
abbrev pub without_jobs : List OutboxJob → List Envelope → List Envelope
without_jobs js [] = []
without_jobs js (e ∷ es) =
    let rest = without_jobs js es in if ltb 0 (jobs_for e.body.run_id js) then rest else e ∷ rest

-- The world after a transaction of a service: a job that it wrote stands for the messages that its
-- run lost before.
abbrev pub commit_to : Services → World → Services
commit_to s w = record s { world = w; withdrawn = without_jobs w.db.outbox s.withdrawn }

abbrev pub settle_worker :
    Services → List (ℕ × Stage) → ℕ → List (ℕ × Stage) → Stage × World → Services
settle_worker s before h after (st, w) = record (commit_to s w) {
  workers = before ++ ((h, st) ∷ after);
}

abbrev pub withdraw : Services → Envelope → Services
withdraw s e = record s {
  world = record s.world { queue = without e.handle s.world.queue };
  withdrawn = e ∷ s.withdrawn;
}

-- `retention` is `message_retention_seconds` of infra/modules/sqs.
module _ (execute : NodeRow → String → Result String ExecResult) (marshal : String → Option String)
    (retention : ℕ) where
  pub data Step (s t : Services) : Type 0 where
    -- POST /v1/runs/{run-id}/{pause,resume,stop,retry}
    serves :
        (a : Action) (job : ℕ) (path : Option ℕ) (faults : List Bool)
        → IsFresh job s.world
        → t ≡ commit_to s (perform a job path (failing faults s.world)).1
        → Step s t
    -- POST /v1/runs
    begins :
        (run job : ℕ) (body : Body StartRunRequest) (faults : List Bool)
        → IsFresh job s.world
        → t ≡ commit_to s (start marshal run job body (failing faults s.world)).1
        → Step s t
    relays :
        (faults : List Bool)
        → t ≡ record s { world = (relay (failing faults s.world)).1 }
        → Step s t
    -- A worker receives a message, also one that another worker received before.
    receives :
        (before after : List Envelope) (e : Envelope)
        → s.world.queue ≡ before ++ (e ∷ after)
        → count e.handle s.deliveries < max_receive_count
        → t ≡ record s {
          workers = (e.handle, received e.body) ∷ s.workers;
          deliveries = e.handle ∷ s.deliveries;
        }
        → Step s t
    -- SQS moves a message that was received too often to the dead-letter queue.
    parks :
        (before after : List Envelope) (e : Envelope)
        → s.world.queue ≡ before ++ (e ∷ after)
        → max_receive_count ≤ count e.handle s.deliveries
        → t ≡ withdraw s e
        → Step s t
    -- SQS drops a message after its retention.
    expires :
        (before after : List Envelope) (e : Envelope)
        → s.world.queue ≡ before ++ (e ∷ after)
        → e.sent + retention ≤ s.world.db.now
        → t ≡ withdraw s e
        → Step s t
    works :
        (before after : List (ℕ × Stage)) (h : ℕ) (st : Stage) (job : ℕ) (faults : List Bool)
        → s.workers ≡ before ++ ((h, st) ∷ after)
        → IsFresh job s.world
        → t ≡ settle_worker s before h after (proceed execute job h st (failing faults s.world))
        → Step s t
    -- A worker is done with a message, or stops before it is.
    leaves :
        (before after : List (ℕ × Stage)) (p : ℕ × Stage)
        → s.workers ≡ before ++ (p ∷ after)
        → t ≡ record s { workers = before ++ after }
        → Step s t
    -- The clock of the database moves on.
    waits :
        (now : ℕ)
        → t ≡ record s { world = record s.world { db = record s.world.db { now = now } } }
        → Step s t

  -- What the services come to from `s`.
  pub data Reach (s : Services) : Services → Type 0 where
    stays : Reach s s
    steps : {t u : Services} → Reach s t → Step t u → Reach s u

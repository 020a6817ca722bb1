-- ===== src/System/Invariant.antt =====
-- The running system never loses a run: internal/handler/run, internal/execution and internal/worker together.
use orchex.Prelude.{ℕ, ◌<◌, ◌≡◌, ◌⊎◌, subst, String, [], ◌∷◌, ◌++◌, Option, some, true}
use orchex.Result.{Result}
use orchex.Store.Tables.{WorkflowRun, NodeRow}
use orchex.Store.RunQueries.{find_run}
use orchex.Worker.{ExecResult, is_active, proceed}
use orchex.Worker.Relay.Waiting.{messages_for, open_jobs}
use orchex.Runs.Start.{start}
use orchex.Runs.Diagram.{perform}
use orchex.System.Endpoints.{perform-Ensures}
use orchex.System.Begin.{start-Ensures}
use orchex.System.Steps.{
  Services, failing, Step, serves, begins, relays, receives, parks, expires, works, leaves, waits,
  Reach, stays, steps,
}
use orchex.System.Sight.{in_sight}
use orchex.System.Sound.{
  IsSound, failing-IsSound, Grows-IsSound, relay-IsSound, receives-IsSound, either_waits,
  leaves-IsSound,
}
use orchex.System.Withdraws.{withdraw-IsSound, without_jobs-IsSound}
use orchex.System.Handles.{proceed-IsSound}

abbrev pub IsSoundState : Services → Type 0
IsSoundState s = IsSound s.withdrawn s.world s.workers

-- No run is stored, and nothing waits.
abbrev pub IsEmpty : Services → Type 0
IsEmpty s =
    (s.world.db.runs ≡ []) × (s.world.db.outbox ≡ []) × (s.world.queue ≡ []) × (s.workers ≡ [])

empty-IsSound : (s : Services) → IsEmpty s → IsSoundState s
empty-IsSound s (runs, outbox, queue, workers) = record {
  rows = rw outbox tt;
  keyed = record { given = rw queue tt; owned = rw queue tt };
  given = rw workers tt;
  ours = rw workers tt;
  covered = λ i (r, found, active). cc (rw runs at found);
}

module _ (execute : NodeRow → String → Result String ExecResult) (marshal : String → Option String)
    (retention : ℕ) where
  Step-IsSound :
      {s t : Services} → Step execute marshal retention s t → IsSoundState s → IsSoundState t
  Step-IsSound {s} (serves a job path faults fresh e) h =
      let w = failing faults s.world in
      let (q, g) = perform-Ensures a job path w in
      rw e (
        without_jobs-IsSound s.withdrawn (perform a job path w).1 s.workers (
          Grows-IsSound s.withdrawn job w (perform a job path w).1 s.workers
            (failing-IsSound s.withdrawn faults s.world s.workers h) fresh q g))
  Step-IsSound {s} (begins run job body faults fresh e) h =
      let w = failing faults s.world in
      let (q, g) = start-Ensures marshal run job body w in
      rw e (
        without_jobs-IsSound s.withdrawn (start marshal run job body w).1 s.workers (
          Grows-IsSound s.withdrawn job w (start marshal run job body w).1 s.workers
            (failing-IsSound s.withdrawn faults s.world s.workers h) fresh q g))
  Step-IsSound {s} (relays faults e) h = rw e (
      relay-IsSound s.withdrawn (failing faults s.world) s.workers
        (failing-IsSound s.withdrawn faults s.world s.workers h))
  Step-IsSound {s} (receives before after x queue often e) h =
      rw e (receives-IsSound s.withdrawn s.world s.workers before after x queue h)
  Step-IsSound {s} (parks before after x queue often e) h =
      rw e (withdraw-IsSound s.withdrawn s.world s.workers before after x queue h)
  Step-IsSound {s} (expires before after x queue old e) h =
      rw e (withdraw-IsSound s.withdrawn s.world s.workers before after x queue h)
  Step-IsSound {s} (works before after k st job faults there fresh e) h =
      let w = failing faults s.world in
      let p = proceed execute job k st w in
      rw e (
        without_jobs-IsSound s.withdrawn p.1 (before ++ ((k, p.0) ∷ after)) (
          proceed-IsSound s.withdrawn execute before after k job st w fresh (
            failing-IsSound s.withdrawn faults s.world _
              (subst (IsSound s.withdrawn s.world) there h))))
  Step-IsSound {s} (leaves before after p there e) h = rw e (
      leaves-IsSound s.withdrawn before after s.world p
        (subst (IsSound s.withdrawn s.world) there h))
  Step-IsSound {s} (waits now e) h = rw e (record {
    rows = h.rows;
    keyed = record { given = h.keyed.given; owned = h.keyed.owned };
    given = h.given;
    ours = h.ours;
    covered = h.covered;
  })

  Reach-IsSound :
      {s t : Services} → IsSoundState s → Reach execute marshal retention s t → IsSoundState t
  Reach-IsSound h stays = h
  Reach-IsSound h (steps r st) = Step-IsSound st (Reach-IsSound h r)

-- Start with no run, no row in the outbox and no message, and let clients, the relay, the clock, the
-- queue and any number of workers act in any order, with any calls failing, messages received up to
-- five times and workers stopping at any call, where identifiers of new outbox rows are fresh. Then
-- every stored run that is pending or running has a row of the outbox, or a message of the queue
-- that no worker is about to delete, or SQS itself took one of its messages out of the queue, moved
-- to the dead-letter queue after five deliveries or dropped after its retention, and no service has
-- written a job for the run since.
pub active-waiting :
    (execute : NodeRow → String → Result String ExecResult) (marshal : String → Option String)
    (retention : ℕ) (s t : Services)
    → IsEmpty s
    → Reach execute marshal retention s t
    → (i : ℕ) (r : WorkflowRun) → find_run i t.world.db.runs ≡ some r
    → is_active r.status ≡ true
    → (0 < open_jobs i (in_sight t.workers) t.world) ⊎ (0 < messages_for i t.withdrawn)
active-waiting execute marshal retention s t empty reach i r found active = either_waits _ _ (
    (Reach-IsSound execute marshal retention (empty-IsSound s empty) reach).covered i
      (r, found, active))

-- ===== src/Worker/Relay/Rounds.antt =====
-- internal/execution/relay.go: the calls of one round, and the loop over the jobs.
use orchex.Prelude.{
  ℕ, Bool, ◌≤◌, ◌<◌, ◌≡◌, ◌∙◌, refl, ◌⊎◌, inl, inr, true, false, List, [], ◌∷◌, arith, ◌==◌,
  Bool-cases, ==_iff, some,
}
use orchex.Result.{Result, ok, err}
use orchex.Store.Tables.{RunStatus, WorkflowRun, OutboxJob, World}
use orchex.Store.Effects.{StoreError, ◌>>◌, continue, send, next_fails, statement}
use orchex.Store.RunQueries.{find_run, drop_job, delete_run_node_job_outbox}
use orchex.Worker.{is_active}
use orchex.Worker.Relay.{message_of, send_if_active, relay_jobs}
use orchex.Worker.Relay.Waiting.{
  live, open_jobs, SeesNew, Owns, Listed, live-append, jobs_for-drop, Listed-drop,
}

-- What a stretch of the relay keeps for the run `i`.
pub record Kept (i : ℕ) (visible : ℕ → Bool) (w w' : World) : Type 0 where
  pub runs : w'.db.runs ≡ w.db.runs
  pub covered : 0 < open_jobs i visible w → 0 < open_jobs i visible w'
  pub messages : live i visible w.queue ≤ live i visible w'.queue
  pub handles : w.next_handle ≤ w'.next_handle

Kept-trans :
    (i : ℕ) (visible : ℕ → Bool) (u v w : World)
    → Kept i visible u v
    → Kept i visible v w
    → Kept i visible u w
Kept-trans i visible u v w a b = record {
  runs = b.runs ∙ a.runs;
  covered = λ h. b.covered (a.covered h);
  messages = omega (arith, a.messages, b.messages);
  handles = omega (arith, a.handles, b.handles);
}

-- After a call that sends the job if it is active: the database is as it was, and on success a
-- message for an active job waits.
record Sent (i : ℕ) (visible : ℕ → Bool) (j : OutboxJob) (s : RunStatus) (w : World)
    (p : Result StoreError (Unit {0}) × World) : Type 0 where
  db : p.1.db ≡ w.db
  messages : live i visible w.queue ≤ live i visible p.1.queue
  handles : w.next_handle ≤ p.1.next_handle
  reached : p.0 ≡ ok tt → is_active s ≡ true → j.run_id ≡ i → 0 < live i visible p.1.queue

send_if_active-Sent :
    (i : ℕ) (visible : ℕ → Bool) (j : OutboxJob) (s : RunStatus) (w : World)
    → SeesNew visible w
    → Sent i visible j s w (send_if_active j s w)
send_if_active-Sent i visible j s w sees = elim (Bool-cases (is_active s)) [
  | inr idle ↦
      rw idle
        (record { db = refl; messages = omega arith; handles = omega arith; reached = λ _ a _. cc })
  | inl active ↦ rw active (sent (Bool-cases (next_fails w.faults)))
]
  where
    sent :
        (next_fails w.faults ≡ true) ⊎ (next_fails w.faults ≡ false)
        → Sent i visible j s w (send (message_of j) w)
    sent (inl f) =
        unfold send in
        (rw f (record {
          db = refl;
          messages = omega arith;
          handles = omega arith;
          reached = λ o _ _. cc;
        }))
    sent (inr f) =
        unfold send in
        (rw f (record {
          db = refl;
          messages = omega (
            arith,
            live-append i visible w.queue
                (record { handle = w.next_handle; body = message_of j; sent = w.db.now } ∷ []),
          );
          handles = omega arith;
          reached = λ o a e. ground (
            arith,
            sees w.next_handle (omega arith),
            live-append i visible w.queue
                (record { handle = w.next_handle; body = message_of j; sent = w.db.now } ∷ []),
          );
        }))

record Dropped (d : ℕ) (w : World) (p : Result StoreError (Unit {0}) × World) : Type 0 where
  next_handle : p.1.next_handle ≡ w.next_handle
  queue : p.1.queue ≡ w.queue
  pub runs : p.1.db.runs ≡ w.db.runs
  outbox : p.0 ≡ ok tt → p.1.db.outbox ≡ drop_job d w.db.outbox
  failed : (e : StoreError) → p.0 ≡ err e → p.1.db.outbox ≡ w.db.outbox

delete-Dropped : (d : ℕ) (w : World) → Dropped d w (delete_run_node_job_outbox d w)
unfolding delete_run_node_job_outbox statement
delete-Dropped d w = elim (Bool-cases (next_fails w.faults)) [
  | inl f ↦ rw f (record {
    next_handle = refl;
    queue = refl;
    runs = refl;
    outbox = λ h. cc;
    failed = λ e h. refl;
  })
  | inr f ↦ rw f (record {
    next_handle = refl;
    queue = refl;
    runs = refl;
    outbox = λ h. refl;
    failed = λ e h. cc;
  })
]

module _ (i : ℕ) (visible : ℕ → Bool) (r : WorkflowRun) (active : is_active r.status ≡ true) where
  Kept-Sent :
      (j : OutboxJob) (s : RunStatus) (w : World) (p : Result StoreError (Unit {0}) × World)
      → Sent i visible j s w p
      → Kept i visible w p.1
  Kept-Sent j s w p t = record {
    runs = rw t.db refl;
    covered = λ h. rw t.db (omega (arith, t.messages));
    messages = t.messages;
    handles = t.handles;
  }

  Kept-Dropped :
      (j : OutboxJob) (s : RunStatus) (w w₁ : World) (p : Result StoreError (Unit {0}) × World)
      → find_run i w.db.runs ≡ some r
      → Owns j.id j.run_id w.db.outbox
      → ((x : WorkflowRun) → find_run j.run_id w.db.runs ≡ some x → x.status ≡ s)
      → Sent i visible j s w (ok tt, w₁)
      → Dropped j.id w₁ p
      → p.0 ≡ ok tt
      → Kept i visible w p.1
  Kept-Dropped j s w w₁ p found owns status t d o = record {
    runs = d.runs ∙ rw t.db refl;
    covered = λ h. elim (Bool-cases (j.run_id == i)) [
      | inl same ↦
          let e : j.run_id ≡ i = (==_iff j.run_id i).0 same in
          let st : r.status ≡ s = status r (rw e found) in
          let m = t.reached refl (rw (← st) active) e in rw d.queue (omega (arith, m))
      | inr other ↦
          let out : p.1.db.outbox ≡ drop_job j.id w.db.outbox = d.outbox o ∙ rw t.db refl in
          rw (out, d.queue)
            (omega
              (arith, jobs_for-drop i j.id j.run_id w.db.outbox (ground arith) owns, t.messages))
    ];
    messages = rw d.queue t.messages;
    handles = rw d.next_handle t.handles;
  }

  pub relay_jobs-Kept :
      (js : List (OutboxJob × RunStatus)) (w : World)
      → find_run i w.db.runs ≡ some r
      → Listed w js
      → SeesNew visible w
      → Kept i visible w (relay_jobs js w).1
  unfolding relay_jobs
  relay_jobs-Kept [] w found l sees = record {
    runs = refl;
    covered = λ h. h;
    messages = omega arith;
    handles = omega arith;
  }
  relay_jobs-Kept ((j, s) ∷ js) w found l sees =
      sent (λ w₂. relay_jobs-Kept js w₂) (send_if_active j s w)
        (send_if_active-Sent i visible j s w sees)
    where
      dropped :
          ((w₂ : World)
            → find_run i w₂.db.runs ≡ some r
            → Listed w₂ js
            → SeesNew visible w₂
            → Kept i visible w₂ (relay_jobs js w₂).1)
          → (w₁ : World) → Sent i visible j s w (ok tt, w₁)
          → (p : Result StoreError (Unit {0}) × World) → Dropped j.id w₁ p
          → Kept i visible w (continue p (λ _. relay_jobs js)).1
      dropped next w₁ t (ok u, w₂) d =
          let kept = Kept-Dropped j s w w₁ (ok u, w₂) found l.0.0 l.0.1 t d refl in
          Kept-trans i visible w w₂ (relay_jobs js w₂).1 kept (
            next w₂ (rw kept.runs found)
              (Listed-drop w w₂ j.id js kept.runs (d.outbox refl ∙ rw t.db refl) l.1)
              (λ h b. sees h (omega (arith, kept.handles, b))))
      dropped next w₁ t (err e, w₂) d = record {
        runs = d.runs ∙ rw t.db refl;
        covered = λ h. rw (d.failed e refl, d.queue) (rw t.db (omega (arith, t.messages)));
        messages = rw d.queue t.messages;
        handles = rw d.next_handle t.handles;
      }

      sent :
          ((w₂ : World)
            → find_run i w₂.db.runs ≡ some r
            → Listed w₂ js
            → SeesNew visible w₂
            → Kept i visible w₂ (relay_jobs js w₂).1)
          → (p : Result StoreError (Unit {0}) × World) → Sent i visible j s w p
          → Kept i visible w (continue p (λ _. delete_run_node_job_outbox j.id >> relay_jobs js)).1
      sent next (ok u, w₁) t =
          dropped next w₁ t (delete_run_node_job_outbox j.id w₁) (delete-Dropped j.id w₁)
      sent next (err e, w₁) t = Kept-Sent j s w (err e, w₁) t

-- ===== src/Worker/Relay/Keeps.antt =====
-- internal/execution/relay.go: no round loses the last job of an active run.
use orchex.Prelude.{
  ℕ, ◌<◌, ◌≡◌, refl, inl, inr, true, List, [], ◌∷◌, arith, ltb, Bool, Bool-cases, All, Option, none,
  some,
}
use orchex.Result.{Result, ok, err}
use orchex.Store.Tables.{RunStatus, WorkflowRun, OutboxJob, World}
use orchex.Store.Effects.{StoreError, continue, in_tx, next_fails, statement, close_tx, tried}
use orchex.Store.RunQueries.{
  find_run, due_jobs, is_due, join_run, insert_by_creation, order_by_creation,
  lock_due_run_node_jobs_outbox,
}
use orchex.Worker.{is_active}
use orchex.Worker.Relay.{relay_jobs, relay}
use orchex.Worker.Relay.Waiting.{waiting, live_all, open_jobs, SeesNew, Owns, Listed}
use orchex.Worker.Relay.Rounds.{Kept, relay_jobs-Kept}

-- The rows of an outbox whose identifiers name one run each.
abbrev pub HasOwnedRows : List OutboxJob → Type 0
HasOwnedRows outbox = All (λ j. Owns j.id j.run_id outbox) outbox

Listed-join :
    (w : World) (j : OutboxJob) (o : Option WorkflowRun) (js : List (OutboxJob × RunStatus))
    → find_run j.run_id w.db.runs ≡ o
    → Owns j.id j.run_id w.db.outbox
    → Listed w js
    → Listed w (join_run j o js)
Listed-join w j none js found o l = l
Listed-join w j (some r) js found o l = ((o, λ x h. cc), l)

Listed-due :
    (w : World) (js : List OutboxJob)
    → All (λ j. Owns j.id j.run_id w.db.outbox) js
    → Listed w (due_jobs w.db.now w.db.runs js)
unfolding due_jobs
Listed-due w [] o = tt
Listed-due w (j ∷ js) o = elim (Bool-cases (is_due w.db.now j.available_at)) [
  | inr early ↦ rw early (Listed-due w js o.1)
  | inl due ↦ rw due (
      Listed-join w j (find_run j.run_id w.db.runs) (due_jobs w.db.now w.db.runs js) refl o.0
        (Listed-due w js o.1))
]

Listed-insert :
    (w : World) (p : OutboxJob × RunStatus) (js : List (OutboxJob × RunStatus))
    → Listed w (p ∷ [])
    → Listed w js
    → Listed w (insert_by_creation p js)
unfolding insert_by_creation
Listed-insert w (j, s) [] one l = one
Listed-insert w (j, s) ((k, t) ∷ js) one l = elim (Bool-cases (ltb k.created_at j.created_at)) [
  | inl behind ↦ rw behind (l.0, Listed-insert w (j, s) js one l.1)
  | inr front ↦ rw front (one.0, l)
]

Listed-order :
    (w : World) (js : List (OutboxJob × RunStatus)) → Listed w js → Listed w (order_by_creation js)
unfolding order_by_creation
Listed-order w [] l = tt
Listed-order w (p ∷ js) l =
    Listed-insert w p (order_by_creation js) (l.0, tt) (Listed-order w js l.1)

abbrev due : World → List (OutboxJob × RunStatus)
due w = order_by_creation (due_jobs w.db.now w.db.runs w.db.outbox)

Kept-tried :
    (i : ℕ) (visible : ℕ → Bool) (w x : World) → Kept i visible (tried w) x → Kept i visible w x
Kept-tried i visible w x k = record {
  runs = k.runs;
  covered = k.covered;
  messages = k.messages;
  handles = k.handles;
}

module _ (i : ℕ) (visible : ℕ → Bool) (r : WorkflowRun) (active : is_active r.status ≡ true) where
  body_Kept :
      (w : World)
      → find_run i w.db.runs ≡ some r
      → HasOwnedRows w.db.outbox
      → SeesNew visible w
      → Kept i visible w (continue (lock_due_run_node_jobs_outbox w) relay_jobs).1
  unfolding lock_due_run_node_jobs_outbox statement
  body_Kept w found o sees = elim (Bool-cases (next_fails w.faults)) [
    | inl f ↦
        rw f
          (record { runs = refl; covered = λ h. h; messages = omega arith; handles = omega arith })
    | inr f ↦ rw f (
        Kept-tried i visible w (relay_jobs (due w) (tried w)).1 (
          relay_jobs-Kept i visible r active (due w) (tried w) found
            (Listed-order (tried w) (due_jobs w.db.now w.db.runs w.db.outbox)
              (Listed-due (tried w) w.db.outbox o))
            sees))
  ]

  closed :
      (w : World) (p : Result StoreError (Unit {0}) × World)
      → Kept i visible w p.1
      → 0 < open_jobs i visible w
      → 0 < open_jobs i visible (close_tx w.db p).1
  unfolding close_tx
  closed w (err e, w') k h = omega (arith, k.messages)
  closed w (ok u, w') k h = elim (Bool-cases (next_fails w'.faults)) [
    | inl f ↦ rw f (omega (arith, k.messages))
    | inr f ↦ rw f (k.covered h)
  ]

  -- A round of the relay, with the messages counted that are in sight.
  pub relay-keeps_open :
      (w : World)
      → find_run i w.db.runs ≡ some r
      → HasOwnedRows w.db.outbox
      → SeesNew visible w
      → 0 < open_jobs i visible w
      → 0 < open_jobs i visible (relay w).1
  unfolding relay in_tx
  relay-keeps_open w found o sees h = elim (Bool-cases (next_fails w.faults)) [
    | inl f ↦ rw f h
    | inr f ↦ rw f (
        closed w (continue (lock_due_run_node_jobs_outbox (tried w)) relay_jobs)
          (Kept-tried i visible w (continue (lock_due_run_node_jobs_outbox (tried w)) relay_jobs).1
            (body_Kept (tried w) found o sees))
          h)
  ]

-- Whatever calls fail, a round of the relay leaves a job for every active run that had one: if a
-- job of the run waited in the outbox or in the queue before the round, one waits after it. The
-- identifiers of the outbox rows name one run each.
pub relay-keeps :
    (i : ℕ) (r : WorkflowRun) (w : World)
    → find_run i w.db.runs ≡ some r
    → is_active r.status ≡ true
    → HasOwnedRows w.db.outbox
    → 0 < waiting i w
    → 0 < waiting i (relay w).1
relay-keeps i r w found active o h =
    let kept =
      relay-keeps_open i (λ h. true) r active w found o (λ h b. refl)
        (omega (arith, live_all i w.queue)) in
    omega (arith, kept, live_all i (relay w).1.queue)
